-- ===== src/Ngrok/Config/Laws.antt =====
-- What the options of ngrok/src/config are in a bind request.
use Prim.Native.String.{String}
use ngrok_rs.Common.{
  ◌≡◌, refl, ap, sym, ◌∙◌, ◌⊎◌, inl, inr, if◌then◌else◌, Bool, true, false, List, [], ◌∷◌, ◌++◌,
  Option, none, some, append_assoc, append-nil,
}
use ngrok_rs.Common.Names.{same, get, get-set}
use ngrok_rs.Frame.{Bytes}
use ngrok_rs.Ngrok.Proto.Endpoints.{BindOpts}
use ngrok_rs.Ngrok.Config.{TunnelConfig, aggregate}
use ngrok_rs.Ngrok.Config.Edits.{Headers, add, remove, default_headers}
use ngrok_rs.Ngrok.Config.Http.{
  Scheme, HttpOptions, scheme_proto, http_proto, http_config, http_opts,
}
use ngrok_rs.Ngrok.Config.Tcp.{TcpOptions, tcp_config, tcp_opts}
use ngrok_rs.Ngrok.Config.Tls.{TlsOptions, tls_config, tls_opts}
use ngrok_rs.Ngrok.Config.Labeled.{LabeledOptions, labeled_config}

-- The lists one after the other
abbrev pub join : List Bytes → Bytes
join [] = []
join (c ∷ b) = c ++ join b

pub aggregate-join : (b : List Bytes) (acc : Bytes) → aggregate acc b ≡ acc ++ join b
unfolding aggregate
aggregate-join [] acc = sym (append-nil acc)
aggregate-join (c ∷ b) acc = aggregate-join b (acc ++ c) ∙ append_assoc acc c (join b)

-- What was chosen last, or else before.
abbrev pub last_from {ℓ} : {A : Type ℓ} → Option A → List A → Option A
last_from before [] = before
last_from before (a ∷ rest) = last_from (some a) rest

abbrev pub last_or {ℓ} : {A : Type ℓ} → A → List A → A
last_or before [] = before
last_or before (a ∷ rest) = last_or a rest

-- The arguments of the calls of one setter, in their order
abbrev pub chosen {ℓ ℓ'} : {C : Type ℓ} {A : Type ℓ'} → (C → Option A) → List C → List A
chosen f [] = []
chosen f (c ∷ cs) = elim (f c) [ none ↦ chosen f cs | some a ↦ a ∷ chosen f cs ]

-- What a caller can do with the headers of a builder.
pub data Edit : Type 0 where
  adds : String → String → Edit
  removes : String → Edit

abbrev pub edit : Headers → List Edit → Headers
edit headers [] = headers
edit headers (adds name value ∷ edits) = edit (add headers name value) edits
edit headers (removes name ∷ edits) = edit (remove headers name) edits

-- The values added for a name, and the names removed
abbrev pub values_of : String → List Edit → List String
values_of name [] = []
values_of name (adds other value ∷ edits) =
    if same other name then value ∷ values_of name edits else values_of name edits
values_of name (removes other ∷ edits) = values_of name edits

abbrev pub names_removed : List Edit → List String
names_removed [] = []
names_removed (adds name value ∷ edits) = names_removed edits
names_removed (removes name ∷ edits) = name ∷ names_removed edits

last_from-if :
    (b : Bool) (before : Option String) (value : String) (values : List String)
    → last_from (if b then some value else before) values
      ≡ last_from before (if b then value ∷ values else values)
last_from-if true before value values = refl
last_from-if false before value values = refl

get-edit :
    (edits : List Edit) (headers : Headers) (name : String)
    → get (edit headers edits).added name
      ≡ last_from (get headers.added name) (values_of name edits)
unfolding add remove
get-edit [] headers name = refl
get-edit (adds other value ∷ edits) headers name =
    get-edit edits (add headers other value) name
    ∙ ap (λ o. last_from o (values_of name edits)) (get-set headers.added other name value)
    ∙ last_from-if (same other name) (get headers.added name) value (values_of name edits)
get-edit (removes other ∷ edits) headers name = get-edit edits (remove headers other) name

removed-edit :
    (edits : List Edit) (headers : Headers)
    → (edit headers edits).removed ≡ headers.removed ++ names_removed edits
unfolding add remove
removed-edit [] headers = sym (append-nil headers.removed)
removed-edit (adds other value ∷ edits) headers = removed-edit edits (add headers other value)
removed-edit (removes other ∷ edits) headers =
    removed-edit edits (remove headers other)
    ∙ append_assoc headers.removed (other ∷ []) (names_removed edits)

-- After any edits of the headers, a name has the value that was added for it last and no other, and
-- the names to remove are those removed, in their order.
pub edit-get :
    (edits : List Edit)
    → ((name : String)
        → get (edit default_headers edits).added name ≡ last_from none (values_of name edits))
      × ((edit default_headers edits).removed ≡ names_removed edits)
unfolding get
edit-get edits = (λ name. get-edit edits default_headers name, removed-edit edits default_headers)

-- The configurations of the four kinds of builders
pub data Configures : TunnelConfig → Type 0 where
  http_configures : (options : HttpOptions) → Configures (http_config options)
  tcp_configures : (options : TcpOptions) → Configures (tcp_config options)
  tls_configures : (options : TlsOptions) → Configures (tls_config options)
  labeled_configures : (options : LabeledOptions) → Configures (labeled_config options)

scheme_proto-nonempty : (s : Scheme) → same (scheme_proto s) "" ≡ false
scheme_proto-nonempty Scheme.http = refl
scheme_proto-nonempty Scheme.https = refl

-- A configuration without a protocol is that of a labeled tunnel and has no bind options; every
-- other one has them, and no labels.
pub Configures-opts :
    (cfg : TunnelConfig)
    → Configures cfg
    → ((cfg.proto ≡ "") × (cfg.opts ≡ none))
      ⊎ ((same cfg.proto "" ≡ false)
          × (cfg.labels ≡ [])
          × ((opts : BindOpts) × (cfg.opts ≡ some opts)))
unfolding http_config http_proto tcp_config tls_config labeled_config http_opts tcp_opts tls_opts
Configures-opts cfg (http_configures options) =
    inr (scheme_proto-nonempty options.scheme, refl, (_, refl))
Configures-opts cfg (tcp_configures options) = inr (refl, refl, (_, refl))
Configures-opts cfg (tls_configures options) = inr (refl, refl, (_, refl))
Configures-opts cfg (labeled_configures options) = inl (refl, refl)
