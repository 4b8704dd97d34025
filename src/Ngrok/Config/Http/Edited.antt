-- ===== src/Ngrok/Config/Http/Edited.antt =====
-- The headers of ngrok/src/config/headers.rs after the calls of a builder.
use Prim.Native.String.{String, ◌++◌}
use ngrok_rs.Common.{
  Option, ◌≡◌, refl, ap, not, Bool, true, false, if◌then◌else◌, List, [], ◌∷◌, map, none, arith,
}
use ngrok_rs.Common.Names.{get, set, same, Distinct, Distinct-set}
use ngrok_rs.Ngrok.Proto.{Labels}
use ngrok_rs.Ngrok.Proto.Endpoints as Endpoints
use ngrok_rs.Ngrok.Proto.Endpoints.{
  BindOpts, CircuitBreaker, BasicAuthCredential, compression, websocket_tcp_converter, default_http,
}
use ngrok_rs.Ngrok.Config.{is_empty, then_some, push}
use ngrok_rs.Ngrok.Config.Edits.{
  Headers, default_headers, add, remove, has_entries, header_line, headers_from,
}
use ngrok_rs.Ngrok.Config.Laws.{
  Edit, adds, removes, edit, edit-get, values_of, names_removed, last_from,
}

set-nonempty : (m : Labels) (k v : String) → is_empty (set m k v) ≡ false
unfolding set
set-nonempty [] k v = refl
set-nonempty ((first, old) ∷ m) k v = go (same first k)
  where
    go : (b : Bool) → is_empty (if b then (k, v) ∷ m else (first, old) ∷ set m k v) ≡ false
    go true = refl
    go false = refl

push-nonempty : (l : List String) (a : String) → is_empty (push l a) ≡ false
push-nonempty [] a = refl
push-nonempty (b ∷ l) a = refl

add-has : (h : Headers) (name value : String) → has_entries (add h name value) ≡ true
unfolding has_entries add
add-has h name value = rw (set-nonempty h.added name value)

remove-has : (h : Headers) (name : String) → has_entries (remove h name) ≡ true
unfolding has_entries remove
remove-has h name = ground (arith, push-nonempty h.removed name)

-- Headers that have entries keep having some.
edit-has :
    (edits : List Edit) (h : Headers) → has_entries h ≡ true → has_entries (edit h edits) ≡ true
edit-has [] h q = q
edit-has (adds name value ∷ edits) h q = edit-has edits (add h name value) (add-has h name value)
edit-has (removes name ∷ edits) h q = edit-has edits (remove h name) (remove-has h name)

edited-has : (edits : List Edit) → has_entries (edit default_headers edits) ≡ not (is_empty edits)
unfolding has_entries
edited-has [] = refl
edited-has (adds name value ∷ edits) =
    edit-has edits (add default_headers name value) (add-has default_headers name value)
edited-has (removes name ∷ edits) =
    edit-has edits (remove default_headers name) (remove-has default_headers name)

-- A list of headers without doubles, in which each name has the value that was added for it last.
abbrev pub IsLast : Labels → List Edit → Type 0
IsLast headers edits =
    Distinct headers × ((name : String) → get headers name ≡ last_from none (values_of name edits))

edit-Distinct : (edits : List Edit) (h : Headers) → Distinct h.added → Distinct (edit h edits).added
unfolding add remove
edit-Distinct [] h d = d
edit-Distinct (adds name value ∷ edits) h d =
    edit-Distinct edits (add h name value) (Distinct-set h.added name value d)
edit-Distinct (removes name ∷ edits) h d = edit-Distinct edits (remove h name) d

pub edit-IsLast : (edits : List Edit) → IsLast (edit default_headers edits).added edits
edit-IsLast edits = (edit-Distinct edits default_headers tt, (edit-get edits).0)

-- The name and the value with a colon between them, then the names that are removed
abbrev pub edited : Labels → List Edit → Option Endpoints.Headers
edited headers edits = then_some (not (is_empty edits)) (record {
  add = map (λ (header : String × String). header.0 ++ (":" ++ header.1)) headers;
  remove = names_removed edits;
  add_parsed = [];
})

map-line : (headers : Labels) → map header_line headers ≡ map (λ h. h.0 ++ (":" ++ h.1)) headers
unfolding header_line
map-line [] = refl
map-line (h ∷ headers) = ap (λ t. (h.0 ++ (":" ++ h.1)) ∷ t) (map-line headers)

pub headers-edited :
    (edits : List Edit)
    → then_some
        (has_entries (edit default_headers edits))
        (headers_from (edit default_headers edits))
      ≡ edited (edit default_headers edits).added edits
unfolding headers_from header_line
headers-edited edits =
    rw (edited-has edits, (edit-get edits).1, map-line (edit default_headers edits).added)
