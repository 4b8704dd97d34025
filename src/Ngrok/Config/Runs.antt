-- ===== src/Ngrok/Config/Runs.antt =====
-- Concrete runs of ngrok/src/config, and its theorems at concrete inputs.
use ngrok_rs.Common.{◌≡◌, refl, [], ◌∷◌, List, none}
use ngrok_rs.Common.Names.{set}
use ngrok_rs.Ngrok.Config.{default_common, ip_restriction}
use ngrok_rs.Ngrok.Config.Edits.{default_headers, add, headers_from}
use ngrok_rs.Ngrok.Config.Laws.{adds, removes}
use ngrok_rs.Ngrok.Proto.{Labels}
use ngrok_rs.Ngrok.Config.Http.Edited.{IsLast}
use ngrok_rs.Ngrok.Config.Http.{http_config}
use ngrok_rs.Ngrok.Config.Http.Calls as Http
use ngrok_rs.Ngrok.Config.Http.Asked as Asked

-- The second value of a header replaces the first.
two_values : (headers_from (add (add default_headers "a" "1") "a" "2")).add ≡ "a:2" ∷ []
unfolding headers_from add set
two_values = refl

no_ranges : ip_restriction default_common ≡ none
unfolding ip_restriction
no_ranges = refl

abbrev http_calls : List Http.Call
http_calls =
    Http.signs_in "user" "secret"
    ∷ Http.edits_request (adds "a" "1")
    ∷ Http.breaks_at 0
    ∷ Http.edits_request (removes "b")
    ∷ Http.compresses
    ∷ Http.requests "one.example"
    ∷ Http.requests "two.example"
    ∷ []

config-asked_example :
    (request : Labels) × ((response : Labels) × ((http_config
            (Http.calls ngrok_rs.Ngrok.Config.Http.default_options http_calls)
          ≡ Asked.asked request response http_calls)
        × IsLast request (adds "a" "1" ∷ removes "b" ∷ [])
        × IsLast response []))
config-asked_example = Asked.config-asked http_calls
