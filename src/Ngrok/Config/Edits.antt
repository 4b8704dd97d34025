-- ===== src/Ngrok/Config/Edits.antt =====
-- ngrok/src/config/headers.rs: the edits of the headers of a request or a response.
use Prim.Native.String.{String, ◌++◌}
use ngrok_rs.Common.{Bool, not, ◌||◌, List, [], map}
use ngrok_rs.Common.Names.{set}
use ngrok_rs.Ngrok.Proto.{Labels}
use ngrok_rs.Ngrok.Proto.Endpoints as Endpoints
use ngrok_rs.Ngrok.Config.{is_empty, push}

pub record Headers : Type 0 where
  pub added : Labels
  pub removed : List String

-- `Headers::default()`
abbrev pub default_headers : Headers
default_headers = record { added = []; removed = [] }

unfoldable pub add : Headers → String → String → Headers
unfolding set
add self name value = record self { added = set self.added name value }

unfoldable pub remove : Headers → String → Headers
remove self name = record self { removed = push self.removed name }

unfoldable pub has_entries : Headers → Bool
has_entries self = not (is_empty self.added) || not (is_empty self.removed)

-- `format!("{}:{}", a.0, a.1)`
unfoldable pub header_line : String × String → String
header_line (name, value) = name ++ (":" ++ value)

-- `HeaderProto::from(headers)`
unfoldable pub headers_from : Headers → Endpoints.Headers
unfolding header_line
headers_from headers = record {
  add = map header_line headers.added;
  remove = headers.removed;
  add_parsed = [];
}
