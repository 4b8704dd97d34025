-- ===== src/Errors/Runs.antt =====
-- Concrete runs of errors.rs, and its theorems at concrete inputs.
use ngrok_rs.Common.{◌≡◌, refl}
use ngrok_rs.Errors.{Error, InvalidHeader, error_from_code, error_from_invalid_header}

-- A code that the program does not know.
unknown_code : error_from_code 77 ≡ Error.error_unknown
unfolding error_from_code
unknown_code = refl

bad_header : error_from_invalid_header (InvalidHeader.typ 9) ≡ Error.protocol
unfolding error_from_invalid_header
bad_header = refl
