-- ===== src/Errors/Codes.antt =====
-- The two conversions between error codes and errors of muxado/src/errors.rs.
use ngrok_rs.Common.{ℕ, ◌<◌, ◌≡◌, refl, arith, leb, if◌then◌else◌}
use ngrok_rs.Errors.{Error, code_from_error, error_from_code}

pub read_back :
    (e : Error) → (error_from_code (code_from_error e) ≡ e) × (code_from_error e < 0x1_0000_0000)
unfolding error_from_code code_from_error
read_back Error.none = (refl, omega arith)
read_back _ = (refl, omega arith)

-- Every error is read back from its code, and the code is a u32. The other way, the codes 0 to 15
-- and the code of the unknown error survive, and every other code becomes that of the unknown
-- error.
pub error_from_code-code_from_error :
    (e : Error) (c : ℕ)
    → (error_from_code (code_from_error e) ≡ e)
      × (code_from_error e < 0x1_0000_0000)
      × (code_from_error (error_from_code c) ≡ (if leb c 15 then c else 0xFFFFFFFF))
unfolding error_from_code code_from_error
error_from_code-code_from_error e c = ((read_back e).0, (read_back e).1, ground arith)
