-- ===== src/Constrained/Runs.antt =====
-- Concrete runs of constrained.rs, and its theorems at concrete inputs.
use ngrok_rs.Common.{◌≡◌, refl}
use ngrok_rs.Constrained.{Range, clamp, mask, default}

abbrev ports : Range
ports = record { start = 1024; end = 65535 }

clamp_low : clamp ports 80 ≡ 1024
unfolding clamp
clamp_low = refl

mask_high : mask (record { start = 0; end = 0x7FFFFFFF }) 0x80000005 ≡ 5
unfolding mask
mask_high = refl

default_port : default ports ≡ 1024
unfolding default
default_port = refl
