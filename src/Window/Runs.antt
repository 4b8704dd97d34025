-- ===== src/Window/Runs.antt =====
-- A concrete run of window.rs, and its theorem there.
use ngrok_rs.Common.{◌+◌, ◌≡◌, refl, arith, min}
use ngrok_rs.Window.{Window, new, inc, capacity, dec}
use ngrok_rs.Window.Bounds.{IsWindow, window_bounds}

abbrev half_full : Window
half_full = record { max_size = 10; size = 5 }

take_too_much : (dec half_full 8).1 ≡ 5
unfolding dec
take_too_much = refl

window_bounds_example :
    IsWindow (new 7)
    × (capacity (new 7) ≡ 7)
    × IsWindow (inc half_full 3)
    × IsWindow (dec half_full 3).0
    × ((dec half_full 3).1 ≡ min (capacity half_full) 3)
    × (capacity (dec half_full 3).0 + (dec half_full 3).1 ≡ capacity half_full)
    × (inc (dec half_full 3).0 (dec half_full 3).1 ≡ half_full)
window_bounds_example = window_bounds half_full 3 7 (omega arith)
