-- ===== src/Window/Bounds.antt =====
-- What the send window of muxado/src/window.rs keeps.
use ngrok_rs.Common.{ℕ, ◌+◌, ◌≤◌, ◌≡◌, refl, arith, min}
use ngrok_rs.Window.{Window, new, inc, capacity, dec}

pub record IsWindow (w : Window) : Type 0 where
  pub within : w.size ≤ w.max_size

-- A window starts full and stays between zero and its first size. Taking gives as much as there
-- is, and no more than was asked for; what is left and what was taken make up what there was; and
-- giving back what was taken makes the window what it was.
pub window_bounds :
    (w : Window) (by n : ℕ)
    → IsWindow w
    → IsWindow (new n)
      × (capacity (new n) ≡ n)
      × IsWindow (inc w by)
      × IsWindow (dec w by).0
      × ((dec w by).1 ≡ min (capacity w) by)
      × (capacity (dec w by).0 + (dec w by).1 ≡ capacity w)
      × (inc (dec w by).0 (dec w by).1 ≡ w)
unfolding new inc capacity dec
window_bounds w by n h =
    (ground arith, refl, ground arith, ground arith, refl, ground arith, ground arith)
