-- ===== src/Window.antt =====
-- muxado/src/window.rs: the send window of a stream. The sums stay far below the range of usize:
-- a window never passes its first size, and an increment fits 31 bits.
pub mod Bounds
mod Runs
use ngrok_rs.Common.{ℕ, ◌+◌, ◌-◌, ◌==◌, if◌then◌else◌, min}

pub record Window : Type 0 where
  pub max_size : ℕ
  pub size : ℕ

unfoldable pub new : ℕ → Window
new capacity = record { max_size = capacity; size = capacity }

unfoldable pub inc : Window → ℕ → Window
inc w by = if by == 0 then w else record w { size = min (w.size + by) w.max_size }

unfoldable pub capacity : Window → ℕ
capacity w = w.size

-- The new window, and how much was taken.
unfoldable pub dec : Window → ℕ → Window × ℕ
dec w by = let actual = min w.size by in (record w { size = w.size - actual }, actual)
