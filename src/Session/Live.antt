-- ===== src/Session/Live.antt =====
-- The two tasks of muxado/src/session.rs together, on one stream manager.
use ngrok_rs.Common.{ℕ, ◌≤◌, ◌≡◌, refl, subst, false, length, none, some, ok, OnOk-ok}
use ngrok_rs.Common.Maps.{lookup}
use ngrok_rs.Errors.{Error}
use ngrok_rs.Frame.{Frame}
use ngrok_rs.StreamManager.{StreamHandle, new}
use ngrok_rs.StreamManager.Steps.{ends, Reach, here, next, close_cell}
use ngrok_rs.StreamManager.Limit.{stream_limit_kept}
use ngrok_rs.Session.{
  SessionBuilder, Reader, Writer, Answers, Handled, start, create, handle_frame, finish, write_turn,
  Turn, Outcome,
}
use ngrok_rs.Session.Managed.{
  Reach-trans, Manages, handle_frame-Manages, finish-Manages, write_turn-Reach,
}

-- The session's life: the turns of its two tasks on the manager that they share, in any order, and
-- what the streams store in the cells that they share with it.
pub data Live (b : SessionBuilder) : Reader → Writer → Type 0 where
  starts : Live b (start b).0 (start b).1
  reads :
      {r : Reader} {w : Writer} (f : Frame) (answers : Answers) (p : Handled)
      → handle_frame r f answers ≡ ok p
      → Live b r w
      → Live b p.0 (record w { manager = p.0.manager })
  gives_up :
      {r : Reader} {w : Writer}
      → Live b r w
      → Live b (finish r).0 (record w { manager = (finish r).0.manager })
  writes :
      {r : Reader} {w : Writer} (t : Turn) (p : Writer × Outcome)
      → write_turn w t ≡ ok p
      → Live b r w
      → Live b (record r { manager = p.0.manager }) p.0
  stores :
      {r : Reader} {w : Writer} (id : ℕ) (h : StreamHandle) (e : Error)
      → lookup id r.manager.streams ≡ some h
      → Live b r w
      → Live b
          (record r { manager = close_cell id h e r.manager })
          (record w { manager = close_cell id h e r.manager })

Live-Reach :
    (b : SessionBuilder) {r : Reader} {w : Writer}
    → Live b r w
    → Reach (new b.stream_limit b.client) r.manager × (w.manager ≡ r.manager)
unfolding start
Live-Reach b starts = (here, refl)
Live-Reach b (reads {r} {w} f answers p e l) = (
  Reach-trans (Live-Reach b l).0 (OnOk-ok (Manages r) _ p e (handle_frame-Manages r f answers)),
  refl,
)
Live-Reach b (gives_up {r} {w} l) = (Reach-trans (Live-Reach b l).0 (finish-Manages r), refl)
Live-Reach b (writes {r} {w} t p e l) =
    let (reach, same) = Live-Reach b l in
    (
      Reach-trans reach (
          subst (λ m. Reach m p.0.manager) same
            (OnOk-ok (λ (q : Writer × Outcome). Reach w.manager q.0.manager) _ p e
              (write_turn-Reach w t))),
      refl,
    )
Live-Reach b (stores {r} {w} id h e q l) = (next (Live-Reach b l).0 (ends id h e q), refl)

-- However the turns of the reader and the writer are ordered and whatever their channels answer,
-- the manager that they share is one that its own operations lead to from a new one, and the
-- session never has more streams than its builder's limit.
pub session_within_limit :
    (b : SessionBuilder) (r : Reader) (w : Writer)
    → Live b r w
    → Reach (new b.stream_limit b.client) r.manager
      × (w.manager ≡ r.manager)
      × (length r.manager.streams ≤ b.stream_limit)
session_within_limit b r w l =
    let (reach, same) = Live-Reach b l in
    let (few, _, _) =
      stream_limit_kept b.stream_limit b.client r.manager none (create r.window false).0 reach in
    (reach, same, few)
