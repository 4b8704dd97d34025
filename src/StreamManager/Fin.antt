-- ===== src/StreamManager/Fin.antt =====
-- The FINs that `poll_next` of muxado/src/stream_manager.rs makes up for streams that were dropped.
use ngrok_rs.Common.{
  ℕ, ◌≡◌, ◌≢◌, refl, sym, ap, ◌∙◌, arith, ◌==◌, ==_iff, ◌-◌, true, false, inl, inr, Bool-cases, [],
  ◌∷◌, map, Option, none, some, ok, OnOk-ok, ready, pending,
}
use ngrok_rs.Common.Maps.{lookup, insert, lookup-insert, lookup-remove}
use ngrok_rs.Frame.{Body, Frame, is_fin, with_stream_id}
use ngrok_rs.StreamManager.{
  StreamHandle, StreamManager, OpenReq, go_away, close_senders, create_stream, close_channel,
  take_id, opened, get_stream, remove_stream,
}
use ngrok_rs.StreamManager.Polling.{Polled, credit, poll_item, poll_task, poll_next, sent}
use ngrok_rs.StreamManager.Sending.{
  Channel, SendResult, send_frame, handle_body, handle_frame, judge,
}
use ngrok_rs.StreamManager.Effects.{
  Streams, PollEffect, kept, dropped, marked, missing, updated, Effect, poll_next-Effect,
  poll_send-SendEffect,
}
use ngrok_rs.StreamManager.Answers.{without_task, poll_next_task, poll_task_frame}
use ngrok_rs.StreamManager.Steps.{Step, creates, polls, sends, leaves, closes, finishes, ends}

-- A handle's need for a FIN is not taken up again.
abbrev Later : StreamHandle → StreamHandle → Type 0
Later h h' = h.needs_fin ≡ false → h'.needs_fin ≡ false

credit_needs_fin : (b : Body) (h : StreamHandle) → (credit b h).needs_fin ≡ h.needs_fin
unfolding credit
credit_needs_fin (Body.wnd_inc n) h = refl
credit_needs_fin _ h = refl

sent-Later : (f : Frame) (h : StreamHandle) → Later h (sent f h)
unfolding sent
sent-Later f h e = ground (arith, credit_needs_fin f.body h)

send_frame-Later :
    (f : Frame) (c : Channel) (h : StreamHandle) → (send_frame f c h).0.needs_fin ≡ h.needs_fin
unfolding send_frame
send_frame-Later f c h = ground arith

handle_body-Later :
    (b : Body) (f : Frame) (n : ℕ) (c : Channel) (h : StreamHandle)
    → Later h (handle_body b f n c h).0
unfolding handle_body
handle_body-Later (Body.rst x) f n c h e = refl
handle_body-Later _ f n c h e =
    ground (arith, send_frame-Later f c (record h { window = h.window - n }))

handle_frame-Later :
    (f : Frame) (n : ℕ) (c : Channel) (h : StreamHandle) → Later h (handle_frame f n c h).0
unfolding handle_frame
handle_frame-Later f n c h e = ground (arith, handle_body-Later f.body f n c h e)

judge-Later : (f : Frame) (h : StreamHandle) (r : SendResult) → Later h (judge f h r).0
unfolding judge
judge-Later f h r e = ground arith

-- The stream `id`, if it is there, needs no FIN.
abbrev pub Settled : ℕ → Streams → Type 0
Settled id s = (h : StreamHandle) → lookup id s ≡ some h → h.needs_fin ≡ false

insert-Settled :
    (id k : ℕ) (g g' : StreamHandle) (s : Streams)
    → lookup k s ≡ some g
    → Later g g'
    → Settled id s
    → Settled id (insert k g' s)
insert-Settled id k g g' s q later v h p = elim (Bool-cases (k == id)) [
  | inl hit ↦ ground (
    arith,
    lookup-insert k id g' s,
    hit,
    v g (ap (λ j. lookup j s) (sym ((==_iff k id).0 hit)) ∙ q),
    later,
  )
  | inr miss ↦ v h (ground (arith, lookup-insert k id g' s, miss))
]

PollEffect-Settled :
    (id : ℕ) {before after : Streams}
    → PollEffect before after
    → Settled id before
    → Settled id after
PollEffect-Settled id {before = s} (kept e) v h p = v h (sym (ap (lookup id) e) ∙ p)
PollEffect-Settled id {before = s} (dropped k g q e) v h p =
    v h (ground (arith, lookup-remove k id s, ap (lookup id) e))
PollEffect-Settled id {before = s} (marked k g f q e) v h p =
    insert-Settled id k g (sent f g) s q (sent-Later f g) v h (sym (ap (lookup id) e) ∙ p)

closed-Settled :
    (id : ℕ) (s : Streams)
    → Settled id s
    → Settled id (map (λ (entry : ℕ × StreamHandle). (entry.0, close_channel entry.1)) s)
unfolding lookup
closed-Settled id [] v h p = cc
closed-Settled id ((j, g) ∷ s) v h p = elim (Bool-cases (j == id)) [
  | inl hit ↦ ground (arith, hit, v g (rw hit))
  | inr miss ↦ closed-Settled id s (λ x q. v x (rw miss q)) h (ground (arith, miss))
]

create_other :
    (id : ℕ) (m : StreamManager) (other : Option ℕ) (req : OpenReq)
    → (take_id m other).1 ≢ id
    → Settled id m.streams
    → Settled id (create_stream m other req).0.streams
unfolding create_stream
create_other id m none req ne v h p =
    v h (ground (arith, lookup-insert (take_id m none).1 id (opened req) m.streams))
create_other id m (some other) req ne v h p =
    v h (ground (arith, lookup-insert other id (opened req) m.streams))

-- The step starts no stream under the id.
abbrev pub IsElsewhere : ℕ → {m m' : StreamManager} → Step m m' → Type 0
IsElsewhere id {m} (creates other req) = (take_id m other).1 ≢ id
IsElsewhere id _ = Unit {0}

Step-Settled :
    (id : ℕ) {m m' : StreamManager} (s : Step m m')
    → IsElsewhere id s
    → Settled id m.streams
    → Settled id m'.streams
unfolding go_away close_senders
Step-Settled id {m} (creates other req) ne v = create_other id m other req ne v
Step-Settled id {m} (polls sys task p e) ne v =
    let (effect, _) = OnOk-ok (Effect m) _ p e (poll_next-Effect m sys task) in
    PollEffect-Settled id effect v
Step-Settled id {m} (sends f n c) ne v = elim (poll_send-SendEffect m f n c) [
  | missing q e ↦ λ h p. v h (sym (ap (λ (k : StreamManager). lookup id k.streams) e) ∙ p)
  | updated g q e ↦ λ h p.
      insert-Settled id f.header.stream_id g _ m.streams q
        (λ y. judge-Later f _ (handle_frame f n c g).2 (handle_frame-Later f n c g y)) v h
        (sym (ap (λ (k : StreamManager). lookup id k.streams) e) ∙ p)
]
Step-Settled id (leaves e) ne v = λ h p. unfold lookup in cc
Step-Settled id {m} closes ne v = closed-Settled id m.streams v
Step-Settled id {m} (finishes k g q) ne v = insert-Settled id k g _ m.streams q (λ y. y) v
Step-Settled id {m} (ends k g e q) ne v = insert-Settled id k g _ m.streams q (λ y. y) v

-- Steps that start no stream under the id.
pub data Elsewhere (id : ℕ) (start : StreamManager) : StreamManager → Type 0 where
  here : Elsewhere id start start
  next :
      {m m' : StreamManager}
      → Elsewhere id start m
      → (s : Step m m') → IsElsewhere id s
      → Elsewhere id start m'

Elsewhere-Settled :
    (id : ℕ) {m m' : StreamManager}
    → Elsewhere id m m'
    → Settled id m.streams
    → Settled id m'.streams
Elsewhere-Settled id here v = v
Elsewhere-Settled id (next r s ne) v = Step-Settled id s ne (Elsewhere-Settled id r v)

sent_fin : (f : Frame) (h : StreamHandle) → is_fin f ≡ true → (sent f h).needs_fin ≡ false
unfolding sent
sent_fin f h e = ground arith

marked_fin :
    (id : ℕ) (f : Frame) (h : StreamHandle) (s after : Streams)
    → is_fin f ≡ true
    → after ≡ insert id (sent f h) s
    → Settled id after
marked_fin id f h s after fin e h' p =
    ground (arith, ap (lookup id) e, lookup-insert id id (sent f h) s, sent_fin f h fin)

settled_end :
    (m : StreamManager) (id : ℕ) (h : StreamHandle)
    → lookup id m.streams ≡ some h
    → h.needs_fin ≡ false
    → (p : Polled) × (poll_task m id none ≡ ok p) × (p.1 ≡ pending) × (lookup id p.0.streams ≡ none)
unfolding poll_task get_stream poll_item
settled_end m id h q settled = (
  (remove_stream m id, pending, true),
  rw (q, poll_task, get_stream) (ground (arith, settled)),
  refl,
  unfold remove_stream in ground (arith, lookup-remove id id m.streams),
)

-- After a stream's own FIN has gone out, the manager makes up no second one. Whatever happens in
-- between, as long as no new stream is started under the id, the end of the stream then yields no
-- frame, and only drops it.
pub no_second_fin :
    (id : ℕ) (f : Frame) (m m' : StreamManager) (p : Polled) (h' : StreamHandle)
    → m.sent_away ≡ false
    → is_fin f ≡ true
    → poll_next m pending (ready (some (id, some f))) ≡ ok p
    → p.1 ≡ ready (some (with_stream_id id f))
    → Elsewhere id p.0 m'
    → m'.sent_away ≡ false
    → lookup id m'.streams ≡ some h'
    → (p' : Polled) × (poll_next m' pending (ready (some (id, none))) ≡ ok p')
      × (p'.1 ≡ pending)
      × (lookup id p'.0.streams ≡ none)
no_second_fin id f m m' p h' awake fin e frame r awake' q =
    let (h, _, marks) =
      poll_task_frame (without_task m id) id f p (sym (poll_next_task m id (some f) awake) ∙ e)
        frame in
    let settled = Elsewhere-Settled id r (marked_fin id f h _ _ fin marks) in
    let (p', e', none_sent, gone) = settled_end (without_task m' id) id h' q (settled h' q) in
    (p', poll_next_task m' id none awake' ∙ e', none_sent, gone)
