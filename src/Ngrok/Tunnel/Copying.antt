-- ===== src/Ngrok/Tunnel/Copying.antt =====
-- `forward_bytes` of ngrok/src/tunnel_ext.rs between a reader and a writer that work.
use ngrok_rs.Common.{
  ℕ, zero, suc, ◌<◌, ◌≡◌, refl, ap, sym, ◌∙◌, [], ◌∷◌, ◌++◌, length, length-append, subst,
  append-nil, append_assoc, ok, ready, arith,
}
use ngrok_rs.Frame.{Bytes}
use ngrok_rs.Ngrok.Tunnel.{ForwardIo, copy_some, forward_bytes}

shorter :
    (b : ℕ) (buf rest all : Bytes) (turns : ℕ)
    → all ≡ (b ∷ buf) ++ rest
    → length all < suc turns
    → length rest < turns
shorter b buf rest all turns e lt = ground (arith, length-append buf rest, ap length e)

module _ {State Cause : Type 0} (lib : ForwardIo State Cause) (r w : ℕ) where
  open lib use {read, write_all}

  -- What is left to read, and what was written; a read gives a part of the rest, which is empty
  -- only at the end, and a write appends its bytes.
  pub record IsPipe (input output : State → Bytes) : Type 0 where
    pub reads :
        (s : State)
        → (s' : State) × ((buf : Bytes) × ((read r 1024 s ≡ (s', ok buf))
              × (input s ≡ buf ++ input s')
              × (output s' ≡ output s)
              × (buf ≡ [] → input s ≡ [])))
    pub writes :
        (s : State) (buf : Bytes)
        → (s' : State) × ((write_all w buf s ≡ (s', ok tt))
            × (output s' ≡ output s ++ buf)
            × (input s' ≡ input s))

  -- Copying ends, with all of the input after the output.
  abbrev pub Copied : (State → Bytes) → (State → Bytes) → ℕ → State → Type 0
  Copied input output turns first =
      (last : State) × ((forward_bytes lib turns r w first ≡ (last, ready (ok tt)))
        × (output last ≡ output first ++ input first))

  Copied-turn :
      (input output : State → Bytes) (turns : ℕ) (first s' : State) (buf : Bytes)
      → IsPipe input output
      → ((s : State) → length (input s) < turns → Copied input output turns s)
      → length (input first) < suc turns
      → read r 1024 first ≡ (s', ok buf)
      → input first ≡ buf ++ input s'
      → output s' ≡ output first
      → (buf ≡ [] → input first ≡ [])
      → Copied input output (suc turns) first
  unfolding forward_bytes copy_some
  Copied-turn input output turns first s' [] pipe later lt e i o end =
      (s', (rw e, o ∙ sym (ap (λ bs. output first ++ bs) (end refl) ∙ append-nil (output first))))
  Copied-turn input output turns first s' (b ∷ buf) pipe later lt e i o end =
      let (s2, (e2, o2, i2)) = pipe.writes s' (b ∷ buf) in
      let (last, (done, all)) = later s2 (
        subst (λ bs. length bs < turns) (sym i2)
          (shorter b buf (input s') (input first) turns i lt)) in
      (last, (rw (e, e2, done), cc (append_assoc (output first) (b ∷ buf) (input s'))))

  -- Between a reader and a writer that never fail, where a read gives some of the bytes that are
  -- left, and none only at the end, and a write appends its bytes: given more turns than there are
  -- bytes to read, copying ends without an error, and every byte of the reader has been written, in
  -- order.
  pub forward_bytes-copies :
      (input output : State → Bytes) (turns : ℕ) (first : State)
      → IsPipe input output
      → length (input first) < turns
      → Copied input output turns first
  forward_bytes-copies input output zero first pipe lt = ground arith
  forward_bytes-copies input output (suc turns) first pipe lt =
      let (s', (buf, (e, i, o, end))) = pipe.reads first in
      Copied-turn input output turns first s' buf pipe
        (λ s h. forward_bytes-copies input output turns s pipe h) lt e i o end
