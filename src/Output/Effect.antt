-- ===== src/Output/Effect.antt =====
-- What output does to the rest of a connection: nothing but to the send buffer while a batch is open.
use russia_tetris.Base.{
  ℕ, ◌<◌, ◌≡◌, refl, ◌⊎◌, inl, inr, ℤ, pos, List, Bool, true, ltb, Bool-cases, le→ltb, ltb_false→le,
  arith, [], ◌+◌, ap, ◌∙◌,
}
use russia_tetris.Status.{over_quit}
use russia_tetris.World.{World}
use russia_tetris.Output.{
  Sent, output, output_text, flush_user_output, enqueue, send_loop, after_send,
}

abbrev pub set_output : World → List ℕ → Bool → World
set_output w s p = record w { user = record w.user { sendbuf = s; pendingoutput = p } }

-- What an output never touches; it may end the connection.
pub record Kept (w w' : World) : Type 0 where
  pub play : w'.play ≡ w.play
  pub depth : w'.depth ≡ w.depth
  pub saves : w'.write_queue ≡ w.write_queue
  pub time : w'.current_time ≡ w.current_time
  pub status : (w'.status ≡ w.status) ⊎ (w'.status ≡ over_quit)

-- The result `b` and the world `w'` of an output from `w`. In a batch it succeeds, and changes the
-- send buffer only.
pub record Drawn (w : World) (b : Bool) (w' : World) : Type 0 where
  pub kept : Kept w w'
  pub batched : 0 < w.depth → (b ≡ true) × (s : List ℕ) × (p : Bool) × (w' ≡ set_output w s p)

Kept-refl : (w : World) → Kept w w
Kept-refl w = record { play = refl; depth = refl; saves = refl; time = refl; status = inl refl }

after_send-Kept : (w : World) (s : Sent) → Kept w (after_send w s).1
unfolding after_send
after_send-Kept w s = ground arith

pub flush-Kept : (w : World) → Kept w (flush_user_output w).1
unfolding flush_user_output
flush-Kept w = ground (arith, after_send-Kept w (send_loop w.replies 0 w.sendbuf []))

pub output-Drawn : (w : World) (s : List ℕ) → Drawn w (output w s).0 (output w s).1
unfolding output
output-Drawn w s = elim (Bool-cases (ltb 0 w.depth)) [
  | inl e ↦ rw e (record {
    kept = record { play = refl; depth = refl; saves = refl; time = refl; status = inl refl };
    batched = λ _. (refl, _, _, refl);
  })
  | inr e ↦
      let k = flush-Kept (enqueue w s) in
      rw e (record {
        kept = record {
          play = k.play;
          depth = k.depth;
          saves = k.saves;
          time = k.time;
          status = k.status;
        };
        batched = λ h. absurd (omega (arith, ltb_false→le 0 w.depth e));
      })
]

pub output_text-Drawn :
    (row col : ℤ) (color : ℕ) (text : List ℕ) (grade : ℕ) (w : World)
    → Drawn w
        (output_text row col color text (pos grade) w).0
        (output_text row col color text (pos grade) w).1
unfolding output_text
output_text-Drawn row col color text grade w =
    rw (le→ltb (grade + 0) 0 (omega arith)) (output-Drawn w _)

pub Drawn-refl : (w : World) → Drawn w true w
Drawn-refl w = record {
  kept = Kept-refl w;
  batched = λ _. (refl, w.sendbuf, w.pendingoutput, refl);
}

pub Drawn-trans : {w w' w'' : World} {b : Bool} → Drawn w true w' → Drawn w' b w'' → Drawn w b w''
Drawn-trans {w} {w'} {w''} {b} d e = record {
  kept = ground (arith, d.kept, e.kept);
  batched = λ h. go (d.batched h) (e.batched (omega (arith, d.kept.depth)));
}
  where
    go :
        (true ≡ true) × (s : List ℕ) × (p : Bool) × (w' ≡ set_output w s p)
        → (b ≡ true) × (s : List ℕ) × (p : Bool) × (w'' ≡ set_output w' s p)
        → (b ≡ true) × (s : List ℕ) × (p : Bool) × (w'' ≡ set_output w s p)
    go (_, s, p, e1) (t, s', p', e2) = (t, s', p', e2 ∙ ap (λ v. set_output v s' p') e1)
