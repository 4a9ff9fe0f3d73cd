-- ===== src/Output/Delivered.antt =====
-- What `flushUserOutput` delivers.
use russia_tetris.Base.{
  ℕ, zero, suc, ◌+◌, ◌≡◌, refl, sym, ap, ◌∙◌, inl, inr, List, [], ◌∷◌, ◌++◌, Bool, true, false, not,
  ltb, ◌==◌, length, take, drop, take-append-drop, Bool-cases, arith,
}
use russia_tetris.Status.{over_quit}
use russia_tetris.World.{World, Reply, accepts, interrupted, would_block, broken}
use russia_tetris.Output.{
  Sent, send_loop, after_send, flush_user_output, remaining, max_send_buffer,
}

drop_nil : {A : Type 0} (k : ℕ) → drop {A = A} k [] ≡ []
drop_nil zero = refl
drop_nil (suc k) = refl

drop-drop : {A : Type 0} (k n : ℕ) (xs : List A) → drop k (drop n xs) ≡ drop (n + k) xs
drop-drop k zero xs = let e : 0 + k ≡ k = omega arith in rw e refl
drop-drop k (suc n) [] = let e : suc n + k ≡ suc (n + k) = omega arith in rw e (drop_nil k)
drop-drop k (suc n) (x ∷ xs) =
    let e : suc n + k ≡ suc (n + k) = omega arith in rw e (drop-drop k n xs)

append_assoc : {A : Type 0} (a b c : List A) → (a ++ b) ++ c ≡ a ++ (b ++ c)
append_assoc [] b c = refl
append_assoc (x ∷ a) b c = rw (append_assoc a b c)

-- What was sent before and what is left of the buffer, together.
abbrev pub whole : Sent → List ℕ → List ℕ
whole s buffer = s.taken ++ drop s.count buffer

send_loop-whole :
    (rs : List Reply) (sent : ℕ) (buffer out : List ℕ)
    → whole (send_loop rs sent buffer out) buffer ≡ out ++ drop sent buffer
unfolding send_loop
send_loop-whole [] sent buffer out = refl
send_loop-whole (accepts n ∷ rs) sent buffer out =
    let k = remaining n (length (drop sent buffer)) in
    elim (Bool-cases (ltb sent (length buffer))) [
      | inr e ↦ rw (e, send_loop) refl
      | inl e ↦ elim (Bool-cases (k == 0)) [
        | inl z ↦ rw (e, z, send_loop) refl
        | inr p ↦
            rw (e, p, send_loop)
              (send_loop-whole rs (sent + k) buffer (out ++ take k (drop sent buffer))
                ∙ append_assoc out (take k (drop sent buffer)) (drop (sent + k) buffer)
                ∙ ap (λ (t : List ℕ). out ++ t)
                    (ap (λ (t : List ℕ). take k (drop sent buffer) ++ t)
                        (sym (drop-drop k sent buffer))
                      ∙ take-append-drop k (drop sent buffer)))
      ]
    ]
send_loop-whole (interrupted ∷ rs) sent buffer out = elim (Bool-cases (ltb sent (length buffer))) [
  | inl e ↦ rw (e, send_loop) (send_loop-whole rs sent buffer out)
  | inr e ↦ rw (e, send_loop) refl
]
send_loop-whole (would_block ∷ rs) sent buffer out = elim (Bool-cases (ltb sent (length buffer))) [
  | inl e ↦ rw (e, send_loop) refl
  | inr e ↦ rw (e, send_loop) refl
]
send_loop-whole (broken ∷ rs) sent buffer out = elim (Bool-cases (ltb sent (length buffer))) [
  | inl e ↦ rw (e, send_loop) refl
  | inr e ↦ rw (e, send_loop) refl
]

-- How a flush ends.
pub data Flushed (w : World) : Bool × World → Type 0 where
  still_open :
      {w' : World}
      → w'.delivered ++ w'.sendbuf ≡ w.delivered ++ w.sendbuf
      → w'.pendingoutput ≡ not (length w'.sendbuf == 0)
      → w'.status ≡ w.status
      → w'.closed ≡ w.closed
      → Flushed w (true, w')
  dropped :
      {w' : World} (lost : List ℕ)
      → w'.delivered ++ lost ≡ w.delivered ++ w.sendbuf
      → w'.sendbuf ≡ []
      → w'.pendingoutput ≡ false
      → w'.status ≡ over_quit
      → w'.closed ≡ w.fd ∷ w.closed
      → Flushed w (false, w')

after_send-Flushed :
    (w : World) (s : Sent) → whole s w.sendbuf ≡ w.sendbuf → Flushed w (after_send w s)
unfolding after_send
after_send-Flushed w s eq =
    let moved : (w.delivered ++ s.taken) ++ drop s.count w.sendbuf ≡ w.delivered ++ w.sendbuf =
      append_assoc w.delivered s.taken (drop s.count w.sendbuf)
      ∙ ap (λ (t : List ℕ). w.delivered ++ t) eq in
    elim (Bool-cases s.failed) [
      | inl f ↦ rw (f, after_send) (dropped (drop s.count w.sendbuf) moved refl refl refl refl)
      | inr f ↦ rw (f, after_send) (still_open moved refl refl refl)
    ]

-- A flush loses and repeats no byte: when it succeeds, what the kernel has taken and what is left in
-- the buffer are, in their order, what was taken and buffered before, output is pending exactly when
-- something is left, and the connection is open as before. When it fails, the connection has ended:
-- the buffer is empty, the state is `over_quit`, the descriptor is closed, and what was delivered
-- goes on from what was delivered before, by a first part of the buffer.
pub flush_user_output-Flushed : (w : World) → Flushed w (flush_user_output w)
unfolding flush_user_output
flush_user_output-Flushed w = elim (Bool-cases (length w.sendbuf == 0)) [
  | inl empty ↦ rw (empty, flush_user_output) (still_open refl (rw empty refl) refl refl)
  | inr some_left ↦ elim (Bool-cases (ltb max_send_buffer (length w.sendbuf))) [
    | inl too_long ↦
        rw (some_left, too_long, flush_user_output) (dropped w.sendbuf refl refl refl refl refl)
    | inr fits ↦
        rw (some_left, fits, flush_user_output)
          (after_send-Flushed w (send_loop w.replies 0 w.sendbuf [])
            (send_loop-whole w.replies 0 w.sendbuf []))
  ]
]
