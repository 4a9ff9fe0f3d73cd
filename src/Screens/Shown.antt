-- ===== src/Screens/Shown.antt =====
-- What showing a screen leaves as it is, whatever the socket does.
use russia_tetris.Base.{
  ℕ, ◌≡◌, refl, ◌∙◌, inl, inr, pos, List, [], ◌∷◌, Bool, true, false, ltb, arith, Bool-cases,
}
use russia_tetris.World.{World}
use russia_tetris.Output.{
  Sent, output, output_text, flush_user_output, enqueue, send_loop, after_send,
}
use russia_tetris.Output.Effect.{Drawn, output-Drawn, output_text-Drawn, Drawn-refl, Drawn-trans}
use russia_tetris.Game.Start.{clear_screen}
use russia_tetris.Screens.{Item, wipe, line, print, render}

-- Who the connection is.
pub record SameUser (w w' : World) : Type 0 where
  pub username : w'.username ≡ w.username
  pub password : w'.password ≡ w.password
  pub peer_ip : w'.peer_ip ≡ w.peer_ip
  pub receivedata : w'.receivedata ≡ w.receivedata

SameUser-refl : (w : World) → SameUser w w
SameUser-refl w = record { username = refl; password = refl; peer_ip = refl; receivedata = refl }

SameUser-trans : {w w' w'' : World} → SameUser w w' → SameUser w' w'' → SameUser w w''
SameUser-trans a b = record {
  username = b.username ∙ a.username;
  password = b.password ∙ a.password;
  peer_ip = b.peer_ip ∙ a.peer_ip;
  receivedata = b.receivedata ∙ a.receivedata;
}

after_send-SameUser : (w : World) (s : Sent) → SameUser w (after_send w s).1
unfolding after_send
after_send-SameUser w s = ground arith

flush-SameUser : (w : World) → SameUser w (flush_user_output w).1
unfolding flush_user_output
flush-SameUser w = ground (arith, after_send-SameUser w (send_loop w.replies 0 w.sendbuf []))

output-SameUser : (w : World) (s : List ℕ) → SameUser w (output w s).1
unfolding output
output-SameUser w s = elim (Bool-cases (ltb 0 w.depth)) [
  | inl e ↦ rw e (record { username = refl; password = refl; peer_ip = refl; receivedata = refl })
  | inr e ↦
      let k = flush-SameUser (enqueue w s) in
      rw e (record {
        username = k.username;
        password = k.password;
        peer_ip = k.peer_ip;
        receivedata = k.receivedata;
      })
]

output_text-SameUser :
    (row col : ℕ) (text : List ℕ) (w : World)
    → SameUser w (output_text (pos row) (pos col) 37 text (pos 0) w).1
unfolding output_text
output_text-SameUser row col text w = output-SameUser w _

-- The outcome of a screen.
pub record Shown (w : World) (r : Bool × World) : Type 0 where
  pub drawn : Drawn w r.0 r.1
  pub same : SameUser w r.1

print-Shown : (item : Item) (w : World) → Shown w (print item w)
unfolding print
print-Shown wipe w = record {
  drawn = output-Drawn w clear_screen;
  same = output-SameUser w clear_screen;
}
print-Shown (line row col text) w = record {
  drawn = output_text-Drawn (pos row) (pos col) 37 text 0 w;
  same = output_text-SameUser row col text w;
}

then_Shown :
    (rest : List Item) (w : World) (r : Bool × World)
    → Shown w r
    → ((w' : World) → Shown w' (render rest w'))
    → Shown w (elim r.0 [ true ↦ render rest r.1 | false ↦ (false, r.1) ])
then_Shown rest w (true, w') s next =
    let t = next w' in
    record { drawn = Drawn-trans s.drawn t.drawn; same = SameUser-trans s.same t.same }
then_Shown rest w (false, w') s next = s

pub render-Shown : (items : List Item) (w : World) → Shown w (render items w)
unfolding render
render-Shown [] w = record { drawn = Drawn-refl w; same = SameUser-refl w }
render-Shown (item ∷ rest) w =
    then_Shown rest w (print item w) (print-Shown item w) (λ w'. render-Shown rest w')
