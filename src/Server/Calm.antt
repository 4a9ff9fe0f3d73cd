-- ===== src/Server/Calm.antt =====
-- Handlers that read a line and show screens leave the rest of the server alone.
use russia_tetris.Base.{
  ℕ, ◌≡◌, refl, ◌∙◌, ◌⊎◌, inl, inr, List, [], ◌++◌, Bool, true, false, Option, none, some, ◌==◌,
  length, if◌then◌else◌, Option-cases, Bool-cases,
}
use russia_tetris.Status.{Status, over_quit}
use russia_tetris.Game.Play.{c_string}
use russia_tetris.Screens.{Item}
use russia_tetris.Screens.Shown.{render-Shown}
use russia_tetris.Server.{
  Host, Incoming, no_data, recv_error, disconnected, bytes, Act, ◌>>=◌, ◌>>◌, return,
  set_receivedata, show,
}
use russia_tetris.Server.Line.{receive_data, receive_entry, take_line, before_end}

-- The same name, password, address, limiters and tasks; the state is the same, or the connection has
-- ended.
pub record Calm (h h' : Host) : Type 0 where
  pub username : h'.username ≡ h.username
  pub password : h'.password ≡ h.password
  pub peer_ip : h'.peer_ip ≡ h.peer_ip
  pub tasks : h'.write_queue ≡ h.write_queue
  pub auth : h'.auth ≡ h.auth
  pub ip : h'.ip ≡ h.ip
  pub reg : h'.reg ≡ h.reg
  pub status : (h'.status ≡ h.status) ⊎ (h'.status ≡ over_quit)

pub Calm-refl : (h : Host) → Calm h h
Calm-refl h = record {
  username = refl;
  password = refl;
  peer_ip = refl;
  tasks = refl;
  auth = refl;
  ip = refl;
  reg = refl;
  status = inl refl;
}

pub status_before :
    {s s' s'' : Status}
    → (s' ≡ s) ⊎ (s' ≡ over_quit)
    → (s'' ≡ s') ⊎ (s'' ≡ over_quit)
    → (s'' ≡ s) ⊎ (s'' ≡ over_quit)
status_before (inl p) (inl q) = inl (q ∙ p)
status_before (inr p) (inl q) = inr (q ∙ p)
status_before p (inr q) = inr q

pub Calm-trans : {h h' h'' : Host} → Calm h h' → Calm h' h'' → Calm h h''
Calm-trans a b = record {
  username = b.username ∙ a.username;
  password = b.password ∙ a.password;
  peer_ip = b.peer_ip ∙ a.peer_ip;
  tasks = b.tasks ∙ a.tasks;
  auth = b.auth ∙ a.auth;
  ip = b.ip ∙ a.ip;
  reg = b.reg ∙ a.reg;
  status = status_before a.status b.status;
}

pub show-Calm : (items : List Item) (h : Host) → Calm h (show items h).1
unfolding show
show-Calm items h =
    let s = render-Shown items h.world in
    record {
      username = s.same.username;
      password = s.same.password;
      peer_ip = s.same.peer_ip;
      tasks = s.drawn.kept.saves;
      auth = refl;
      ip = refl;
      reg = refl;
      status = s.drawn.kept.status;
    }

pub set_receivedata-Calm : (d : List ℕ) (h : Host) → Calm h (set_receivedata d h).1
set_receivedata-Calm d h = record {
  username = refl;
  password = refl;
  peer_ip = refl;
  tasks = refl;
  auth = refl;
  ip = refl;
  reg = refl;
  status = inl refl;
}

module _ {A B : Type 0} where
  bind_result :
      (f : A → Act B) (h : Host) (r : Option A × Host)
      → Calm h r.1
      → ((a : A) (h' : Host) → Calm h' (f a h').1)
      → Calm h (elim r.0 as (λ _. Option B × Host) [ none ↦ (none, r.1) | some a ↦ f a r.1 ]).1
  bind_result f h (none, h') c next = c
  bind_result f h (some a, h') c next = Calm-trans c (next a h')

  pub >>=-Calm :
      (m : Act A) (f : A → Act B) (h : Host)
      → Calm h (m h).1
      → ((a : A) (h' : Host) → Calm h' (f a h').1)
      → Calm h ((m >>= f) h).1
  >>=-Calm m f h c next = bind_result f h (m h) c next

pub receive_data-Calm : (i : Incoming) (h : Host) → Calm h (receive_data i h).1
unfolding receive_data
receive_data-Calm no_data h = Calm-refl h
receive_data-Calm recv_error h = record {
  username = refl;
  password = refl;
  peer_ip = refl;
  tasks = refl;
  auth = refl;
  ip = refl;
  reg = refl;
  status = inr refl;
}
receive_data-Calm disconnected h = record {
  username = refl;
  password = refl;
  peer_ip = refl;
  tasks = refl;
  auth = refl;
  ip = refl;
  reg = refl;
  status = inr refl;
}
receive_data-Calm (bytes buffer) h =
    elim (Option-cases (before_end (h.receivedata ++ c_string buffer))) [
      | inl e ↦ rw (e, receive_data) (set_receivedata-Calm (h.receivedata ++ c_string buffer) h)
      | inr (text, e) ↦ rw (e, receive_data) (set_receivedata-Calm text h)
    ]

take_line-Calm : (error : List Item) (h : Host) → Calm h (take_line error h).1
unfolding take_line
take_line-Calm error h = elim (Bool-cases (length h.receivedata == 0)) [
  | inl e ↦ rw e (>>=-Calm (show error) (λ _. return []) h (show-Calm error h) λ _ h'. Calm-refl h')
  | inr e ↦ rw e (set_receivedata-Calm [] h)
]

pub if-Calm :
    {A : Type 0} (b : Bool) (m k : Act A) (h : Host)
    → Calm h (m h).1
    → Calm h (k h).1
    → Calm h ((if b then m else k) h).1
if-Calm true m k h c d = c
if-Calm false m k h c d = d

pub receive_entry-Calm :
    (i : Incoming) (error : List Item) (h : Host) → Calm h (receive_entry i error h).1
unfolding receive_entry
receive_entry-Calm i error h =
    >>=-Calm (receive_data i) (λ temp. if temp == 1 then take_line error else return []) h
      (receive_data-Calm i h)
      (λ temp h'.
        if-Calm (temp == 1) (take_line error) (return []) h' (take_line-Calm error h')
          (Calm-refl h'))

pub clear_show-Calm :
    (items : List Item) (a : ℕ) (h : Host)
    → Calm h ((set_receivedata [] >> show items >> return a) h).1
clear_show-Calm items a h =
    >>=-Calm (set_receivedata [] >> show items) (λ _. return a) h
      (Calm-trans (set_receivedata-Calm [] h) (show-Calm items (set_receivedata [] h).1))
      (λ _ h'. Calm-refl h')
