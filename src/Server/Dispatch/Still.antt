-- ===== src/Server/Dispatch/Still.antt =====
-- How a handler changes the state of its connection, put together from its steps.
use russia_tetris.Base.{
  ℕ, ◌≡◌, refl, ◌⊎◌, inl, inr, List, Bool, true, false, Option, none, some, if◌then◌else◌, [], ◌∷◌,
  ◌==◌, length,
}
use russia_tetris.Status.{Status, over_quit}
use russia_tetris.World.{WriteTask}
use russia_tetris.Screens.{Item}
use russia_tetris.Server.{
  Host, Incoming, Act, ◌>>=◌, ◌>>◌, return, set_receivedata, push_task, show,
}
use russia_tetris.Server.Line.{receive_data, receive_entry, typed}
use russia_tetris.Server.Forms.{enter, enter_by, choose, if_entered}
use russia_tetris.Server.Calm.{status_before, show-Calm, receive_data-Calm, receive_entry-Calm}

-- The state is the same, or the connection has ended.
abbrev pub Still : Host → Host → Type 0
Still h h' = (h'.status ≡ h.status) ⊎ (h'.status ≡ over_quit)

-- The same, or a state of `T`.
abbrev pub Leads : (Status → Type 0) → Host → Host → Type 0
Leads T h h' = Still h h' ⊎ T h'.status

module _ (T : Status → Type 0) where
  pub join :
      {s s' s'' : Status}
      → (s' ≡ s) ⊎ (s' ≡ over_quit)
      → ((s'' ≡ s') ⊎ (s'' ≡ over_quit)) ⊎ T s''
      → ((s'' ≡ s) ⊎ (s'' ≡ over_quit)) ⊎ T s''
  join s (inl t) = inl (status_before s t)
  join s (inr t) = inr t

  pub extend :
      {s s' s'' : Status}
      → ((s' ≡ s) ⊎ (s' ≡ over_quit)) ⊎ T s'
      → (s'' ≡ s') ⊎ (s'' ≡ over_quit)
      → ((s'' ≡ s) ⊎ (s'' ≡ over_quit)) ⊎ T s''
  extend (inl s) t = inl (status_before s t)
  extend (inr s) (inl t) = inr (rw t s)
  extend (inr s) (inr t) = inl (inr t)

  module _ {A B : Type 0} where
    bind_keeps :
        (f : A → Act B) (h : Host) (r : Option A × Host)
        → Still h r.1
        → ((a : A) (h' : Host) → Leads T h' (f a h').1)
        → Leads T h (elim r.0 as (λ _. Option B × Host) [ none ↦ (none, r.1) | some a ↦ f a r.1 ]).1
    bind_keeps f h (none, h') s next = inl s
    bind_keeps f h (some a, h') s next = join s (next a h')

    -- A step that keeps the state, then one that may move.
    pub then_moves :
        (m : Act A) (f : A → Act B) (h : Host)
        → Still h (m h).1
        → ((a : A) (h' : Host) → Leads T h' (f a h').1)
        → Leads T h ((m >>= f) h).1
    then_moves m f h s next = bind_keeps f h (m h) s next

  both :
      {s s' s'' : Status}
      → ((s' ≡ s) ⊎ (s' ≡ over_quit)) ⊎ T s'
      → ((s'' ≡ s') ⊎ (s'' ≡ over_quit)) ⊎ T s''
      → ((s'' ≡ s) ⊎ (s'' ≡ over_quit)) ⊎ T s''
  both a (inl t) = extend a t
  both a (inr t) = inr t

  both_result :
      {A B : Type 0} (f : A → Act B) (h : Host) (r : Option A × Host)
      → Leads T h r.1
      → ((a : A) (h' : Host) → Leads T h' (f a h').1)
      → Leads T h (elim r.0 as (λ _. Option B × Host) [ none ↦ (none, r.1) | some a ↦ f a r.1 ]).1
  both_result f h (none, h') s next = s
  both_result f h (some a, h') s next = both s (next a h')

  pub moves_twice :
      {A B : Type 0} (m : Act A) (f : A → Act B) (h : Host)
      → Leads T h (m h).1
      → ((a : A) (h' : Host) → Leads T h' (f a h').1)
      → Leads T h ((m >>= f) h).1
  moves_twice m f h s next = both_result f h (m h) s next

  pub if-Leads :
      {A : Type 0} (b : Bool) (m k : Act A) (h : Host)
      → Leads T h (m h).1
      → Leads T h (k h).1
      → Leads T h ((if b then m else k) h).1
  if-Leads true m k h c d = c
  if-Leads false m k h c d = d

  -- Every state that the list gives is in `T`.
  pub data AllIn : List (ℕ × Status) → Type 0 where
    no_more : AllIn []
    one_more : {p : ℕ × Status} {ps : List (ℕ × Status)} → T p.1 → AllIn ps → AllIn (p ∷ ps)

  pub enter_by-Leads :
      (table : List (ℕ × Status)) (key : ℕ) (h : Host)
      → AllIn table
      → Leads T h (enter_by table key h).1
  unfolding enter_by
  enter_by-Leads [] key h all = inl (inl refl)
  enter_by-Leads ((code, s) ∷ rest) key h (one_more t all) =
      if-Leads (key == code) (enter s) (enter_by rest key) h (inr t) (enter_by-Leads rest key h all)

  -- A step that keeps the state, then the table.
  pub then_enter :
      (m : Act ℕ) (table : List (ℕ × Status)) (h : Host)
      → Still h (m h).1
      → AllIn table
      → Leads T h ((m >>= enter_by table) h).1
  then_enter m table h s all =
      then_moves m (enter_by table) h s λ key h'. enter_by-Leads table key h' all

-- No move.
abbrev NoMove : Status → Type 0
NoMove s = ⊥

only : {s s' : Status} → ((s' ≡ s) ⊎ (s' ≡ over_quit)) ⊎ ⊥ → (s' ≡ s) ⊎ (s' ≡ over_quit)
only (inl s) = s
only (inr e) = absurd e

pub both_keep :
    {A B : Type 0} (m : Act A) (f : A → Act B) (h : Host)
    → Still h (m h).1
    → ((a : A) (h' : Host) → Still h' (f a h').1)
    → Still h ((m >>= f) h).1
both_keep m f h s next = only (then_moves NoMove m f h s λ a h'. inl (next a h'))

pub if-Still :
    {A : Type 0} (b : Bool) (m k : Act A) (h : Host)
    → Still h (m h).1
    → Still h (k h).1
    → Still h ((if b then m else k) h).1
if-Still b m k h c d = only (if-Leads NoMove b m k h (inl c) (inl d))

pub show-return-Still :
    {A : Type 0} (items : List Item) (a : A) (h : Host) → Still h ((show items >> return a) h).1
show-return-Still items a h =
    both_keep (show items) (λ _. return a) h (show-Calm items h).status λ _ h'. inl refl

pub show_clear-Still :
    (items : List Item) (a : ℕ) (h : Host)
    → Still h ((show items >> set_receivedata [] >> return a) h).1
show_clear-Still items a h =
    both_keep (show items >> set_receivedata []) (λ _. return a) h
      (both_keep (show items) (λ _. set_receivedata []) h (show-Calm items h).status
        λ _ h'. inl refl)
      λ _ h'. inl refl

pub show_push-Still :
    (items : List Item) (task : WriteTask) (a : ℕ) (h : Host)
    → Still h ((show items >> push_task task >> return a) h).1
show_push-Still items task a h =
    both_keep (show items >> push_task task) (λ _. return a) h
      (both_keep (show items) (λ _. push_task task) h (show-Calm items h).status λ _ h'. inl refl)
      λ _ h'. inl refl

-- A line is read, and then `m` runs or nothing does.
pub on_line-Still :
    (i : Incoming) (m : Act ℕ) (n : ℕ) (h : Host)
    → ((h' : Host) → Still h' (m h').1)
    → Still h ((receive_data i >>= λ temp. if temp == 1 then m else return n) h).1
on_line-Still i m n h s =
    both_keep (receive_data i) (λ temp. if temp == 1 then m else return n) h
      (receive_data-Calm i h).status
      (λ temp h'. if-Still (temp == 1) m (return n) h' (s h') (inl refl))

pub on_entry-Still :
    (i : Incoming) (error : List Item) (rest : List ℕ → Act ℕ) (h : Host)
    → ((entry : List ℕ) (h' : Host) → Still h' (rest entry h').1)
    → Still h ((receive_entry i error >>= if_entered rest) h).1
on_entry-Still i error rest h s =
    both_keep (receive_entry i error) (if_entered rest) h (receive_entry-Calm i error h).status
      (λ entry h'. if-Still (length entry == 0) (return 2) (rest entry) h' (inl refl) (s entry h'))

pub on_entry-Leads :
    (T : Status → Type 0) (i : Incoming) (error : List Item) (rest : List ℕ → Act ℕ) (h : Host)
    → ((entry : List ℕ) (h' : Host) → Leads T h' (rest entry h').1)
    → Leads T h ((receive_entry i error >>= if_entered rest) h).1
on_entry-Leads T i error rest h s =
    then_moves T (receive_entry i error) (if_entered rest) h (receive_entry-Calm i error h).status
      (λ entry h'.
        if-Leads T (length entry == 0) (return 2) (rest entry) h' (inl (inl refl)) (s entry h'))

-- Every handler of the list keeps the state.
pub data AllStill : List (ℕ × Act ℕ) → Type 0 where
  no_more : AllStill []
  one_more :
      {p : ℕ × Act ℕ} {ps : List (ℕ × Act ℕ)}
      → ((h : Host) → Still h (p.1 h).1)
      → AllStill ps
      → AllStill (p ∷ ps)

pub choose-Still :
    (table : List (ℕ × Act ℕ)) (other : Act ℕ) (h : Host)
    → AllStill table
    → Still h (other h).1
    → Still h (choose table other h).1
unfolding choose
choose-Still [] other h all s = s
choose-Still ((digit, chosen) ∷ rest) other h (one_more t all) s =
    elim (typed digit h)
      as (λ b.
        Still h
          (elim b as (λ _. Option ℕ × Host) [ true ↦ chosen h | false ↦ choose rest other h ]).1) [
            | true ↦ t h
            | false ↦ choose-Still rest other h all s
          ]
