-- ===== src/Server/Dispatch/Sessions.antt =====
-- A connection over many events: how it gets to be logged in.
use russia_tetris.Base.{refl, ◌∙◌, sym, some, false, ℕ, ◌≡◌, ◌⊎◌, inl, inr, List, [], ◌∷◌}
use russia_tetris.Status.{
  Status, notstart, over_quit, receive_username_register, receive_password_register,
  receive_username_load, receive_password_load, register_or_load_over, verifying_password,
}
use russia_tetris.Server.{Host, Limits, Event}
use russia_tetris.Filedata.{LoginResult, PasswordChangeResult}
use russia_tetris.Server.Callbacks.{login_returned, change_returned}
use russia_tetris.Server.Callbacks.Returned.{LoginReturned, login_returned-Counts}
use russia_tetris.Server.Dispatch.{handle_client_data}
use russia_tetris.Server.Dispatch.Edges.{
  Edge, to_register, to_load, name_chosen, account_made, name_given, password_given, go_back,
}
use russia_tetris.Server.Dispatch.Handled.{is_game, handle_client_data-Leads}
use russia_tetris.Server.Games.{Table, Draws}

-- What happens to a connection.
pub data Label : Type 0 where
  input : Label
  login_answer : LoginResult → Label
  change_answer : PasswordChangeResult → Label

-- One step, in the server with the limits `l`. An answer has the name and the address that its task
-- was given, which need not be those of the connection now.
pub data Step (l : Limits) : Host → Label → Host → Type 0 where
  on_input :
      {h h' : Host} (e : Event) (t : Table) (d : Draws)
      → handle_client_data l e t d h ≡ some h'
      → Step l h input h'
  on_login :
      {h : Host} (now : ℕ) (username : List ℕ) (peer_ip : ℕ) (r : LoginResult)
      → Step l h (login_answer r) (login_returned l now username peer_ip r h)
  on_change :
      {h : Host} (now : ℕ) (username : List ℕ) (peer_ip : ℕ) (r : PasswordChangeResult)
      → Step l h (change_answer r) (change_returned l now username peer_ip r h)

pub data Run (l : Limits) (h : Host) : List Label → Host → Type 0 where
  start : Run l h [] h
  then_step :
      {labels : List Label} {label : Label} {h' h'' : Host}
      → Run l h labels h'
      → Step l h' label h''
      → Run l h (label ∷ labels) h''

-- The states of a connection that no one has logged in on.
pub data Anonymous : Status → Type 0 where
  at_start : Anonymous notstart
  naming : Anonymous receive_username_register
  choosing : Anonymous receive_password_register
  at_end : Anonymous register_or_load_over
  identifying : Anonymous receive_username_load
  proving : Anonymous receive_password_load
  waiting : Anonymous verifying_password
  gone : Anonymous over_quit

-- An answer that logs in: right credentials, or any to a change of the password.
pub data Granted : List Label → Type 0 where
  logged_in : {ls : List Label} → Granted (login_answer LoginResult.ok ∷ ls)
  changed : {ls : List Label} {r : PasswordChangeResult} → Granted (change_answer r ∷ ls)
  before : {label : Label} {ls : List Label} → Granted ls → Granted (label ∷ ls)

Edge-Anonymous : {s s' : Status} → Edge s s' → Anonymous s → Anonymous s'
Edge-Anonymous to_register a = naming
Edge-Anonymous to_load a = identifying
Edge-Anonymous name_chosen a = choosing
Edge-Anonymous account_made a = at_end
Edge-Anonymous name_given a = proving
Edge-Anonymous password_given a = waiting
Edge-Anonymous go_back a = at_start
Edge-Anonymous Edge.to_scores a = elim a [ ]
Edge-Anonymous Edge.to_game a = elim a [ ]
Edge-Anonymous Edge.to_start a = elim a [ ]
Edge-Anonymous Edge.to_change a = elim a [ ]
Edge-Anonymous Edge.to_menu a = elim a [ ]
Edge-Anonymous Edge.old_given a = elim a [ ]
Edge-Anonymous Edge.new_given a = elim a [ ]
Edge-Anonymous Edge.change_refused a = elim a [ ]

Anonymous-menu : {s : Status} → Anonymous s → is_game s ≡ false
unfolding is_game
Anonymous-menu at_start = refl
Anonymous-menu naming = refl
Anonymous-menu choosing = refl
Anonymous-menu at_end = refl
Anonymous-menu identifying = refl
Anonymous-menu proving = refl
Anonymous-menu waiting = refl
Anonymous-menu gone = refl

is_at : {s s' : Status} → s ≡ s' → Anonymous s' → Anonymous s
is_at e a = rw e a

moves_on : {s s' : Status} → ((s' ≡ s) ⊎ (s' ≡ over_quit)) ⊎ Edge s s' → Anonymous s → Anonymous s'
moves_on (inl (inl e)) a = is_at e a
moves_on (inl (inr e)) a = is_at e gone
moves_on (inr e) a = Edge-Anonymous e a

module _ (l : Limits) where
  after_login :
      {now peer_ip : ℕ} {username : List ℕ} {r : LoginResult} {h h' : Host} {ls : List Label}
      → LoginReturned l now username peer_ip h r h'
      → Anonymous h.status
      → Anonymous h'.status ⊎ Granted (login_answer r ∷ ls)
  after_login (LoginReturned.late n) a = inl a
  after_login (LoginReturned.was_busy v u (inl e)) a = inl (is_at e proving)
  after_login (LoginReturned.was_busy v u (inr e)) a = inl (is_at e gone)
  after_login (LoginReturned.was_wrong v f e) a = inl (is_at e at_end)
  after_login (LoginReturned.was_right v c e) a = inr logged_in

  Step-Anonymous :
      {h h' : Host} {label : Label} {ls : List Label}
      → Step l h label h'
      → Anonymous h.status
      → Anonymous h'.status ⊎ Granted (label ∷ ls)
  Step-Anonymous {h} {h'} (on_input e t d eq) a =
      let (h2, same, leads) = handle_client_data-Leads l e t d h (Anonymous-menu a) in
      let both : some h2 ≡ some h' = sym same ∙ eq in
      let e2 : h2 ≡ h' = cc in inl (moves_on (rw (← e2) leads) a)
  Step-Anonymous {h} (on_login now username peer_ip r) a =
      after_login (login_returned-Counts l now username peer_ip r h) a
  Step-Anonymous (on_change now username peer_ip r) a = inr changed

  -- A connection that no one is logged in on stays so, over any events, unless a task answers that
  -- the credentials were right, or answers to a change of a password. The answer may be to a task of
  -- an earlier connection: only the state is looked at.
  pub login_needs_answer :
      {h h' : Host} {labels : List Label}
      → Run l h labels h'
      → Anonymous h.status
      → Anonymous h'.status ⊎ Granted labels
  login_needs_answer start a = inl a
  login_needs_answer (then_step run step) a = elim (login_needs_answer run a) [
    | inl still ↦ Step-Anonymous step still
    | inr granted ↦ inr (before granted)
  ]
