-- ===== src/Server/Dispatch/Handled.antt =====
-- The moves of a whole event.
use russia_tetris.Base.{
  some, ℕ, ◌+◌, ◌≡◌, refl, ◌⊎◌, inl, inr, List, [], ◌∷◌, ◌++◌, Bool, true, false, ◌==◌,
  if◌then◌else◌, Option, ltb, same_text, ◌-◌, pos, arith, Bool-cases,
}
use russia_tetris.Status.{
  Status, notstart, playing, over_confirming, over_quit, login, login_over,
  receive_username_register, receive_password_register, receive_username_load,
  receive_password_load, register_or_load_over, select_game_difficulty, verifying_password,
  change_password_old, change_password_new,
}
use russia_tetris.World.{World}
use russia_tetris.Output.{open_batch, close_batch, quits}
use russia_tetris.Output.Effect.{flush-Kept}
use russia_tetris.Output.Decimal.{to_string}
use russia_tetris.Password
use russia_tetris.Screens.{line, menu_col, middle}
use russia_tetris.Screens.Shown.{render-Shown}
use russia_tetris.Screens.Notices.{logging_in, changing, change_too_often}
use russia_tetris.Screens.Texts.{seconds_retry}
use russia_tetris.Screens.Menus.{
  show_password_empty_error, show_password_too_short_error, show_password_unchanged_error,
  show_change_password_error,
}
use russia_tetris.Server.{
  Host, Limits, Event, Act, ◌>>=◌, ◌>>◌, return, set_status, set_receivedata, set_password, show,
}
use russia_tetris.Server.Line.{receive_data}
use russia_tetris.Server.Calm.{receive_data-Calm, clear_show-Calm}
use russia_tetris.Server.Credentials.{
  register_password, enter_registration, load_password, note, note_by, change_by, ask_ip, ask_auth,
  retry_after_seconds, submit_change, try_change, try_new, changepassword_new,
  process_password_register, process_password_load, process_change_password_new,
}
use russia_tetris.Server.Credentials.Waits.{LoadTried, LoginTried, load_password-Tried}
use russia_tetris.Server.Credentials.Registers.{
  RegisterTried, RegistrationTried, register_password-Tried,
}
use russia_tetris.Server.Games.{Table, Draws}
use russia_tetris.Server.Dispatch.{drop_input, menu_of, dispatch, handle_client_data}
use russia_tetris.Server.Dispatch.Still.{
  Still, Leads, then_moves, then_enter, moves_twice, if-Leads, if-Still, both_keep, on_entry-Leads,
  no_more, one_more, extend,
}
use russia_tetris.Server.Dispatch.Edges.{
  Edge, account_made, password_given, new_given, change_refused, process_notstart-Leads,
  process_login-Leads, process_username_register-Leads, process_username_load-Leads,
  process_login_over-Leads, process_register_or_load_over-Leads, process_change_password_old-Leads,
}

note-Still : (text : List ℕ) (h : Host) → Still h (note text h).1
unfolding note
note-Still text h = (render-Shown (line (middle + 4) menu_col text ∷ []) h.world).drawn.kept.status

RegistrationTried-Still :
    (l : Limits) (e : Event) (h h' : Host) (p : List ℕ) → RegistrationTried l e h p h' → Still h h'
RegistrationTried-Still l e h h' p (RegistrationTried.refused f q r s) = s
RegistrationTried-Still l e h h' p (RegistrationTried.submitted a b q r s) = s

RegisterTried-Still : (l : Limits) (e : Event) (h h' : Host) → RegisterTried l e h h' → Still h h'
RegisterTried-Still l e h h' (RegisterTried.nothing_entered eq n c) = c.status
RegisterTried-Still l e h h' (RegisterTried.entered p n eq t) = RegistrationTried-Still l e h h' p t

not_loaded :
    (l : Limits) (e : Event) (h : Host)
    → e.players_loaded ≡ false
    → Still h (register_password l e h).1
unfolding register_password
not_loaded l e h missing = unloaded e.players_loaded (enter_registration l e) h missing
  where
    unloaded :
        (b : Bool) (m : Act ℕ) (h : Host) → b ≡ false → Still h ((if b then m else return 0) h).1
    unloaded true m h eq = cc
    unloaded false m h eq = inl refl

register_password-Still : (l : Limits) (e : Event) (h : Host) → Still h (register_password l e h).1
register_password-Still l e h = elim (Bool-cases e.players_loaded) [
  | inl loaded ↦
      RegisterTried-Still l e h (register_password l e h).1 (register_password-Tried l e h loaded)
  | inr missing ↦ not_loaded l e h missing
]

process_password_register-Leads :
    (l : Limits) (e : Event) (h : Host)
    → Leads (Edge receive_password_register) h (process_password_register l e h).1
unfolding process_password_register
process_password_register-Leads l e h =
    then_enter (Edge receive_password_register) (register_password l e)
      ((1, register_or_load_over) ∷ []) h (register_password-Still l e h)
      (one_more account_made no_more)

LoginTried-Leads :
    (l : Limits) (e : Event) (h h' : Host) (p : List ℕ)
    → LoginTried l e h p h'
    → Leads (Edge receive_password_load) h h'
LoginTried-Leads l e h h' p (LoginTried.refused f q s) = inl s
LoginTried-Leads l e h h' p (LoginTried.submitted a b q s) = inr (rw s password_given)

LoadTried-Leads :
    (l : Limits) (e : Event) (h h' : Host)
    → LoadTried l e h h'
    → Leads (Edge receive_password_load) h h'
LoadTried-Leads l e h h' (LoadTried.nothing_entered eq n c) = inl c.status
LoadTried-Leads l e h h' (LoadTried.entered p n eq t) = LoginTried-Leads l e h h' p t

process_password_load-Leads :
    (l : Limits) (e : Event) (h : Host)
    → Leads (Edge receive_password_load) h (process_password_load l e h).1
unfolding process_password_load
process_password_load-Leads l e h =
    moves_twice (Edge receive_password_load) (load_password l e) (note_by logging_in) h
      (LoadTried-Leads l e h (load_password l e h).1 (load_password-Tried l e h))
      (λ key h'.
        if-Leads (Edge receive_password_load) (key == 1) (note logging_in) (return tt) h'
          (inl (note-Still logging_in h')) (inl (inl refl)))

retry_after_seconds-Still :
    (l : Limits) (e : Event) (h : Host) → Still h (retry_after_seconds l e h).1
unfolding retry_after_seconds
retry_after_seconds-Still l e h =
    let name_part : Act ℕ = ask_auth l e >>= λ by_name.
    if by_name.throttled then return by_name.retry_after else return 0 in
    both_keep (ask_ip l e)
      (λ by_ip. if by_ip.throttled then return by_ip.retry_after else name_part) h (inl refl)
      (λ by_ip h'. if-Still by_ip.throttled (return by_ip.retry_after) name_part h' (inl refl) (
        both_keep (ask_auth l e)
          (λ by_name. if by_name.throttled then return by_name.retry_after else return 0) h'
          (inl refl)
          (λ by_name h''.
            if-Still by_name.throttled (return by_name.retry_after) (return 0) h'' (inl refl)
              (inl refl))))

try_change-Leads :
    (l : Limits) (e : Event) (p : List ℕ) (h : Host)
    → Leads (Edge change_password_new) h (try_change l e p h).1
unfolding try_change submit_change
try_change-Leads l e p h =
    let notice = λ (seconds : ℕ).
      show_change_password_error (change_too_often ++ to_string (pos seconds) ++ seconds_retry) in
    let wait : ℕ → Act ℕ =
      λ seconds. set_password [] >> set_receivedata [] >> show (notice seconds) >> return 3 in
    then_moves (Edge change_password_new) (retry_after_seconds l e)
      (λ seconds. if ltb 0 seconds then wait seconds else submit_change p) h
      (retry_after_seconds-Still l e h)
      (λ seconds h'.
        if-Leads (Edge change_password_new) (ltb 0 seconds) (wait seconds) (submit_change p) h'
          (inl (clear_show-Calm (notice seconds) 3 (set_password [] h').1).status) (inr new_given))

try_new-Leads :
    (l : Limits) (e : Event) (p : List ℕ) (h : Host)
    → Leads (Edge change_password_new) h (try_new l e p h).1
unfolding try_new
try_new-Leads l e p h = go (Password.check p) (same_text p h.password)
  where
    go :
        (good same : Bool)
        → Leads
            (Edge change_password_new)
            h
            (elim good as (λ _. Option ℕ × Host) [
              | false ↦
                  (set_receivedata []
                      >> show (show_password_too_short_error (middle + 2))
                      >> return 0)
                    h
              | true ↦ elim same as (λ _. Option ℕ × Host) [
                | true ↦ (set_receivedata [] >> show show_password_unchanged_error >> return 0) h
                | false ↦ try_change l e p h
              ]
            ]).1
    go false same = inl (clear_show-Calm (show_password_too_short_error (middle + 2)) 0 h).status
    go true true = inl (clear_show-Calm show_password_unchanged_error 0 h).status
    go true false = try_change-Leads l e p h

changepassword_new-Leads :
    (l : Limits) (e : Event) (h : Host)
    → Leads (Edge change_password_new) h (changepassword_new l e h).1
unfolding changepassword_new
changepassword_new-Leads l e h =
    on_entry-Leads (Edge change_password_new) e.incoming (show_password_empty_error (middle + 4))
      (try_new l e) h (try_new-Leads l e)

process_change_password_new-Leads :
    (l : Limits) (e : Event) (h : Host)
    → Leads (Edge change_password_new) h (process_change_password_new l e h).1
unfolding process_change_password_new
process_change_password_new-Leads l e h =
    let T = Edge change_password_new in
    let refused : ℕ → Act (Unit {0}) =
      λ key. if key == 3 then set_status login_over else return tt in
    moves_twice T (changepassword_new l e) change_by h (changepassword_new-Leads l e h) (λ key h'.
      if-Leads T (key == 1) (note changing) (refused key) h' (inl (note-Still changing h')) (
        if-Leads T (key == 3) (set_status login_over) (return tt) h' (inr change_refused)
          (inl (inl refl))))

drop_input-Still : (e : Event) (h : Host) → Still h (drop_input e h).1
unfolding drop_input
drop_input-Still e h =
    both_keep (receive_data e.incoming) (λ _. set_receivedata []) h
      (receive_data-Calm e.incoming h).status (λ _ h'. inl refl)

menu_of-Leads :
    (l : Limits) (e : Event) (s : Status) (h : Host) → Leads (Edge s) h (menu_of l e s h).1
unfolding menu_of
menu_of-Leads l e notstart h = process_notstart-Leads e h
menu_of-Leads l e receive_username_register h = process_username_register-Leads e h
menu_of-Leads l e receive_password_register h = process_password_register-Leads l e h
menu_of-Leads l e receive_username_load h = process_username_load-Leads e h
menu_of-Leads l e receive_password_load h = process_password_load-Leads l e h
menu_of-Leads l e verifying_password h = inl (drop_input-Still e h)
menu_of-Leads l e login h = process_login-Leads e h
menu_of-Leads l e login_over h = process_login_over-Leads e h
menu_of-Leads l e register_or_load_over h = process_register_or_load_over-Leads e h
menu_of-Leads l e change_password_old h = process_change_password_old-Leads e h
menu_of-Leads l e change_password_new h = process_change_password_new-Leads l e h
menu_of-Leads l e playing h = inl (inl refl)
menu_of-Leads l e over_confirming h = inl (inl refl)
menu_of-Leads l e over_quit h = inl (inl refl)
menu_of-Leads l e select_game_difficulty h = inl (inl refl)

close_batch-status :
    (w : World) → ((close_batch w).status ≡ w.status) ⊎ ((close_batch w).status ≡ over_quit)
unfolding close_batch quits
close_batch-status w = ground (arith, (flush-Kept (record w { depth = w.depth - 1 })).status)

-- The states that `Game` handles.
unfoldable pub is_game : Status → Bool
is_game playing = true
is_game over_confirming = true
is_game select_game_difficulty = true
is_game _ = false

module _ (l : Limits) (e : Event) (t : Table) (d : Draws) where
  dispatch-menu :
      (s : Status) (h : Host) → is_game s ≡ false → dispatch l e t d s h ≡ some (menu_of l e s h)
  unfolding dispatch is_game
  dispatch-menu notstart h n = refl
  dispatch-menu receive_username_register h n = refl
  dispatch-menu receive_password_register h n = refl
  dispatch-menu receive_username_load h n = refl
  dispatch-menu receive_password_load h n = refl
  dispatch-menu verifying_password h n = refl
  dispatch-menu login h n = refl
  dispatch-menu login_over h n = refl
  dispatch-menu register_or_load_over h n = refl
  dispatch-menu change_password_old h n = refl
  dispatch-menu change_password_new h n = refl
  dispatch-menu over_quit h n = refl
  dispatch-menu playing h n = cc
  dispatch-menu over_confirming h n = cc
  dispatch-menu select_game_difficulty h n = cc

  -- One event on a connection in a state of the menus is handled to its end, and leaves the connection
  -- in that state, ends it, or moves it along an edge of `Edge`, whatever arrives and whatever the
  -- socket does.
  pub handle_client_data-Leads :
      (h : Host)
      → is_game h.status ≡ false
      → (h' : Host) × (handle_client_data l e t d h ≡ some h') × Leads (Edge h.status) h h'
  unfolding handle_client_data open_batch
  handle_client_data-Leads h n =
      let h0 = record h { world = open_batch h.world } in
      let h1 = (menu_of l e h.status h0).1 in
      (
        record h1 { world = close_batch h1.world },
        rw (dispatch-menu h.status h0 n, handle_client_data) refl,
        extend (Edge h.status) (menu_of-Leads l e h.status h0) (close_batch-status h1.world),
      )
