-- ===== src/Tests/Connections.antt =====
-- Connections that come and go, over a pool of two objects.
use russia_tetris.Base.{◌≡◌, refl, [], ◌∷◌, true, false, ◌==◌, some, arith}
use russia_tetris.Throttle.Table
use russia_tetris.Connections.{Registry, came, initialize, new_client, sweep, get_user}
use russia_tetris.Connections.Owned.{
  Owned, Event-Owned, initialize-Owned, no_objects, no_objects-Owned,
}

abbrev start : Registry
start = initialize 2 no_objects

abbrev one_client : Registry
one_client = new_client 7 true start

one_client_users : get_user 7 one_client ≡ some 0
unfolding get_user new_client initialize Table.find Table.put
one_client_users = refl

-- The descriptor is used again before the sweep, and the second socket fails.
abbrev again_client : Registry
again_client = new_client 8 false (new_client 7 true one_client)

again_client_pool : (sweep (λ o. o == 1) again_client).pool ≡ 2 ∷ 1 ∷ []
unfolding sweep new_client initialize Table.erase Table.put Table.erase_if
again_client_pool = refl

-- Two objects at the start, and a client that comes.
Event-Owned_example : Owned (new_client 7 true start)
Event-Owned_example =
    Event-Owned (came 7 true) (initialize-Owned 2 no_objects (omega arith) no_objects-Owned)
