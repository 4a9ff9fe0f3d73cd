-- ===== src/Connections/Owned.antt =====
-- No object serves two connections, or one and the pool.
use russia_tetris.Base.{
  ℕ, zero, suc, ◌+◌, ◌*◌, ◌-◌, ◌≤◌, ◌<◌, ◌≡◌, refl, List, [], ◌∷◌, ◌++◌, Bool, true, false, ◌==◌,
  length, length-append, length-drop, drop, Option, none, some, ◌||◌, ltb, leb, Bool-cases, inl,
  inr, arith, ==_iff, subst,
}
use russia_tetris.Throttle.Table
use russia_tetris.Throttle.Ip.{address_key}
use russia_tetris.Filedata.Answers.{count, count-append, one}
use russia_tetris.Connections.{
  initialize, Registry, acquire, release, add_user, remove_user, new_client, sweep,
  trim_idle_objects, Event, came, timed, cleaned, maybe_trim, unregister, cleanup, max_pool_size,
}
use russia_tetris.Connections.Places.{
  of_entry, places, count-erase, count-put, count-drop, release-places, release-created,
  release-bounded, release_ended-Kept, sweep-places,
}

-- Every object has one place at most, and one that does not exist yet has none; the pool is not longer than its
-- bound.
pub record Owned (r : Registry) : Type 0 where
  pub one_place : (i : ℕ) → places i r ≤ 1
  pub no_place : (i : ℕ) → r.created ≤ i → places i r ≡ 0
  pub bounded : length r.pool ≤ max_pool_size

-- With the object `o` taken out of its place.
record Held (o : ℕ) (r : Registry) : Type 0 where
  at_most_one : (i : ℕ) → one i o + places i r ≤ 1
  none_beyond : (i : ℕ) → r.created ≤ i → one i o + places i r ≡ 0
  pool_bounded : length r.pool ≤ max_pool_size

<-irrefl : (n : ℕ) → ¬ (n < n)
<-irrefl n lt = omega arith

one_other : (i o : ℕ) → o < i → one i o ≡ 0
one_other i o lt = elim (Bool-cases (i == o)) [
  | inl e ↦ absurd (<-irrefl o (subst (λ z. o < z) ((==_iff i o).0 e) lt))
  | inr e ↦ rw e refl
]

release-Owned : (o : ℕ) (r : Registry) → Held o r → Owned (release o r)
release-Owned o r h = record {
  one_place = λ i. omega (arith, release-places i o r, h.at_most_one i);
  no_place = λ i le. no_place_of i le;
  bounded = release-bounded o r h.pool_bounded;
}
  where
    no_place_of : (i : ℕ) → (release o r).created ≤ i → places i (release o r) ≡ 0
    no_place_of i le =
        omega
          (arith, release-places i o r, h.none_beyond i (omega (arith, le, release-created o r)))

add_user-Owned : (fd o : ℕ) (r : Registry) → Held o r → Owned (add_user fd o r)
unfolding places add_user
add_user-Owned fd o r h = record {
  one_place = λ i. omega (arith, count-put i fd o r.users, h.at_most_one i);
  no_place = λ i le. omega (arith, count-put i fd o r.users, h.none_beyond i le);
  bounded = h.pool_bounded;
}

count-erase-put :
    (i fd o : ℕ) (xs : List (ℕ × ℕ))
    → count (of_entry i) (Table.erase address_key fd (Table.put address_key fd o xs))
      ≤ count (of_entry i) xs
unfolding Table.put Table.erase
count-erase-put i fd o xs =
    rw ((==_iff fd fd).1 refl)
      (omega (arith, count-erase i fd (Table.erase address_key fd xs), count-erase i fd xs))

remove_user-Held : (fd o : ℕ) (r : Registry) → Held o r → Held o (remove_user fd (add_user fd o r))
unfolding places add_user remove_user
remove_user-Held fd o r h = record {
  at_most_one = λ i. omega (arith, count-erase-put i fd o r.users, h.at_most_one i);
  none_beyond = λ i le. omega (arith, count-erase-put i fd o r.users, h.none_beyond i le);
  pool_bounded = h.pool_bounded;
}

abbrev registry : List ℕ → List (ℕ × ℕ) → ℕ → Registry
registry pool users created = record { pool = pool; users = users; created = created }

acquire_from :
    (pool : List ℕ) (users : List (ℕ × ℕ)) (created : ℕ)
    → Owned (registry pool users created)
    → Held ((acquire (registry pool users created)).0) ((acquire (registry pool users created)).1)
unfolding acquire places count
acquire_from [] users created w = record {
  at_most_one = λ i. fresh_one i;
  none_beyond = λ i le. omega (arith, one_other i created le, w.no_place i (omega (arith, le)));
  pool_bounded = w.bounded;
}
  where
    fresh_one : (i : ℕ) → one i created + (0 + count (of_entry i) users) ≤ 1
    fresh_one i = elim (Bool-cases (i == created)) [
      | inl e ↦ rw e (omega (arith, w.no_place i (omega (arith, (==_iff i created).0 e))))
      | inr e ↦ rw e (omega (arith, w.one_place i))
    ]
acquire_from (o ∷ rest) users created w = record {
  at_most_one = λ i. omega (arith, w.one_place i);
  none_beyond = λ i le. omega (arith, w.no_place i le);
  pool_bounded = omega (arith, w.bounded);
}

acquire-Held : (r : Registry) → Owned r → Held ((acquire r).0) ((acquire r).1)
acquire-Held r w = acquire_from r.pool r.users r.created w

new_client-Owned : (fd : ℕ) (ready : Bool) (r : Registry) → Owned r → Owned (new_client fd ready r)
unfolding new_client
new_client-Owned fd true r w = add_user-Owned fd ((acquire r).0) ((acquire r).1) (acquire-Held r w)
new_client-Owned fd false r w =
    release-Owned ((acquire r).0) (remove_user fd (add_user fd ((acquire r).0) ((acquire r).1)))
      (remove_user-Held fd ((acquire r).0) ((acquire r).1) (acquire-Held r w))

-- An object more, at the end of the pool.
abbrev grown : Registry → Registry
grown r = record r { pool = r.pool ++ r.created ∷ []; created = suc r.created }

places-grown : (i : ℕ) (r : Registry) → places i (grown r) ≡ one i r.created + places i r
unfolding places count
places-grown i r = omega (arith, count-append (one i) r.pool (r.created ∷ []))

grown-one : (i : ℕ) (r : Registry) → Owned r → one i r.created + places i r ≤ 1
grown-one i r w = elim (Bool-cases (i == r.created)) [
  | inl e ↦ rw e (omega (arith, w.no_place i (omega (arith, (==_iff i r.created).0 e))))
  | inr e ↦ rw e (omega (arith, w.one_place i))
]

grown-none : (i : ℕ) (r : Registry) → Owned r → suc r.created ≤ i → one i r.created + places i r ≡ 0
grown-none i r w le = omega (arith, one_other i r.created le, w.no_place i (omega (arith, le)))

grown-Owned : (r : Registry) → suc (length r.pool) ≤ max_pool_size → Owned r → Owned (grown r)
grown-Owned r le w = record {
  one_place = λ i. omega (arith, places-grown i r, grown-one i r w);
  no_place = λ i h. omega (arith, places-grown i r, grown-none i r w h);
  bounded = omega (arith, le, length-append r.pool (r.created ∷ []));
}

pub initialize-Owned :
    (n : ℕ) (r : Registry) → length r.pool + n ≤ max_pool_size → Owned r → Owned (initialize n r)
unfolding initialize
initialize-Owned zero r le w = w
initialize-Owned (suc n) r le w =
    initialize-Owned n (grown r) (omega (arith, le, length-append r.pool (r.created ∷ [])))
      (grown-Owned r (omega (arith, le)) w)

-- Nothing is there yet.
abbrev pub no_objects : Registry
no_objects = record { pool = []; users = []; created = 0 }

pub no_objects-Owned : Owned no_objects
unfolding places count
no_objects-Owned = record {
  one_place = λ i. omega arith;
  no_place = λ i le. refl;
  bounded = omega arith;
}

-- Fewer places, and no object forgotten.
fewer-Owned :
    (r r' : Registry)
    → Owned r
    → ((i : ℕ) → places i r' ≤ places i r)
    → r'.created ≡ r.created
    → length r'.pool ≤ max_pool_size
    → Owned r'
fewer-Owned r r' w fewer same short = record {
  one_place = λ i. omega (arith, fewer i, w.one_place i);
  no_place = λ i le. omega (arith, fewer i, w.no_place i (subst (λ n. n ≤ i) same le));
  bounded = short;
}

sweep-Owned : (ended : ℕ → Bool) (r : Registry) → Owned r → Owned (sweep ended r)
unfolding sweep
sweep-Owned ended r w =
    let k = release_ended-Kept ended r.users r in
    fewer-Owned r (sweep ended r) w (λ i. sweep-places ended i r) k.same_created
      (k.pool_bounded w.bounded)

trim-Owned : (target : ℕ) (r : Registry) → Owned r → Owned (trim_idle_objects target r)
unfolding trim_idle_objects places
trim-Owned target r w = elim (Bool-cases (leb (length r.pool) target)) [
  | inl e ↦ rw (e, trim_idle_objects) w
  | inr e ↦
      rw (e, trim_idle_objects)
        (fewer-Owned r (record r { pool = drop (length r.pool - target) r.pool }) w (λ i. dropped i)
          refl (omega (arith, length-drop (length r.pool - target) r.pool, w.bounded)))
]
  where
    dropped :
        (i : ℕ) → places i (record r { pool = drop (length r.pool - target) r.pool }) ≤ places i r
    dropped i = omega (arith, count-drop i (length r.pool - target) r.pool)

maybe_trim-Owned :
    (target interval now : ℕ) (last : Option ℕ) (r : Registry)
    → Owned r
    → Owned ((maybe_trim target interval now last r).1)
unfolding maybe_trim
maybe_trim-Owned target interval now none r w = elim (Bool-cases (leb max_pool_size target)) [
  | inl e ↦ rw (e, maybe_trim) w
  | inr e ↦ rw (e, maybe_trim) (trim-Owned target r w)
]
maybe_trim-Owned target interval now (some last) r w =
    elim (Bool-cases (leb max_pool_size target || ltb now (last + 1000000 * interval))) [
      | inl e ↦ rw (e, maybe_trim) w
      | inr e ↦ rw (e, maybe_trim) (trim-Owned target r w)
    ]

unregister-Owned :
    (ended : ℕ → Bool) (target interval now : ℕ) (last : Option ℕ) (r : Registry)
    → Owned r
    → Owned ((unregister ended target interval now last r).1)
unfolding unregister
unregister-Owned ended target interval now last r w =
    maybe_trim-Owned target interval now last (sweep ended r) (sweep-Owned ended r w)

cleanup-Owned : (r : Registry) → Owned r → Owned (cleanup r)
unfolding cleanup places count
cleanup-Owned r w = record {
  one_place = λ i. omega (arith, w.one_place i);
  no_place = λ i le. omega (arith, w.no_place i le);
  bounded = omega arith;
}

-- Whatever event comes to the pool and to the table of connections, a connection that comes, the
-- timer with its sweep of the ended ones and its trim, or the cleanup: when no object was at two
-- places, either as the object of two descriptors, or in the pool twice, or in both, none is
-- afterwards; an object not yet made has no place, and the pool stays within its bound.
pub Event-Owned : {r r' : Registry} → Event r r' → Owned r → Owned r'
Event-Owned (came {r = r} fd ready) w = new_client-Owned fd ready r w
Event-Owned (timed {r = r} ended target interval now last) w =
    unregister-Owned ended target interval now last r w
Event-Owned (cleaned {r = r}) w = cleanup-Owned r w
