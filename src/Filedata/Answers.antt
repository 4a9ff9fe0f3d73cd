-- ===== src/Filedata/Answers.antt =====
-- Every login and every change of a password is answered once.
use russia_tetris.Base.{
  ℕ, ◌+◌, ◌≡◌, refl, ◌∙◌, ap, List, [], ◌∷◌, ◌++◌, Bool, true, false, leb, if◌then◌else◌, length,
  ◌==◌, arith, Bool-cases, Option-cases, inl, inr,
}
use russia_tetris.PasswordHash.Verify.{Crypto, verify, hash}
use russia_tetris.Filedata.{
  LoginResult, PasswordChangeResult, Job, login_job, change_job, migrate_job, replace_job, HashJob,
  dummy_check, login_check, change_check, Answer, login_finished, change_finished, Queues, Lookup,
  found, missing, fails, Moment, post, push_job, check_passed, run_hash, run_hash_task, run_job,
  Step, write_thread, hash_thread,
}

unfoldable pub count : {A : Type 0} → (A → ℕ) → List A → ℕ
count f [] = 0
count f (x ∷ xs) = f x + count f xs

pub count-append :
    {A : Type 0} (f : A → ℕ) (xs ys : List A) → count f (xs ++ ys) ≡ count f xs + count f ys
unfolding count
count-append f [] ys = omega arith
count-append f (x ∷ xs) ys = omega (arith, count-append f xs ys)

abbrev pub one : ℕ → ℕ → ℕ
one i id = if i == id then 1 else 0

abbrev pub of_job : ℕ → Job → ℕ
of_job i (login_job id u p) = one i id
of_job i (change_job id u o n) = one i id
of_job i (migrate_job id u c) = one i id
of_job i (replace_job id u c) = one i id

abbrev pub of_hash : ℕ → HashJob → ℕ
of_hash i (dummy_check id p) = one i id
of_hash i (login_check id u p s) = one i id
of_hash i (change_check id u o n s) = one i id

abbrev pub of_answer : ℕ → Answer → ℕ
of_answer i (login_finished id r) = one i id
of_answer i (change_finished id r) = one i id

-- How often the callback `i` is called, or held by a task that waits.
unfoldable pub tally : ℕ → Queues → ℕ
unfolding count
tally i q =
    count (of_job i) q.write_queue + count (of_hash i) q.hash_queue + count (of_answer i) q.posted

-- The steps that a task can still cause, itself included.
abbrev pub job_weight : Job → ℕ
job_weight (login_job id u p) = 3
job_weight (change_job id u o n) = 3
job_weight (migrate_job id u c) = 1
job_weight (replace_job id u c) = 1

abbrev pub hash_weight : HashJob → ℕ
hash_weight j = 2

unfoldable pub weight : Queues → ℕ
unfolding count
weight q = count job_weight q.write_queue + count hash_weight q.hash_queue

tally-post : (i : ℕ) (a : Answer) (q : Queues) → tally i (post a q) ≡ of_answer i a + tally i q
unfolding tally count
tally-post i a q = omega (arith, count-append (of_answer i) q.posted (a ∷ []))

tally-push_job : (i : ℕ) (j : Job) (q : Queues) → tally i (push_job j q) ≡ of_job i j + tally i q
unfolding tally count
tally-push_job i j q = omega (arith, count-append (of_job i) q.write_queue (j ∷ []))

module _ (crypto : Crypto) (limit : ℕ) where
  tally-check_passed :
      (i : ℕ) (at : Moment) (id : ℕ) (u p : List ℕ) (b : Bool) (q : Queues)
      → tally i (check_passed crypto limit at id u p b q) ≡ one i id + tally i q
  unfolding check_passed
  tally-check_passed i at id u p false q = tally-post i (login_finished id LoginResult.ok) q
  tally-check_passed i at id u p true q = elim (Option-cases (hash crypto at.salt p)) [
    | inl e ↦ rw (e, check_passed) (tally-post i (login_finished id LoginResult.ok) q)
    | inr (c, e) ↦ rw (e, check_passed) (tally-push_job i (migrate_job id u c) q)
  ]

  tally-run_hash :
      (i : ℕ) (at : Moment) (j : HashJob) (q : Queues)
      → tally i (run_hash crypto limit at j q) ≡ of_hash i j + tally i q
  unfolding run_hash
  tally-run_hash i at (dummy_check id p) q =
      tally-post i (login_finished id LoginResult.bad_credentials) q
  tally-run_hash i at (login_check id u p s) q = elim (Bool-cases (verify crypto p s).accepted) [
    | inl e ↦ rw (e, run_hash) (tally-check_passed i at id u p (verify crypto p s).needs_rehash q)
    | inr e ↦ rw (e, run_hash) (tally-post i (login_finished id LoginResult.bad_credentials) q)
  ]
  tally-run_hash i at (change_check id u o n s) q = elim (Bool-cases (verify crypto o s).accepted) [
    | inl e ↦ elim (Option-cases (hash crypto at.salt n)) [
      | inl h ↦ rw (e, h, run_hash) (tally-post i (change_finished id PasswordChangeResult.error) q)
      | inr (c, h) ↦ rw (e, h, run_hash) (tally-push_job i (replace_job id u c) q)
    ]
    | inr e ↦
        rw (e, run_hash) (tally-post i (change_finished id PasswordChangeResult.bad_credentials) q)
  ]

  tally-push_hash :
      (i : ℕ) (j : HashJob) (q : Queues)
      → tally i (record q { hash_queue = q.hash_queue ++ j ∷ [] }) ≡ of_hash i j + tally i q
  unfolding tally count
  tally-push_hash i j q = omega (arith, count-append (of_hash i) q.hash_queue (j ∷ []))

  -- `full` answers the callback that the task has.
  tally-run_hash_task :
      (i : ℕ) (at : Moment) (j : HashJob) (full : Answer) (q : Queues)
      → of_answer i full ≡ of_hash i j
      → tally i (run_hash_task crypto limit at j full q) ≡ of_hash i j + tally i q
  unfolding run_hash_task
  tally-run_hash_task i at j full q same = go q.pool_ready (leb limit (length q.hash_queue))
    where
      go :
          (ready many : Bool)
          → tally i (elim ready as (λ _. Queues) [
            | false ↦ run_hash crypto limit at j q
            | true ↦ elim many as (λ _. Queues) [
              | true ↦ post full q
              | false ↦ record q { hash_queue = q.hash_queue ++ j ∷ [] }
            ]
          ])
            ≡ of_hash i j + tally i q
      go false many = tally-run_hash i at j q
      go true true = tally-post i full q ∙ ap (λ (n : ℕ). n + tally i q) same
      go true false = tally-push_hash i j q

  tally-run_job :
      (i : ℕ) (at : Moment) (j : Job) (q : Queues)
      → tally i (run_job crypto limit at j q) ≡ of_job i j + tally i q
  unfolding run_job
  tally-run_job i at (login_job id u p) q = go (at.lookup u)
    where
      go :
          (r : Lookup)
          → tally i (elim r as (λ _. Queues) [
            | found s ↦
                run_hash_task crypto limit at
                  (login_check id u p s)
                  (login_finished id LoginResult.busy)
                  q
            | missing ↦
                run_hash_task crypto limit at
                  (dummy_check id p)
                  (login_finished id LoginResult.busy)
                  q
            | fails ↦ post (login_finished id LoginResult.bad_credentials) q
          ])
            ≡ one i id + tally i q
      go (found s) =
          tally-run_hash_task i at (login_check id u p s) (login_finished id LoginResult.busy) q
            refl
      go missing =
          tally-run_hash_task i at (dummy_check id p) (login_finished id LoginResult.busy) q refl
      go fails = tally-post i (login_finished id LoginResult.bad_credentials) q
  tally-run_job i at (change_job id u o n) q = go (at.lookup u)
    where
      go :
          (r : Lookup)
          → tally i (elim r as (λ _. Queues) [
            | found s ↦
                run_hash_task crypto limit at
                  (change_check id u o n s)
                  (change_finished id PasswordChangeResult.busy)
                  q
            | missing ↦ post (change_finished id PasswordChangeResult.bad_credentials) q
            | fails ↦ post (change_finished id PasswordChangeResult.error) q
          ])
            ≡ one i id + tally i q
      go (found s) =
          tally-run_hash_task i at (change_check id u o n s)
            (change_finished id PasswordChangeResult.busy) q refl
      go missing = tally-post i (change_finished id PasswordChangeResult.bad_credentials) q
      go fails = tally-post i (change_finished id PasswordChangeResult.error) q
  tally-run_job i at (migrate_job id u c) q = tally-post i (login_finished id LoginResult.ok) q
  tally-run_job i at (replace_job id u c) q = tally-post i (change_finished id _) q

  tally-popped :
      (i : ℕ) (q : Queues) (j : Job) (rest : List Job)
      → q.write_queue ≡ j ∷ rest
      → of_job i j + tally i (record q { write_queue = rest }) ≡ tally i q
  unfolding tally count
  tally-popped i q j rest e = rw e (omega arith)

  tally-popped_hash :
      (i : ℕ) (q : Queues) (j : HashJob) (rest : List HashJob)
      → q.hash_queue ≡ j ∷ rest
      → of_hash i j + tally i (record q { hash_queue = rest }) ≡ tally i q
  unfolding tally count
  tally-popped_hash i q j rest e = rw e (omega arith)

  -- In whatever order the threads take their tasks, and whatever the database, OpenSSL and the bound
  -- on the queue give: a step keeps, for every login or change of a password, the number of the
  -- tasks that hold its callback plus the number of the calls of it.
  pub Step-tally : {q q' : Queues} (i : ℕ) → Step crypto limit q q' → tally i q' ≡ tally i q
  Step-tally i (write_thread {q} {job} {rest} at e) =
      tally-run_job i at job (record q { write_queue = rest }) ∙ tally-popped i q job rest e
  Step-tally i (hash_thread {q} {job} {rest} at e) =
      tally-run_hash i at job (record q { hash_queue = rest }) ∙ tally-popped_hash i q job rest e
