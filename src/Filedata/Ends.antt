-- ===== src/Filedata/Ends.antt =====
-- The queues of `Filedata` empty themselves, in whatever order the threads run.
use russia_tetris.Base.{
  ℕ, suc, ◌+◌, ◌≤◌, ◌<◌, ◌≡◌, refl, ◌∙◌, sym, ◌⊎◌, inl, inr, List, [], ◌∷◌, ◌++◌, Bool, true, false,
  leb, if◌then◌else◌, length, arith, Bool-cases, Option-cases,
}
use russia_tetris.PasswordHash.Verify.{Crypto, verify, hash}
use russia_tetris.Filedata.{
  LoginResult, PasswordChangeResult, Job, login_job, change_job, migrate_job, replace_job, HashJob,
  dummy_check, login_check, change_check, Answer, login_finished, change_finished, Queues, Lookup,
  found, missing, fails, Moment, post, push_job, check_passed, run_hash, run_hash_task, run_job,
  Step, write_thread, hash_thread,
}
use russia_tetris.Filedata.Answers.{
  count, count-append, of_answer, tally, job_weight, hash_weight, weight, Step-tally,
}

weight-push_job : (j : Job) (q : Queues) → weight (push_job j q) ≡ job_weight j + weight q
unfolding weight count
weight-push_job j q = omega (arith, count-append job_weight q.write_queue (j ∷ []))

weight-push_hash :
    (j : HashJob) (q : Queues)
    → weight (record q { hash_queue = q.hash_queue ++ j ∷ [] }) ≡ 2 + weight q
unfolding weight count
weight-push_hash j q = omega (arith, count-append hash_weight q.hash_queue (j ∷ []))

weight-post : (a : Answer) (q : Queues) → weight (post a q) ≡ weight q
unfolding weight
weight-post a q = refl

module _ (crypto : Crypto) (limit : ℕ) where
  weight-check_passed :
      (at : Moment) (id : ℕ) (u p : List ℕ) (b : Bool) (q : Queues)
      → weight (check_passed crypto limit at id u p b q) ≤ 1 + weight q
  unfolding check_passed
  weight-check_passed at id u p false q =
      omega (arith, weight-post (login_finished id LoginResult.ok) q)
  weight-check_passed at id u p true q = elim (Option-cases (hash crypto at.salt p)) [
    | inl e ↦ rw (e, check_passed) (omega (arith, weight-post (login_finished id LoginResult.ok) q))
    | inr (c, e) ↦ rw (e, check_passed) (omega (arith, weight-push_job (migrate_job id u c) q))
  ]

  weight-run_hash :
      (at : Moment) (j : HashJob) (q : Queues)
      → weight (run_hash crypto limit at j q) ≤ 1 + weight q
  unfolding run_hash
  weight-run_hash at (dummy_check id p) q =
      omega (arith, weight-post (login_finished id LoginResult.bad_credentials) q)
  weight-run_hash at (login_check id u p s) q = elim (Bool-cases (verify crypto p s).accepted) [
    | inl e ↦ rw (e, run_hash) (weight-check_passed at id u p (verify crypto p s).needs_rehash q)
    | inr e ↦
        rw (e, run_hash)
          (omega (arith, weight-post (login_finished id LoginResult.bad_credentials) q))
  ]
  weight-run_hash at (change_check id u o n s) q = elim (Bool-cases (verify crypto o s).accepted) [
    | inl e ↦ elim (Option-cases (hash crypto at.salt n)) [
      | inl h ↦
          rw (e, h, run_hash)
            (omega (arith, weight-post (change_finished id PasswordChangeResult.error) q))
      | inr (c, h) ↦ rw (e, h, run_hash) (omega (arith, weight-push_job (replace_job id u c) q))
    ]
    | inr e ↦
        rw (e, run_hash)
          (omega (arith, weight-post (change_finished id PasswordChangeResult.bad_credentials) q))
  ]

  weight-run_hash_task :
      (at : Moment) (j : HashJob) (full : Answer) (q : Queues)
      → weight (run_hash_task crypto limit at j full q) ≤ 2 + weight q
  unfolding run_hash_task
  weight-run_hash_task at j full q = go q.pool_ready (leb limit (length q.hash_queue))
    where
      go :
          (ready many : Bool)
          → weight (elim ready as (λ _. Queues) [
            | false ↦ run_hash crypto limit at j q
            | true ↦ elim many as (λ _. Queues) [
              | true ↦ post full q
              | false ↦ record q { hash_queue = q.hash_queue ++ j ∷ [] }
            ]
          ])
            ≤ 2 + weight q
      go false many = omega (arith, weight-run_hash at j q)
      go true true = omega (arith, weight-post full q)
      go true false = omega (arith, weight-push_hash j q)

  weight-run_job :
      (at : Moment) (j : Job) (q : Queues)
      → weight (run_job crypto limit at j q) < job_weight j + weight q
  unfolding run_job
  weight-run_job at (login_job id u p) q = go (at.lookup u)
    where
      go :
          (r : Lookup)
          → weight (elim r as (λ _. Queues) [
            | found s ↦
                run_hash_task crypto limit at
                  (login_check id u p s)
                  (login_finished id LoginResult.busy)
                  q
            | missing ↦
                run_hash_task crypto limit at
                  (dummy_check id p)
                  (login_finished id LoginResult.busy)
                  q
            | fails ↦ post (login_finished id LoginResult.bad_credentials) q
          ])
            < 3 + weight q
      go (found s) = omega (
        arith,
        weight-run_hash_task at (login_check id u p s) (login_finished id LoginResult.busy) q,
      )
      go missing =
          omega (
            arith,
            weight-run_hash_task at (dummy_check id p) (login_finished id LoginResult.busy) q,
          )
      go fails = omega (arith, weight-post (login_finished id LoginResult.bad_credentials) q)
  weight-run_job at (change_job id u o n) q = go (at.lookup u)
    where
      go :
          (r : Lookup)
          → weight (elim r as (λ _. Queues) [
            | found s ↦
                run_hash_task crypto limit at
                  (change_check id u o n s)
                  (change_finished id PasswordChangeResult.busy)
                  q
            | missing ↦ post (change_finished id PasswordChangeResult.bad_credentials) q
            | fails ↦ post (change_finished id PasswordChangeResult.error) q
          ])
            < 3 + weight q
      go (found s) = omega (
        arith,
        weight-run_hash_task at (change_check id u o n s)
            (change_finished id PasswordChangeResult.busy) q,
      )
      go missing =
          omega (arith, weight-post (change_finished id PasswordChangeResult.bad_credentials) q)
      go fails = omega (arith, weight-post (change_finished id PasswordChangeResult.error) q)
  weight-run_job at (migrate_job id u c) q =
      omega (arith, weight-post (login_finished id LoginResult.ok) q)
  weight-run_job at (replace_job id u c) q =
      let a =
        change_finished id
          (if at.updates then PasswordChangeResult.ok else PasswordChangeResult.error) in
      omega (arith, weight-post a q)

  weight-popped :
      (q : Queues) (j : Job) (rest : List Job)
      → q.write_queue ≡ j ∷ rest
      → job_weight j + weight (record q { write_queue = rest }) ≡ weight q
  unfolding weight count
  weight-popped q j rest e = rw e (omega arith)

  weight-popped_hash :
      (q : Queues) (j : HashJob) (rest : List HashJob)
      → q.hash_queue ≡ j ∷ rest
      → 2 + weight (record q { hash_queue = rest }) ≡ weight q
  unfolding weight count
  weight-popped_hash q j rest e = rw e (omega arith)

  Step-weight : {q q' : Queues} → Step crypto limit q q' → weight q' < weight q
  Step-weight (write_thread {q} {job} {rest} at e) =
      omega
        (arith, weight-run_job at job (record q { write_queue = rest }), weight-popped q job rest e)
  Step-weight (hash_thread {q} {job} {rest} at e) = omega (
    arith,
    weight-run_hash at job (record q { hash_queue = rest }),
    weight-popped_hash q job rest e,
  )

  -- `n` steps, of any threads.
  pub data Steps : ℕ → Queues → Queues → Type 0 where
    none_yet : {q : Queues} → Steps 0 q q
    one_more :
        {n : ℕ} {q q' q'' : Queues} → Steps n q q' → Step crypto limit q' q'' → Steps (suc n) q q''

  -- No task waits.
  pub record Idle (q : Queues) : Type 0 where
    pub no_jobs : q.write_queue ≡ []
    pub no_hashes : q.hash_queue ≡ []

  Steps-weight : {n : ℕ} {q q' : Queues} → Steps n q q' → n + weight q' ≤ weight q
  Steps-weight none_yet = omega arith
  Steps-weight (one_more steps step) = omega (arith, Steps-weight steps, Step-weight step)

  Steps-tally : {n : ℕ} {q q' : Queues} (i : ℕ) → Steps n q q' → tally i q' ≡ tally i q
  Steps-tally i none_yet = refl
  Steps-tally i (one_more steps step) = Step-tally crypto limit i step ∙ Steps-tally i steps

  tally-Idle : (i : ℕ) (q : Queues) → Idle q → tally i q ≡ count (of_answer i) q.posted
  unfolding tally count
  tally-Idle i q idle = rw (idle.no_jobs, idle.no_hashes) (omega arith)

  progress : (at : Moment) (q : Queues) → Idle q ⊎ ((q' : Queues) × Step crypto limit q q')
  progress at q = go q.write_queue q.hash_queue refl refl
    where
      go :
          (js : List Job) (hs : List HashJob)
          → q.write_queue ≡ js
          → q.hash_queue ≡ hs
          → Idle q ⊎ ((q' : Queues) × Step crypto limit q q')
      go [] [] a b = inl (record { no_jobs = a; no_hashes = b })
      go [] (h ∷ hs) a b = inr (_, hash_thread at b)
      go (j ∷ js) hs a b = inr (_, write_thread at a)

  -- Every run of the threads ends, and everything is answered: from queues of weight `w` no run has
  -- more than `w` steps; while a task waits, one more step can be made; and when none waits, the
  -- callback of each login or change was called as often as it was called or held at the start, that
  -- is once for a callback that one task held.
  pub Steps-answered :
      (at : Moment) {n : ℕ} {q q' : Queues}
      → Steps n q q'
      → (n ≤ weight q)
        × (Idle q' ⊎ ((q'' : Queues) × Step crypto limit q' q''))
        × (Idle q' → (i : ℕ) → count (of_answer i) q'.posted ≡ tally i q)
  Steps-answered at {n} {q} {q'} steps = (
    omega (arith, Steps-weight steps),
    progress at q',
    λ idle i. sym (tally-Idle i q' idle) ∙ Steps-tally i steps,
  )
