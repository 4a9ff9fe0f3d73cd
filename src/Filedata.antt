-- ===== src/Filedata.antt =====
-- src/TetrisGame/Filedata.cpp: the two queues that a login and a change of the password go through:
-- that of the single thread that uses the database, and that of the threads that hash.
pub mod Answers
pub mod Ends
use russia_tetris.Base.{
  ℕ, ◌≡◌, List, [], ◌∷◌, ◌++◌, Bool, true, false, not, leb, if◌then◌else◌, Option, none, some,
  length,
}
use russia_tetris.PasswordHash.Verify.{Crypto, Verdict, verify, hash}

pub data LoginResult : Type 0 where
  ok bad_credentials busy : LoginResult

pub data PasswordChangeResult : Type 0 where
  ok bad_credentials busy error : PasswordChangeResult

-- A task of the database thread. The number says whose callback it has.
pub data Job : Type 0 where
  login_job : ℕ → List ℕ → List ℕ → Job
  change_job : ℕ → List ℕ → List ℕ → List ℕ → Job
  migrate_job : ℕ → List ℕ → List ℕ → Job
  replace_job : ℕ → List ℕ → List ℕ → Job

-- A task of the hashing threads: for an unknown name, with the password; for a login, with the name,
-- the password and the stored text; for a change, with the new password before the stored text.
pub data HashJob : Type 0 where
  dummy_check : ℕ → List ℕ → HashJob
  login_check : ℕ → List ℕ → List ℕ → List ℕ → HashJob
  change_check : ℕ → List ℕ → List ℕ → List ℕ → List ℕ → HashJob

-- A call of a callback that was posted to the event loop.
pub data Answer : Type 0 where
  login_finished : ℕ → LoginResult → Answer
  change_finished : ℕ → PasswordChangeResult → Answer

pub record Queues : Type 0 where
  pub pool_ready : Bool
  pub write_queue : List Job
  pub hash_queue : List HashJob
  pub posted : List Answer

-- What the database answers about a name: its stored text, that there is none, or an exception.
pub data Lookup : Type 0 where
  found : List ℕ → Lookup
  missing fails : Lookup

-- What one task meets: the answers of the database, whether its update succeeds, and the random
-- salt of `hash`.
pub record Moment : Type 0 where
  pub lookup : List ℕ → Lookup
  pub updates : Bool
  pub salt : Option (List ℕ)

abbrev pub post : Answer → Queues → Queues
post a q = record q { posted = q.posted ++ a ∷ [] }

abbrev pub push_job : Job → Queues → Queues
push_job j q = record q { write_queue = q.write_queue ++ j ∷ [] }

-- The accounts' hashing is OpenSSL's; `limit` is `hashQueueLimit()`.
module _ (crypto : Crypto) (limit : ℕ) where
  -- A password that was right: it may be stored again, and the login succeeds anyway.
  unfoldable pub check_passed : Moment → ℕ → List ℕ → List ℕ → Bool → Queues → Queues
  unfolding hash
  check_passed at id username password false q = post (login_finished id LoginResult.ok) q
  check_passed at id username password true q = elim (hash crypto at.salt password) [
    | none ↦ post (login_finished id LoginResult.ok) q
    | some upgraded ↦ push_job (migrate_job id username upgraded) q
  ]

  unfoldable pub run_hash : Moment → HashJob → Queues → Queues
  unfolding verify hash check_passed
  run_hash at (dummy_check id password) q = post (login_finished id LoginResult.bad_credentials) q
  run_hash at (login_check id username password stored) q =
      let v = verify crypto password stored in
      elim v.accepted [
        | false ↦ post (login_finished id LoginResult.bad_credentials) q
        | true ↦ check_passed at id username password v.needs_rehash q
      ]
  run_hash at (change_check id username old new stored) q =
      elim (verify crypto old stored).accepted [
        | false ↦ post (change_finished id PasswordChangeResult.bad_credentials) q
        | true ↦ elim (hash crypto at.salt new) [
          | none ↦ post (change_finished id PasswordChangeResult.error) q
          | some upgraded ↦ push_job (replace_job id username upgraded) q
        ]
      ]

  -- `runHashTask`, and what its caller posts when it returns false. Without threads the task runs
  -- at once.
  unfoldable pub run_hash_task : Moment → HashJob → Answer → Queues → Queues
  unfolding run_hash
  run_hash_task at job full q = elim q.pool_ready [
    | false ↦ run_hash at job q
    | true ↦ elim (leb limit (length q.hash_queue)) [
      | true ↦ post full q
      | false ↦ record q { hash_queue = q.hash_queue ++ job ∷ [] }
    ]
  ]

  unfoldable pub run_job : Moment → Job → Queues → Queues
  unfolding run_hash_task
  run_job at (login_job id username password) q = elim (at.lookup username) [
    | found stored ↦
        run_hash_task at (login_check id username password stored)
          (login_finished id LoginResult.busy) q
    | missing ↦ run_hash_task at (dummy_check id password) (login_finished id LoginResult.busy) q
    | fails ↦ post (login_finished id LoginResult.bad_credentials) q
  ]
  run_job at (change_job id username old new) q = elim (at.lookup username) [
    | found stored ↦
        run_hash_task at (change_check id username old new stored)
          (change_finished id PasswordChangeResult.busy) q
    | missing ↦ post (change_finished id PasswordChangeResult.bad_credentials) q
    | fails ↦ post (change_finished id PasswordChangeResult.error) q
  ]
  run_job at (migrate_job id username upgraded) q = post (login_finished id LoginResult.ok) q
  run_job at (replace_job id username upgraded) q =
      post
        (change_finished id
          (if at.updates then PasswordChangeResult.ok else PasswordChangeResult.error))
        q

  -- A thread takes the first task of its queue and runs it; the threads come in any order.
  pub data Step : Queues → Queues → Type 0 where
    write_thread :
        {q : Queues} {job : Job} {rest : List Job} (at : Moment)
        → q.write_queue ≡ job ∷ rest
        → Step q (run_job at job (record q { write_queue = rest }))
    hash_thread :
        {q : Queues} {job : HashJob} {rest : List HashJob} (at : Moment)
        → q.hash_queue ≡ job ∷ rest
        → Step q (run_hash at job (record q { hash_queue = rest }))
