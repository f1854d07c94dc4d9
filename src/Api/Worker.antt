-- ===== src/Api/Worker.antt =====
-- worker.py: `process_next_job` and `drain`, without the optional indexing behind a parse, and the
-- record of an exception that leaves `run_job`.
pub mod Ends
use mama_gift.Api.Jobs.{ApiFailure, out_of_keys, set_document_status, set_job_status}
use mama_gift.Api.Leases.{lease_next_job}
use mama_gift.Api.Models.{
  Db, Document, Job, Settings, from_exception, get_document, processing_failure, put_document,
  put_job,
}
use mama_gift.Api.Run.{Attempt, JobEnd, new_run, raised, recorded_failure, run_job}
use mama_gift.Api.StateMachine.{
  can_transition_document, document_status_eq, failed_terminal, indexing, job_status_eq,
  parse_failed, ready_for_review, unsupported,
}
use mama_gift.Base.{
  Bool, List, Option, Result, String, [], contains, err, false, if◌then◌else◌, list_eq, nat_eq,
  none, ok, option_eq, some, string_eq, true, ℕ, ◌+◌, ◌==◌, ◌>>=◌, ◌>>◌, ◌∷◌,
}

-- What an exception tells: its `code`, if it has one, and its text.
pub record Raised : Type 0 where
  pub code : Option String
  pub message : String

abbrev pub code_of : Raised → String
code_of exc = elim exc.code [ none ↦ "processing_failure" | some c ↦ c ]

-- the branches on the status of the failed document; the last one writes past the guard
unfoldable pub fail_document : Document → Result ApiFailure Document
unfolding set_document_status can_transition_document
fail_document document =
    if contains document.status (parse_failed ∷ unsupported ∷ [])
    then ok document
    else if can_transition_document document.status parse_failed
    then set_document_status document parse_failed
    else if document.status == ready_for_review
    then (do
      indexed ← set_document_status document indexing
      set_document_status indexed parse_failed)
    else ok (record document { status = parse_failed })

unfoldable pub fail_raised_job : Job → Raised → Result ApiFailure Job
unfolding set_job_status
fail_raised_job job exc =
    set_job_status
      (record job {
        attempt = job.attempt + 1;
        leased_by = none;
        lease_expires_at = none;
        error = some (processing_failure (code_of exc) exc.message);
      })
      failed_terminal

unfoldable pub handle_job_failure : Job → Document → Raised → Result ApiFailure (Job × Document)
unfolding fail_document fail_raised_job
handle_job_failure job document exc = do
  ended ← fail_raised_job job exc
  document' ← fail_document (record document {
    error_code = some (from_exception (code_of exc));
    error_message = some exc.message;
  })
  ok (ended, document')

-- the ApiError that `run_job` raises for a document that is not there, and its record on the job alone
abbrev pub missing_document : Raised
missing_document = record { code = some "not_found"; message = "document not found" }

unfoldable pub settle_missing : Db → Job → Result ApiFailure Db
unfolding fail_raised_job
settle_missing db job = do
  ended ← fail_raised_job job missing_document
  ok (record db { jobs = put_job ended db.jobs })

-- The tables after a job has ended; an exception is recorded at the rows that were committed.
unfoldable pub settle : Db → JobEnd → Raised → Result ApiFailure Db
unfolding handle_job_failure
settle db (new_run job document runs) exc = ok (record db {
  jobs = put_job job db.jobs;
  documents = put_document document db.documents;
  parse_runs = runs;
})
settle db (recorded_failure job document) exc =
    ok (record db { jobs = put_job job db.jobs; documents = put_document document db.documents })
settle db (raised job document) exc = do
  rows ← handle_job_failure job document exc
  ok (record db { jobs = put_job rows.0 db.jobs; documents = put_document rows.1 db.documents })

-- What the world answers to one job: the other sessions at each round of the lease, the end of the
-- attempt, the exception if one is raised, the clock, and the identifier of a new run.
pub record Turn : Type 0 where
  pub others : ℕ → List Job → List Job
  pub attempt : Attempt
  pub exc : Raised
  pub now : ℕ
  pub fresh_id : String

-- A leased job is run, and an exception that leaves `run_job` is recorded.
unfoldable pub run_leased :
    (String → Option ℕ) → Settings → Db → Job → Turn → Option Document → Result ApiFailure Db
unfolding run_job settle settle_missing
run_leased from_iso settings db job turn none = settle_missing db job
run_leased from_iso settings db job turn (some document) =
    settle db
      (run_job from_iso settings turn.now turn.fresh_id db.parse_runs job document turn.attempt)
      turn.exc

-- the turn, by what the lease returns; the fuel of its loop runs out only where other sessions put jobs
-- into the queue meanwhile
unfoldable pub after_lease :
    (String → Option ℕ) → Settings → Turn → Option (Db × Option Job) → Result ApiFailure (Db × Bool)
unfolding run_leased
after_lease from_iso settings turn none = err out_of_keys
after_lease from_iso settings turn (some (db, none)) = ok (db, false)
after_lease from_iso settings turn (some (db, some job)) = do
  settled ← run_leased from_iso settings db job turn (get_document job.document_id db.documents)
  ok (settled, true)

-- One turn of the worker: the tables after it, and whether a job was run.
unfoldable pub process_next_job :
    (String → Option ℕ) → Settings → String → Db → Turn → Result ApiFailure (Db × Bool)
unfolding lease_next_job after_lease
process_next_job from_iso settings worker db turn = do
  found ← lease_next_job turn.others db worker settings turn.now
  after_lease from_iso settings turn found

-- The loop of `drain` over at most as many turns as `max_jobs`; `processed` counts the jobs.
unfoldable pub drain :
    (String → Option ℕ) → Settings → String → Db → List Turn → Result ApiFailure (Db × ℕ)
unfolding process_next_job
drain from_iso settings worker db [] = ok (db, 0)
drain from_iso settings worker db (turn ∷ turns) = do
  step ← process_next_job from_iso settings worker db turn
  elim step.1 [
    | false ↦ ok (step.0, 0)
    | true ↦ (do rest ← drain from_iso settings worker step.0 turns; ok (rest.0, rest.1 + 1))
  ]
