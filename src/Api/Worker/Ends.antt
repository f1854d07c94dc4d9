-- ===== src/Api/Worker/Ends.antt =====
-- Every job ends: a crash is recorded for good, and the retries of a job are bounded.
use mama_gift.Api.Jobs.{ApiFailure}
use mama_gift.Api.Leases.{get_job, lease_next_job}
use mama_gift.Api.Models.{
  Db, Document, Job, ParseRun, Settings, from_exception, get_document, processing_failure,
  put_document, put_job,
}
use mama_gift.Api.Run.{
  Attempt, JobEnd, crashed_inspecting, crashed_parsing, ingested, new_run, parser_failed, raised,
  recorded_failure, run_job, storage_failed, strategy_failed,
}
use mama_gift.Api.Run.Outcomes.{EndsAs, FailsWith, Tried, run_job_ends}
use mama_gift.Api.StateMachine.{
  document_status_eq, failed_terminal, inspecting, job_status_eq, leased, parse_failed, parsing,
  queued, queued_for_parse, running, succeeded,
}
use mama_gift.Api.Worker.{Raised, Turn, code_of, process_next_job, settle}
use mama_gift.Base.{
  Bool-cases, List, Option, Result, String, [], arith, beq_refl, eq_iff, inl, inr, list_eq, nat_eq,
  none, ok, option_eq, refl, some, string_eq, true, ℕ, ◌+◌, ◌<◌, ◌==◌, ◌∷◌, ◌≡◌, ◌⊎◌,
}
use mama_gift.Docpipe.Errors.{ParserError, parser_error, unsupported_input}

-- An exception in the pipeline fails the job for good, with one attempt more, and the document.
pub crash_recorded :
    (from_iso : String → Option ℕ) (settings : Settings) (now : ℕ) (fresh_id : String)
    (runs : List ParseRun) (job : Job) (document : Document) (message : String) (exc : Raised)
    (db : Db)
    → job.status ≡ leased
    → document.status ≡ queued_for_parse
    → (j : Job) × (d : Document) × (settle db
          (run_job from_iso settings now fresh_id runs job document (crashed_parsing message))
          exc
        ≡ ok (record db { jobs = put_job j db.jobs; documents = put_document d db.documents }))
      × Tried job j
      × (j.status ≡ failed_terminal)
      × (d.status ≡ parse_failed)
      × (d.error_code ≡ some (from_exception (code_of exc)))
unfolding settle run_job
crash_recorded from_iso settings now id runs job document message exc db l q = (
  record job {
    status = failed_terminal;
    attempt = job.attempt + 1;
    leased_by = none;
    lease_expires_at = none;
    error = some (processing_failure (code_of exc) exc.message);
  },
  record document {
    status = parse_failed;
    error_code = some (from_exception (code_of exc));
    error_message = some exc.message;
  },
  ground arith,
  (refl, refl, refl, refl, refl),
  refl,
  refl,
  refl,
)

-- Succeeded, failed for good, or back in the queue with attempts left.
abbrev pub Settled : Job → Type 0
Settled j =
    (j.status ≡ succeeded)
    ⊎ ((j.status ≡ failed_terminal) ⊎ ((j.status ≡ queued) × (j.attempt < j.max_attempts)))

-- The row of a job after its turn: one attempt more, held by nobody, and settled.
abbrev pub HasSettled : Job → Result ApiFailure Db → Type 0
HasSettled job r =
    (db : Db) × (j : Job) × (r ≡ ok db)
    × (get_job job.id db.jobs ≡ some j)
    × Tried job j
    × Settled j

get_job-put_job :
    (id : String) (j : Job) (jobs : List Job) {found : Job}
    → j.id ≡ id
    → get_job id jobs ≡ some found
    → get_job id (put_job j jobs) ≡ some j
unfolding get_job put_job
get_job-put_job id j [] e h = absurd (ground arith)
get_job-put_job id j (k ∷ ks) {found} e h = elim (Bool-cases (k.id == id)) [
  | inl here ↦ ground (arith, beq_refl j.id, eq_iff k.id id, eq_iff k.id j.id)
  | inr elsewhere ↦
      let rest = get_job-put_job id j ks {found = found} e (ground arith) in
      ground (arith, eq_iff k.id id, eq_iff k.id j.id)
]

crash-HasSettled :
    (db : Db) (job : Job) (d : Document) (exc : Raised)
    → get_job job.id db.jobs ≡ some job
    → (d.status ≡ inspecting) ⊎ (d.status ≡ parsing)
    → HasSettled job (settle db (raised (record job { status = running }) d) exc)
unfolding settle
crash-HasSettled db job d exc held s =
    let j = record job {
      status = failed_terminal;
      attempt = job.attempt + 1;
      leased_by = none;
      lease_expires_at = none;
      error = some (processing_failure (code_of exc) exc.message);
    } in
    let d' = record d {
      status = parse_failed;
      error_code = some (from_exception (code_of exc));
      error_message = some exc.message;
    } in
    (
      record db { jobs = put_job j db.jobs; documents = put_document d' db.documents },
      j,
      ground arith,
      get_job-put_job job.id j db.jobs refl held,
      (refl, refl, refl, refl, refl),
      inr (inl refl),
    )

failure-HasSettled :
    (settings : Settings) (now : ℕ) (error : ParserError) (db : Db) (job : Job) (end : JobEnd)
    (exc : Raised)
    → get_job job.id db.jobs ≡ some job
    → FailsWith settings now error job end
    → HasSettled job (settle db end exc)
unfolding settle
failure-HasSettled settings now error db job (recorded_failure j d) exc held f = (
  record db { jobs = put_job j db.jobs; documents = put_document d db.documents },
  j,
  refl,
  get_job-put_job job.id j db.jobs f.0.0 held,
  f.0,
  elim f.2 [ inl again ↦ inr (inr (again.0, again.2)) | inr over ↦ inr (inl over.0) ],
)
failure-HasSettled settings now error db job (new_run j d rs) exc held f = absurd f
failure-HasSettled settings now error db job (raised j d) exc held f = absurd f

EndsAs-HasSettled :
    (settings : Settings) (now : ℕ) (db : Db) (job : Job) (document : Document) (attempt : Attempt)
    (end : JobEnd) (exc : Raised)
    → get_job job.id db.jobs ≡ some job
    → EndsAs settings now job document attempt end
    → HasSettled job (settle db end exc)
unfolding settle
EndsAs-HasSettled settings now db job document (ingested r) (new_run j d rs) exc held e = (
  record db { jobs = put_job j db.jobs; documents = put_document d db.documents; parse_runs = rs },
  j,
  refl,
  get_job-put_job job.id j db.jobs e.0.0 held,
  e.0,
  inl e.1,
)
EndsAs-HasSettled settings now db job document (ingested r) (recorded_failure j d) exc held e =
    absurd e
EndsAs-HasSettled settings now db job document (ingested r) (raised j d) exc held e = absurd e
EndsAs-HasSettled settings now db job document (strategy_failed x) end exc held e =
    failure-HasSettled settings now x db job end exc held e
EndsAs-HasSettled settings now db job document (storage_failed m) end exc held e =
    failure-HasSettled settings now (parser_error unsupported_input m "storage" none) db job end exc
      held e
EndsAs-HasSettled settings now db job document (parser_failed x) end exc held e =
    failure-HasSettled settings now x db job end exc held e
EndsAs-HasSettled settings now db job document (crashed_inspecting m) (raised j d) exc held e =
    rw (e.0) (crash-HasSettled db job d exc held (inl e.1))
EndsAs-HasSettled settings now db job document (crashed_inspecting m) (new_run j d rs) exc held e =
    absurd e
EndsAs-HasSettled settings now db job document (crashed_inspecting m) (recorded_failure j d) exc
      held e =
    absurd e
EndsAs-HasSettled settings now db job document (crashed_parsing m) (raised j d) exc held e =
    rw (e.0) (crash-HasSettled db job d exc held (inr e.1))
EndsAs-HasSettled settings now db job document (crashed_parsing m) (new_run j d rs) exc held e =
    absurd e
EndsAs-HasSettled settings now db job document (crashed_parsing m) (recorded_failure j d) exc held
      e =
    absurd e

-- Where a turn of the worker leases a stored job whose document is in the queue, it raises nothing
-- and reports a job, whatever the attempt ends with: in the tables behind it the row of the job counts
-- one attempt more, is held by nobody, and has succeeded, has failed for good, or is back in the queue
-- with attempts left.
pub process_next_job-Settled :
    (from_iso : String → Option ℕ) (settings : Settings) (worker : String) (db db' : Db)
    (turn : Turn) (job : Job) (document : Document)
    → lease_next_job turn.others db worker settings turn.now ≡ ok (some (db', some job))
    → get_job job.id db'.jobs ≡ some job
    → job.status ≡ leased
    → get_document job.document_id db'.documents ≡ some document
    → document.status ≡ queued_for_parse
    → (after : Db) × (j : Job) × (process_next_job from_iso settings worker db turn
        ≡ ok (after, true))
      × (get_job job.id after.jobs ≡ some j)
      × Tried job j
      × Settled j
unfolding process_next_job
process_next_job-Settled from_iso settings worker db db' turn job document won held l stored q =
    let end =
      run_job from_iso settings turn.now turn.fresh_id db'.parse_runs job document turn.attempt in
    let (after, j, run, found, tried, settled) =
      EndsAs-HasSettled settings turn.now db' job document turn.attempt end turn.exc held (
        run_job_ends from_iso settings turn.now turn.fresh_id db'.parse_runs job document
          turn.attempt l q) in
    (after, j, rw (won, stored, run) refl, found, tried, settled)
