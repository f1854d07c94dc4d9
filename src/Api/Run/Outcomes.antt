-- ===== src/Api/Run/Outcomes.antt =====
-- What `run_job` and `reprocess_document` of ingestion.py end with, on every branch.
use mama_gift.Api.Jobs.{ApiFailure, KeySearch, add_job, conflict, free, illegal, reuse, search_for}
use mama_gift.Api.Jobs.Answers.{Enqueued, Unfinished, enqueue_parse_job_total, search_for_reuse}
use mama_gift.Api.Jobs.Enqueue.{search_for_total}
use mama_gift.Api.Models.{Db, Document, Job, ParseRun, Settings, from_parser, get_document}
use mama_gift.Api.Run.{
  Attempt, JobEnd, crashed_inspecting, crashed_parsing, ingested, is_terminal_code,
  is_unsupported_code, new_run, parser_failed, raised, recorded_failure, reprocess_document,
  run_job, storage_failed, strategy_failed,
}
use mama_gift.Api.StateMachine.{
  DocumentStatus, can_transition_document, document_status_eq, failed_terminal, illegal_document,
  indexing, inspecting, job_status_eq, leased, normalizing, parse_failed, parsing, queued,
  queued_for_parse, ready, ready_for_review, running, structuring, succeeded, unsupported, uploaded,
}
use mama_gift.Base.{
  List, Option, Result, String, [], arith, contains, err, false, if◌then◌else◌, inl, inr, list_eq,
  nat_eq, none, ok, option_eq, refl, some, string_eq, true, ℕ, ◌+◌, ◌<◌, ◌∷◌, ◌≡◌, ◌≤◌, ◌⊎◌,
}
use mama_gift.Docpipe.Errors.{ParserError, parser_error, unsupported_input}

-- One attempt more, and nobody holds the job.
abbrev pub Tried : Job → Job → Type 0
Tried job j =
    (j.id ≡ job.id)
    × (j.max_attempts ≡ job.max_attempts)
    × (j.attempt ≡ job.attempt + 1)
    × (j.leased_by ≡ none)
    × (j.lease_expires_at ≡ none)

-- Back in the queue after the backoff, with its document, while attempts are left.
abbrev pub Retried : Settings → ℕ → ParserError → Job → Document → Type 0
Retried settings now error j d =
    (j.status ≡ queued)
    × (d.status ≡ queued_for_parse)
    × (j.attempt < j.max_attempts)
    × (error.retryable ≡ true)
    × (is_terminal_code error.code ≡ false)
    × (j.available_at ≡ some (now + settings.job_retry_backoff_seconds))

-- Failed for good; an encrypted or broken PDF makes the document unsupported.
abbrev pub GivenUp : ParserError → Job → Document → Type 0
GivenUp error j d =
    (j.status ≡ failed_terminal)
    × (d.status ≡ (if is_unsupported_code error.code then unsupported else parse_failed))
    × ((error.retryable ≡ false)
        ⊎ ((is_terminal_code error.code ≡ true) ⊎ (j.max_attempts ≤ j.attempt)))

abbrev pub FailsWith : Settings → ℕ → ParserError → Job → JobEnd → Type 0
FailsWith settings now error job (recorded_failure j d) =
    Tried job j
    × (d.error_code ≡ some (from_parser error.code))
    × (Retried settings now error j d ⊎ GivenUp error j d)
FailsWith settings now error job _ = ⊥

abbrev pub Succeeds : Job → Document → JobEnd → Type 0
Succeeds job document (new_run j d runs) =
    Tried job j × (j.status ≡ succeeded) × (d.status ≡ ready_for_review) × (d.id ≡ document.id)
Succeeds job document _ = ⊥

-- An exception that is no parser error leaves the job RUNNING, as committed, for the worker to record.
abbrev pub Crashes : Job → DocumentStatus → JobEnd → Type 0
Crashes job status (raised j d) = (j ≡ record job { status = running }) × (d.status ≡ status)
Crashes job status _ = ⊥

abbrev pub EndsAs : Settings → ℕ → Job → Document → Attempt → JobEnd → Type 0
EndsAs settings now job document (ingested result) end = Succeeds job document end
EndsAs settings now job document (strategy_failed error) end = FailsWith settings now error job end
EndsAs settings now job document (storage_failed message) end =
    FailsWith settings now (parser_error unsupported_input message "storage" none) job end
EndsAs settings now job document (parser_failed error) end = FailsWith settings now error job end
EndsAs settings now job document (crashed_inspecting message) end = Crashes job inspecting end
EndsAs settings now job document (crashed_parsing message) end = Crashes job parsing end

-- A leased job whose document is queued ends as the attempt decides, and no transition on its way is
-- refused: a result becomes a new run and a document to review; a parser error counts one attempt and
-- either goes back to the queue, with attempts left, or fails for good; any other exception leaves
-- the rows as they were committed.
pub run_job_ends :
    (from_iso : String → Option ℕ) (settings : Settings) (now : ℕ) (fresh_id : String)
    (runs : List ParseRun) (job : Job) (document : Document) (attempt : Attempt)
    → job.status ≡ leased
    → document.status ≡ queued_for_parse
    → EndsAs settings now job document attempt
        (run_job from_iso settings now fresh_id runs job document attempt)
unfolding run_job
run_job_ends from_iso settings now id runs job document (ingested result) l q = ground arith
run_job_ends from_iso settings now id runs job document (strategy_failed error) l q = ground arith
run_job_ends from_iso settings now id runs job document (storage_failed message) l q = ground arith
run_job_ends from_iso settings now id runs job document (parser_failed error) l q = ground arith
run_job_ends from_iso settings now id runs job document (crashed_inspecting m) l q = ground arith
run_job_ends from_iso settings now id runs job document (crashed_parsing m) l q = ground arith

-- What reprocessing answers, by the status of the document. From INDEXING an unfinished job of the next
-- version is given back; without one the transition is illegal, and no conflict is answered.
abbrev pub Reprocessed :
    DocumentStatus → Db → Document → ℕ → Result ApiFailure (Db × Document × Job) → Type 0
Reprocessed queued_for_parse db document m r = r ≡ err conflict
Reprocessed inspecting db document m r = r ≡ err conflict
Reprocessed parsing db document m r = r ≡ err conflict
Reprocessed normalizing db document m r = r ≡ err conflict
Reprocessed structuring db document m r = r ≡ err conflict
Reprocessed unsupported db document m r = r ≡ err conflict
Reprocessed indexing db document m r =
    ((job : Job) × (r ≡ ok (db, document, job)) × Unfinished db document job)
    ⊎ (r ≡ err (illegal (illegal_document indexing queued_for_parse)))
Reprocessed uploaded db document m r =
    (t : Db × Document × Job) × (r ≡ ok t) × Enqueued db document m t
Reprocessed ready_for_review db document m r =
    (t : Db × Document × Job) × (r ≡ ok t) × Enqueued db document m t
Reprocessed ready db document m r =
    (t : Db × Document × Job) × (r ≡ ok t) × Enqueued db document m t
Reprocessed parse_failed db document m r =
    (t : Db × Document × Job) × (r ≡ ok t) × Enqueued db document m t

module _ (db : Db) (document : Document) (settings : Settings) (why fresh_id : String)
    (now : ℕ) where
  reprocess_passes :
      contains document.status (uploaded ∷ ready_for_review ∷ ready ∷ parse_failed ∷ []) ≡ true
      → get_document document.id db.documents ≡ some document
      → (t : Db × Document × Job) × (reprocess_document db document settings why fresh_id now
          ≡ ok t)
        × Enqueued db document settings.job_max_attempts t
  unfolding reprocess_document can_transition_document
  reprocess_passes h stored =
      let (t, run, e) =
        enqueue_parse_job_total db document why settings.job_max_attempts fresh_id now
          (ground arith) stored in
      (t, ground arith, e)

  reprocess_indexing :
      document.status ≡ indexing
      → (r : KeySearch) → search_for db document ≡ some r
      → Reprocessed indexing db document settings.job_max_attempts
          (reprocess_document db document settings why fresh_id now)
  unfolding reprocess_document add_job
  reprocess_indexing h (reuse job) e = inl (job, ground arith, search_for_reuse db document e)
  reprocess_indexing h (free key) e = inr (ground arith)

  by_status :
      (s : DocumentStatus)
      → document.status ≡ s
      → get_document document.id db.documents ≡ some document
      → Reprocessed s db document settings.job_max_attempts
          (reprocess_document db document settings why fresh_id now)
  unfolding reprocess_document
  by_status queued_for_parse h stored = ground arith
  by_status inspecting h stored = ground arith
  by_status parsing h stored = ground arith
  by_status normalizing h stored = ground arith
  by_status structuring h stored = ground arith
  by_status unsupported h stored = ground arith
  by_status indexing h stored =
      let (r, e) = search_for_total db document in reprocess_indexing h r e
  by_status uploaded h stored = reprocess_passes (rw h refl) stored
  by_status ready_for_review h stored = reprocess_passes (rw h refl) stored
  by_status ready h stored = reprocess_passes (rw h refl) stored
  by_status parse_failed h stored = reprocess_passes (rw h refl) stored

  -- Reprocessing a stored document that is queued, in the pipeline or unsupported is refused with a
  -- conflict. For one that was uploaded, reviewed or indexed, or that failed, it answers as the queue
  -- does: an unfinished job of the next version and no change, or a new job and the document
  -- QUEUED_FOR_PARSE. For one that is being indexed an unfinished job of the next version is given
  -- back; without one the transition is illegal, and no conflict is answered.
  pub reprocess_document_outcome :
      get_document document.id db.documents ≡ some document
      → Reprocessed document.status db document settings.job_max_attempts
          (reprocess_document db document settings why fresh_id now)
  reprocess_document_outcome stored = by_status document.status refl stored
