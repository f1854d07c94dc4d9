-- ===== src/Api/Jobs.antt =====
-- ingestion.py, the queue: status changes, `enqueue_parse_job` and the leases.
pub mod Enqueue
pub mod Answers
use mama_gift.Api.Models.{Db, Document, Job, ParseRun, put_document, reason}
use mama_gift.Api.StateMachine.{
  DocumentStatus, IllegalTransition, JobStatus, assert_document_transition, assert_job_transition,
  document_status_eq, job_status_eq, queued, queued_for_parse, terminal_job_statuses,
}
use mama_gift.Base.{
  List, Option, Result, String, Text, [], codes, contains, decimal, err, if◌then◌else◌, length,
  list_eq, max, nat_eq, none, ok, option_eq, some, string_eq, suc, zero, ℕ, ◌++◌, ◌+◌, ◌==◌, ◌>>=◌,
  ◌>>◌, ◌∷◌,
}

-- The exceptions that leave these functions.
pub data ApiFailure : Type 0 where
  illegal : IllegalTransition → ApiFailure
  conflict unsupported_media_type invalid_pdf_file file_too_large encrypted_file : ApiFailure
  storage_failure not_found : ApiFailure
  out_of_keys : ApiFailure

abbrev pub lift : Result IllegalTransition (Unit {0}) → Result ApiFailure (Unit {0})
lift (ok u) = ok u
lift (err e) = err (illegal e)

unfoldable pub set_document_status : Document → DocumentStatus → Result ApiFailure Document
unfolding assert_document_transition
set_document_status document target = if document.status == target then ok document else do
  lift (assert_document_transition document.status target)
  ok (record document { status = target })

unfoldable pub set_job_status : Job → JobStatus → Result ApiFailure Job
unfolding assert_job_transition
set_job_status job target = do
  lift (assert_job_transition job.status target)
  ok (record job { status = target })

-- select(func.max(ParseRun.version)), with 0 for no row
unfoldable pub max_version : String → List ParseRun → ℕ
max_version document_id [] = 0
max_version document_id (r ∷ rs) =
    let rest = max_version document_id rs in
    if r.document_id == document_id then max r.version rest else rest

unfoldable pub next_parse_run_version : List ParseRun → String → ℕ
unfolding max_version
next_parse_run_version runs document_id = max_version document_id runs + 1

-- f"{document.id}:{PARSE_JOB_KIND}:v{target_version}", with `#{generation}` behind it past the first
unfoldable pub key_of : String → ℕ → ℕ → Text
key_of document_id version generation =
    let base = codes document_id ++ (codes ":parse:v" ++ decimal version) in
    if generation == 0 then base else base ++ (b'#' ∷ decimal generation)

-- select(Job).where(Job.idempotency_key == key)
unfoldable pub find_key : Text → List Job → Option Job
find_key key [] = none
find_key key (j ∷ js) = if j.idempotency_key == key then some j else find_key key js

-- What the loop over the generations ends with: a job that can still run, or a free key.
pub data KeySearch : Type 0 where
  reuse : Job → KeySearch
  free : Text → KeySearch

-- The `while True` loop, on fuel; `none` means that the fuel ran out.
unfoldable pub search_key : ℕ → (ℕ → Text) → List Job → ℕ → Option KeySearch
unfolding find_key
search_key zero key jobs generation = none
search_key (suc fuel) key jobs generation =
    let rest = search_key fuel key jobs (generation + 1) in
    elim (find_key (key generation) jobs) [
      | none ↦ some (free (key generation))
      | some existing ↦
          if contains existing.status terminal_job_statuses then rest else some (reuse existing)
    ]

unfoldable pub new_job : String → String → String → ℕ → Text → ℕ → Job
new_job id document_id why max_attempts key now = record {
  id = id;
  document_id = document_id;
  status = queued;
  attempt = 0;
  max_attempts = max_attempts;
  idempotency_key = key;
  leased_by = none;
  lease_expires_at = none;
  available_at = some now;
  error = if why == "" then none else some (reason why);
  created_at = now;
}

-- The part behind the loop: the new row, and the document's status.
unfoldable pub add_job :
    Db → Document → String → ℕ → String → ℕ → Text → Result ApiFailure (Db × Document × Job)
unfolding set_document_status new_job
add_job db document why max_attempts fresh_id now key =
    let job = new_job fresh_id document.id why max_attempts key now in
    let db' = record db { jobs = db.jobs ++ (job ∷ []) } in
    if document.status == queued_for_parse then ok (db', document, job) else do
      document' ← set_document_status document queued_for_parse
      ok (record db' { documents = put_document document' db'.documents }, document', job)

-- The loop, on one try more than there are jobs, which is enough: `search_key_total`.
unfoldable pub search_for : Db → Document → Option KeySearch
unfolding next_parse_run_version
search_for db document =
    search_key (suc (length db.jobs))
      (key_of document.id (next_parse_run_version db.parse_runs document.id)) db.jobs 0

-- Returns the tables, the document as the session now holds it, and the job.
unfoldable pub enqueue_parse_job :
    Db → Document → String → ℕ → String → ℕ → Result ApiFailure (Db × Document × Job)
enqueue_parse_job db document why max_attempts fresh_id now = elim (search_for db document) [
  | none ↦ err out_of_keys
  | some (reuse job) ↦ ok (db, document, job)
  | some (free key) ↦ add_job db document why max_attempts fresh_id now key
]
