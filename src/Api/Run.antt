-- ===== src/Api/Run.antt =====
-- ingestion.py, the execution of a leased job: `run_job`, `_record_parse_run`, `_fail_job`,
-- `_apply_extracted_fields` and `reprocess_document`. What `run_ingestion` and the storage answer is an
-- argument; the document, the job and the runs of one document are passed as the session holds them.
pub mod Versions
pub mod Outcomes
use mama_gift.Api.Jobs.{
  ApiFailure, conflict, enqueue_parse_job, next_parse_run_version, set_document_status,
  set_job_status,
}
use mama_gift.Api.Leases.Claims.{waiting}
use mama_gift.Api.Models.{Db, Document, Job, ParseRun, Settings, from_parser, parser_failure}
use mama_gift.Api.StateMachine.{
  DocumentStatus, document_status_eq, failed_retryable, failed_terminal, inspecting, job_status_eq,
  normalizing, parse_failed, parsing, queued, queued_for_parse, ready_for_review, running,
  structuring, succeeded, unsupported,
}
use mama_gift.Base.{
  Bool, List, Option, Result, String, [], err, false, guard, if◌then◌else◌, list_eq, ltb, nat_eq,
  none, not, ok, option_eq, some, string_eq, true, value, ℕ, ◌&&◌, ◌++◌, ◌+◌, ◌==◌, ◌>>=◌, ◌>>◌,
  ◌∷◌,
}
use mama_gift.Docpipe.Errors.{
  ParserError, ParserErrorCode, encrypted_pdf, invalid_pdf, normalization_failure, parser_error,
  parser_strategy_undecided, unsupported_input,
}

-- An extracted field of a canonical document, as the API reads it.
pub record ExtractedField : Type 0 where
  pub name : String
  pub normalized_value : Option String

-- What the API reads of the result of `run_ingestion`.
pub record IngestionResult : Type 0 where
  pub extracted_fields : List ExtractedField
  pub requires_user_review : Bool
  pub route : String
  pub strategy_decided : Bool
  pub degraded : Bool

-- How the steps in the `try` of `run_job` end: the strategy, the path and the pipeline are good; the
-- strategy file raises before the document is PARSING; the storage raises there too; the pipeline
-- raises; something else raises, before or in the pipeline.
pub data Attempt : Type 0 where
  ingested : IngestionResult → Attempt
  strategy_failed : ParserError → Attempt
  storage_failed : String → Attempt
  parser_failed : ParserError → Attempt
  crashed_inspecting crashed_parsing : String → Attempt

-- TERMINAL_PARSER_CODES
unfoldable pub is_terminal_code : ParserErrorCode → Bool
is_terminal_code encrypted_pdf = true
is_terminal_code invalid_pdf = true
is_terminal_code unsupported_input = true
is_terminal_code normalization_failure = true
is_terminal_code parser_strategy_undecided = true
is_terminal_code _ = false

-- UNSUPPORTED_PARSER_CODES
unfoldable pub is_unsupported_code : ParserErrorCode → Bool
is_unsupported_code encrypted_pdf = true
is_unsupported_code invalid_pdf = true
is_unsupported_code _ = false

unfoldable pub field_value : List ExtractedField → String → Option String
field_value [] name = none
field_value (f ∷ fs) name = if f.name == name then f.normalized_value else field_value fs name

-- `_as_date(...).date()`, by the parser of ISO dates of the standard library
unfoldable pub as_date : (String → Option ℕ) → Option String → Option ℕ
as_date from_iso none = none
as_date from_iso (some value) = from_iso value

unfoldable pub apply_extracted_fields : (String → Option ℕ) → Document → IngestionResult → Document
unfolding field_value as_date
apply_extracted_fields from_iso document result = record document {
  document_type = field_value result.extracted_fields "document_type";
  document_number = field_value result.extracted_fields "document_number";
  title = field_value result.extracted_fields "title";
  issuer = field_value result.extracted_fields "issuer";
  signer = field_value result.extracted_fields "signer";
  issued_date = as_date from_iso (field_value result.extracted_fields "issue_date");
  deadline = as_date from_iso (field_value result.extracted_fields "deadline");
  requires_user_review = result.requires_user_review;
}

-- previous.is_current = False, for the runs of the document
unfoldable pub retire_runs : String → List ParseRun → List ParseRun
retire_runs document_id [] = []
retire_runs document_id (r ∷ rs) =
    (if r.document_id == document_id then record r { is_current = false } else r)
    ∷ retire_runs document_id rs

unfoldable pub record_parse_run :
    List ParseRun → Document → Job → IngestionResult → String → List ParseRun × Document × ParseRun
unfolding retire_runs next_parse_run_version
record_parse_run runs document job result fresh_id =
    let run : ParseRun = record {
      id = fresh_id;
      document_id = document.id;
      job_id = some job.id;
      version = next_parse_run_version runs document.id;
      is_current = true;
      strategy_decided = result.strategy_decided;
      degraded = result.degraded;
      route = result.route;
      requires_user_review = result.requires_user_review;
    } in
    (
      retire_runs document.id runs ++ (run ∷ []),
      record document { current_parse_run_id = some fresh_id },
      run,
    )

abbrev pub with_error : ParserError → Document → Document
with_error error document = record document {
  error_code = some (from_parser error.code);
  error_message = some error.message;
}

-- the job as both branches of `_fail_job` first leave it
abbrev pub failed_attempt : ParserError → Job → Job
failed_attempt error job = record job {
  attempt = job.attempt + 1;
  leased_by = none;
  lease_expires_at = none;
  error = some (parser_failure error);
}

unfoldable pub fail_job :
    Job → Document → ParserError → Settings → ℕ → Result ApiFailure (Job × Document)
unfolding is_terminal_code is_unsupported_code set_job_status set_document_status
fail_job job document error settings now =
    let tried = failed_attempt error job in
    if error.retryable && not (is_terminal_code error.code) && ltb tried.attempt tried.max_attempts
    then (do
      failed ← set_job_status tried failed_retryable
      waiting ← set_job_status failed queued
      document' ← set_document_status document queued_for_parse
      ok (
        record waiting { available_at = some (now + settings.job_retry_backoff_seconds) },
        with_error error document',
      ))
    else (do
      failed ← set_job_status tried failed_terminal
      document' ←
          set_document_status document
            (if is_unsupported_code error.code then unsupported else parse_failed)
      ok (failed, with_error error document'))

-- the last part of `run_job`, behind the `try`
unfoldable pub finish_job :
    (String → Option ℕ)
    → List ParseRun
    → Job
    → Document
    → IngestionResult
    → String
    → Result ApiFailure (Job × Document × List ParseRun)
unfolding apply_extracted_fields record_parse_run set_job_status set_document_status
finish_job from_iso runs job document result fresh_id = do
  normalizing_document ← set_document_status document normalizing
  structured ← set_document_status normalizing_document structuring
  let recorded = record_parse_run runs structured job result fresh_id
  let filled = apply_extracted_fields from_iso recorded.1 result
  done ←
      set_job_status
        (record job {
          attempt = job.attempt + 1;
          leased_by = none;
          lease_expires_at = none;
          error = none;
        })
        succeeded
  reviewed ← set_document_status filled ready_for_review
  ok (done, reviewed, recorded.0)

-- How `run_job` ends: with a new run, with a recorded failure, or with an exception that leaves it,
-- beside the rows as they were last committed.
pub data JobEnd : Type 0 where
  new_run : Job → Document → List ParseRun → JobEnd
  recorded_failure : Job → Document → JobEnd
  raised : Job → Document → JobEnd

abbrev pub or_raised : Job → Document → Result ApiFailure JobEnd → JobEnd
or_raised job document (ok e) = e
or_raised job document (err x) = raised job document

abbrev pub recorded : Result ApiFailure (Job × Document) → Result ApiFailure JobEnd
recorded (ok r) = ok (recorded_failure r.0 r.1)
recorded (err x) = err x

-- `begun` and `parsing` are the rows at the two commits in front of the pipeline.
unfoldable pub run_attempt :
    (String → Option ℕ) → Settings → ℕ → String → List ParseRun → Job → Document → Attempt → JobEnd
unfolding fail_job finish_job parser_error
run_attempt from_iso settings now fresh_id runs job begun (strategy_failed error) =
    or_raised job begun (recorded (fail_job job begun error settings now))
run_attempt from_iso settings now fresh_id runs job begun (storage_failed message) =
    or_raised job begun (
      recorded
        (fail_job job begun (parser_error unsupported_input message "storage" none) settings now))
run_attempt from_iso settings now fresh_id runs job begun (crashed_inspecting message) =
    raised job begun
run_attempt from_iso settings now fresh_id runs job begun (parser_failed error) =
    elim (set_document_status begun parsing) [
      | err x ↦ raised job begun
      | ok document ↦ or_raised job document (recorded (fail_job job document error settings now))
    ]
run_attempt from_iso settings now fresh_id runs job begun (crashed_parsing message) =
    elim (set_document_status begun parsing) [
      | err x ↦ raised job begun
      | ok document ↦ raised job document
    ]
run_attempt from_iso settings now fresh_id runs job begun (ingested result) =
    elim (set_document_status begun parsing) [
      | err x ↦ raised job begun
      | ok document ↦ or_raised job document (do
        done ← finish_job from_iso runs job document result fresh_id
        ok (new_run done.0 done.1 done.2))
    ]

-- the job and the document at the first commit of `run_job`
unfoldable pub begin_job : Job → Document → Result ApiFailure (Job × Document)
unfolding set_job_status set_document_status
begin_job job document = do
  started ← set_job_status job running
  begun ← set_document_status document inspecting
  ok (started, record begun { error_code = none; error_message = none })

unfoldable pub run_job :
    (String → Option ℕ) → Settings → ℕ → String → List ParseRun → Job → Document → Attempt → JobEnd
unfolding begin_job run_attempt
run_job from_iso settings now fresh_id runs job document attempt = elim (begin_job job document) [
  | err x ↦ raised job document
  | ok begun ↦ run_attempt from_iso settings now fresh_id runs begun.0 begun.1 attempt
]

-- the statuses of a document that is being processed
unfoldable pub in_progress : DocumentStatus → Bool
in_progress queued_for_parse = true
in_progress inspecting = true
in_progress parsing = true
in_progress normalizing = true
in_progress structuring = true
in_progress _ = false

unfoldable pub reprocess_document :
    Db → Document → Settings → String → String → ℕ → Result ApiFailure (Db × Document × Job)
unfolding in_progress enqueue_parse_job
reprocess_document db document settings why fresh_id now = do
  guard (not (in_progress document.status)) conflict
  guard (not (document.status == unsupported)) conflict
  enqueue_parse_job db document why settings.job_max_attempts fresh_id now
