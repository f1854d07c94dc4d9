-- ===== src/Api/Models.antt =====
-- models.py, as far as ingestion reads and writes it: the rows, and the tables of a session. The
-- times are numbers on one clock. `updated_at`, which nothing reads, is left out.
use mama_gift.Api.StateMachine.{DocumentStatus, JobStatus, document_status_eq, job_status_eq}
use mama_gift.Base.{
  Bool, List, Option, String, Text, [], if◌then◌else◌, list_eq, nat_eq, none, option_eq, some,
  string_eq, ℕ, ◌==◌, ◌∷◌,
}
use mama_gift.Docpipe.Errors.{ParserError, ParserErrorCode}

-- The `error_code` column: a parser's code, or the `code` of another exception.
pub data DocumentErrorCode : Type 0 where
  from_parser : ParserErrorCode → DocumentErrorCode
  from_exception : String → DocumentErrorCode

pub record Document : Type 0 where
  pub id : String
  pub byte_size : ℕ
  pub checksum_sha256 : String
  pub storage_uri : String
  pub status : DocumentStatus
  pub current_parse_run_id : Option String
  pub document_type : Option String
  pub document_number : Option String
  pub title : Option String
  pub issuer : Option String
  pub signer : Option String
  pub issued_date : Option ℕ
  pub deadline : Option ℕ
  pub requires_user_review : Bool
  pub error_code : Option DocumentErrorCode
  pub error_message : Option String

-- The `error` column of a job: the reason it was queued for, or what went wrong.
pub data JobNote : Type 0 where
  reason : String → JobNote
  parser_failure : ParserError → JobNote
  processing_failure : String → String → JobNote

pub record Job : Type 0 where
  pub id : String
  pub document_id : String
  pub status : JobStatus
  pub attempt : ℕ
  pub max_attempts : ℕ
  pub idempotency_key : Text
  pub leased_by : Option String
  pub lease_expires_at : Option ℕ
  pub available_at : Option ℕ
  pub error : Option JobNote
  pub created_at : ℕ

pub record ParseRun : Type 0 where
  pub id : String
  pub document_id : String
  pub job_id : Option String
  pub version : ℕ
  pub is_current : Bool
  pub strategy_decided : Bool
  pub degraded : Bool
  pub route : String
  pub requires_user_review : Bool

-- The tables, each in the order of insertion.
pub record Db : Type 0 where
  pub documents : List Document
  pub jobs : List Job
  pub parse_runs : List ParseRun

-- What ingestion reads of settings.py.
pub record Settings : Type 0 where
  pub max_upload_bytes : ℕ
  pub job_lease_seconds : ℕ
  pub job_max_attempts : ℕ
  pub job_retry_backoff_seconds : ℕ

-- session.get(Document, id)
unfoldable pub get_document : String → List Document → Option Document
get_document id [] = none
get_document id (d ∷ ds) = if d.id == id then some d else get_document id ds

-- the flush of a changed row
unfoldable pub put_document : Document → List Document → List Document
put_document d [] = []
put_document d (e ∷ es) = if e.id == d.id then d ∷ es else e ∷ put_document d es

unfoldable pub put_job : Job → List Job → List Job
put_job j [] = []
put_job j (k ∷ ks) = if k.id == j.id then j ∷ ks else k ∷ put_job j ks
