-- ===== src/Examples/Samples.antt =====
-- Data that several modules of examples share.
use mama_gift.Api.Models.{Db, Document, Job, Settings}
use mama_gift.Api.StateMachine.{
  DocumentStatus, JobStatus, document_status_eq, job_status_eq, parsing, queued, queued_for_parse,
  running, uploaded,
}
use mama_gift.Base.{
  List, Option, String, Text, [], false, list_eq, nat_eq, none, option_eq, some, string_eq, ℕ, ◌∷◌,
}
use mama_gift.Retrieval.Budget.{EvidenceBudget}
use mama_gift.Retrieval.Chunk.{Chunk, Retriever, ScoredChunk, paragraph}
use mama_gift.Retrieval.Scope.{EvidenceScope}

abbrev pub sample_chunk : String → Option ℕ → Text → Chunk
sample_chunk id version text = record {
  chunk_id = id;
  parent_chunk_id = none;
  document_id = "doc";
  parse_run_id = "run";
  document_version = version;
  document_type = none;
  document_number = none;
  issuer = none;
  issued_date = none;
  section_path = [];
  chunk_type = paragraph;
  text = text;
  source_block_ids = "b1" ∷ [];
  source_page_numbers = 1 ∷ [];
  metadata = [];
}

abbrev pub scored : Chunk → ScoredChunk ℕ
scored c = record { chunk = c; score = 0; rank = 1; retriever = Retriever.fused }

abbrev pub one_document : EvidenceScope
one_document = record {
  family_id = "home";
  user_id = none;
  thread_id = none;
  document_id = some "doc";
  document_version = some 1;
  parse_run_id = some "run";
  archive_scope = false;
}

abbrev pub small_budget : EvidenceBudget
small_budget = record {
  selected_document_chars = 5;
  conversation_short_term_chars = 0;
  user_long_term_memory_chars = 0;
  episodic_memory_chars = 0;
  archive_semantic_chars = 4;
}

abbrev pub two_chunks : List (ScoredChunk ℕ)
two_chunks =
    scored (sample_chunk "a" (some 1) (1 ∷ 2 ∷ 3 ∷ []))
    ∷ scored (sample_chunk "b" (some 1) (4 ∷ 5 ∷ 6 ∷ []))
    ∷ []

abbrev pub sample_document : DocumentStatus → Document
sample_document status = record {
  id = "doc";
  byte_size = 10;
  checksum_sha256 = "sum";
  storage_uri = "uri";
  status = status;
  current_parse_run_id = none;
  document_type = none;
  document_number = none;
  title = none;
  issuer = none;
  signer = none;
  issued_date = none;
  deadline = none;
  requires_user_review = false;
  error_code = none;
  error_message = none;
}

abbrev pub sample_job : JobStatus → Job
sample_job status = record {
  id = "job";
  document_id = "doc";
  status = status;
  attempt = 0;
  max_attempts = 3;
  idempotency_key = 1 ∷ [];
  leased_by = none;
  lease_expires_at = none;
  available_at = none;
  error = none;
  created_at = 0;
}

abbrev pub sample_settings : Settings
sample_settings = record {
  max_upload_bytes = 100;
  job_lease_seconds = 300;
  job_max_attempts = 3;
  job_retry_backoff_seconds = 30;
}

abbrev pub empty_db : Db
empty_db = record { documents = sample_document uploaded ∷ []; jobs = []; parse_runs = [] }

abbrev pub busy_db : Db
busy_db = record {
  documents = sample_document parsing ∷ [];
  jobs = sample_job running ∷ [];
  parse_runs = [];
}

abbrev pub waiting_db : Db
waiting_db = record {
  documents = sample_document queued_for_parse ∷ [];
  jobs = sample_job queued ∷ [];
  parse_runs = [];
}
