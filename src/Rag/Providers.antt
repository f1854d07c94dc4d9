-- ===== src/Rag/Providers.antt =====
-- service.py: what the question answering service is given, what may go wrong in it, and its fixed texts.
use mama_gift.Base.{List, Result, String, Text, codes, list_eq, nat_eq, option_eq, string_eq, ℕ}
use mama_gift.Rag.Prompt.{ChatMessage}
use mama_gift.Rag.Validation.{ModelRef, RawAnswer}
use mama_gift.Retrieval.Budget.{EvidenceBudget}
use mama_gift.Retrieval.Chunk.{Chunk, ScoredChunk}
use mama_gift.Retrieval.Scope.{EvidenceScope}

-- contracts: WorkerErrorCode
pub data WorkerErrorCode : Type 0 where
  unauthorized timeout unavailable model_not_loaded bad_request upstream_error : WorkerErrorCode

-- What leaves a step: a `WorkerError`, or any other exception.
pub data Failure : Type 0 where
  worker_error : WorkerErrorCode → Failure
  other_error : Failure

-- the completion that a provider returns
pub record Completion : Type 0 where
  pub text : Text
  pub provider : String
  pub model : String

-- How the reading of the model's text ends: with a raw answer, with an error that the validation
-- catches, or with another exception.
pub data Reading : Type 0 where
  read : RawAnswer → Reading
  rejected unreadable : Reading

pub record Providers (Score : Type 0) : Type 0 where
  pub total_chunks : EvidenceScope → Result Failure ℕ
  pub lexical_search : Text → EvidenceScope → ℕ → Result Failure (List (ScoredChunk Score))
  pub dense_search : Text → EvidenceScope → ℕ → Result Failure (List (ScoredChunk Score))
  pub rerank : Text → List (ScoredChunk Score) → ℕ → Result Failure (List (ScoredChunk Score))
  pub complete : List ChatMessage → ℕ → Result Failure Completion
  pub reading : Text → Reading

pub record QaConfig : Type 0 where
  pub chunk_tree : List Chunk
  pub budget : EvidenceBudget
  pub lexical_top_k : ℕ
  pub dense_top_k : ℕ
  pub rerank_top_k : ℕ
  pub max_output_tokens : ℕ

abbrev pub unknown_model : ModelRef
unknown_model = record { provider = "unknown"; model = "unknown"; version = "unknown" }

abbrev pub abstention_text : Text
abstention_text = codes "Không đủ bằng chứng trong tài liệu để trả lời câu hỏi này."

abbrev pub not_indexed_text : Text
not_indexed_text = codes "Tài liệu chưa được lập chỉ mục."

abbrev pub failed_text : Text
failed_text = codes "Không thể hoàn tất việc trả lời dựa trên tài liệu này."

abbrev pub unavailable_text : Text
unavailable_text = codes "Trợ lý AI hiện không khả dụng. Vui lòng thử lại sau."
