-- ===== src/Rag/ArchiveService.antt =====
-- archive_service.py: the pipeline from a question to a grounded answer over the whole archive. What
-- the retriever is built on, the model and the reading of its JSON are parameters, each of which may
-- return anything or raise; a date is a day number, and the confidence of a relation is left out.
pub mod Grouping
pub mod Groups
pub mod Relations
pub mod Answers
pub mod Laws
use mama_gift.Base.{
  Bool, List, Option, Result, String, Text, [], codes, err, guard, if◌then◌else◌, list_eq, nat_eq,
  none, ok, option_eq, some, string_eq, ℕ, ◌==◌, ◌>>=◌, ◌>>◌, ◌∷◌,
}
use mama_gift.Rag.ArchiveService.Grouping.{
  ArchiveDocumentGroup, ArchiveRelationRef, build_groups, filter_relations,
}
use mama_gift.Rag.Prompt.{ChatMessage, build_grounded_prompt}
use mama_gift.Rag.Providers.{
  Completion, Failure, Reading, WorkerErrorCode, other_error, read, rejected, unavailable_text,
  unknown_model, unreadable, worker_error,
}
use mama_gift.Rag.Service.{completion_model, is_unavailable, lift_option, lift_retrieval}
use mama_gift.Rag.Validation.{
  AnswerStatus, Citation, ModelRef, QaAnswer, ai_worker_unavailable, answered, failed,
  insufficient_evidence, parse_and_validate_answer,
}
use mama_gift.Retrieval.ArchiveEvidence.{assemble_archive_evidence}
use mama_gift.Retrieval.ArchiveRetriever.{
  ArchiveDocumentRef, ArchiveProviders, ArchiveRetrievalResult, RetrieverConfig, retrieve_archive,
}
use mama_gift.Retrieval.Budget.{EvidenceBudget}
use mama_gift.Retrieval.Evidence.{Evidence, EvidenceSet}
use mama_gift.Retrieval.Freshness.{resolve_freshness}
use mama_gift.Retrieval.Fusion.{ScoreOps}
use mama_gift.Retrieval.Scope.{EvidenceScope}

pub record ArchiveChat : Type 0 where
  pub complete : List ChatMessage → ℕ → Result Failure Completion
  pub reading : Text → Reading

pub record ArchiveQaConfig : Type 0 where
  pub retriever : RetrieverConfig
  pub budget : EvidenceBudget
  pub max_output_tokens : ℕ

-- _ARCHIVE_BUDGET
abbrev pub archive_budget : EvidenceBudget
archive_budget = record {
  selected_document_chars = 0;
  conversation_short_term_chars = 0;
  user_long_term_memory_chars = 0;
  episodic_memory_chars = 0;
  archive_semantic_chars = 16_000;
}

-- the two defaults of assemble_archive_evidence
abbrev pub archive_max_documents : ℕ
archive_max_documents = 8

abbrev pub archive_char_cap : ℕ
archive_char_cap = 3_000

abbrev pub no_documents_text : Text
no_documents_text = codes "Không tìm thấy văn bản nào phù hợp trong kho tài liệu."

abbrev pub archive_abstention_text : Text
archive_abstention_text = codes "Không đủ bằng chứng trong kho tài liệu để trả lời câu hỏi này."

abbrev pub archive_failed_text : Text
archive_failed_text = codes "Không thể hoàn tất việc trả lời dựa trên kho tài liệu."

pub record ArchiveQaAnswer : Type 0 where
  pub answer : Text
  pub status : AnswerStatus
  pub citations : List Citation
  pub document_groups : List ArchiveDocumentGroup
  pub relations : List ArchiveRelationRef
  pub freshness_caveat : Option Text
  pub query_id : String
  pub model : ModelRef

-- _simple
unfoldable pub simple_answer :
    Text → AnswerStatus → String → ModelRef → Option Text → ArchiveQaAnswer
simple_answer text status query_id model caveat = record {
  answer = text;
  status = status;
  citations = [];
  document_groups = [];
  relations = [];
  freshness_caveat = caveat;
  query_id = query_id;
  model = model;
}

-- ArchiveQaService._validate_request_scope
unfoldable pub validate_archive_request : EvidenceScope → Result Failure (Unit {0})
validate_archive_request scope = do
  guard scope.archive_scope other_error
  guard (scope.document_id == none) other_error
  guard (scope.document_version == none) other_error
  guard (scope.parse_run_id == none) other_error

-- the answer for an error of the worker
unfoldable pub worker_failure : WorkerErrorCode → String → Option Text → ArchiveQaAnswer
unfolding is_unavailable simple_answer
worker_failure code query_id caveat =
    if is_unavailable code
    then simple_answer unavailable_text ai_worker_unavailable query_id unknown_model caveat
    else simple_answer archive_failed_text failed query_id unknown_model caveat

-- the answer for a grouping of the citations; `none` is its ValueError
unfoldable pub grouped_answer :
    QaAnswer
    → List ArchiveRelationRef
    → String
    → ModelRef
    → Option Text
    → Option (List ArchiveDocumentGroup)
    → ArchiveQaAnswer
unfolding simple_answer filter_relations
grouped_answer parsed relations query_id model caveat none =
    simple_answer archive_failed_text failed query_id model caveat
grouped_answer parsed relations query_id model caveat (some groups) = record {
  answer = parsed.answer;
  status = answered;
  citations = parsed.citations;
  document_groups = groups;
  relations = filter_relations relations parsed.citations groups;
  freshness_caveat = caveat;
  query_id = query_id;
  model = model;
}

-- the answer for a validated text, by its status
unfoldable pub settle_archive :
    QaAnswer
    → AnswerStatus
    → List ArchiveRelationRef
    → EvidenceSet
    → List ArchiveDocumentRef
    → String
    → ModelRef
    → Option Text
    → ArchiveQaAnswer
unfolding simple_answer grouped_answer build_groups
settle_archive parsed insufficient_evidence relations evidence documents query_id model caveat =
    simple_answer parsed.answer insufficient_evidence query_id model caveat
settle_archive parsed failed relations evidence documents query_id model caveat =
    simple_answer parsed.answer failed query_id model caveat
settle_archive parsed _ relations evidence documents query_id model caveat =
    grouped_answer parsed relations query_id model caveat
      (build_groups parsed.citations evidence documents)

unfoldable pub settle_parsed :
    QaAnswer
    → List ArchiveRelationRef
    → EvidenceSet
    → List ArchiveDocumentRef
    → String
    → ModelRef
    → Option Text
    → ArchiveQaAnswer
unfolding settle_archive
settle_parsed parsed relations evidence documents query_id model caveat =
    settle_archive parsed parsed.status relations evidence documents query_id model caveat

-- parse_and_validate_answer, by the reading of the text
unfoldable pub parse_reading : Reading → EvidenceSet → ModelRef → Result Failure QaAnswer
unfolding parse_and_validate_answer
parse_reading (read raw) evidence model = ok (parse_and_validate_answer (some raw) evidence model)
parse_reading rejected evidence model = ok (parse_and_validate_answer none evidence model)
parse_reading unreadable evidence model = err other_error

module _ (chat : ArchiveChat) (relations : List ArchiveRelationRef)
    (documents : List ArchiveDocumentRef) (query_id : String) (caveat : Option Text) where
  -- the answer for what the provider returned or raised
  unfoldable pub archive_completed :
      EvidenceSet → Result Failure Completion → Result Failure ArchiveQaAnswer
  unfolding worker_failure parse_reading settle_parsed completion_model
  archive_completed evidence (err (worker_error code)) = ok (worker_failure code query_id caveat)
  archive_completed evidence (err other_error) = err other_error
  archive_completed evidence (ok completion) = do
    parsed ← parse_reading (chat.reading completion.text) evidence (completion_model completion)
    ok (
        settle_parsed parsed relations evidence documents query_id (completion_model completion)
          caveat)

  -- the part behind the assembly
  unfoldable pub archive_answer_with :
      ℕ → Text → EvidenceSet → List Evidence → Result Failure ArchiveQaAnswer
  unfolding simple_answer archive_completed
  archive_answer_with max_output_tokens question evidence [] =
      ok (simple_answer archive_abstention_text insufficient_evidence query_id unknown_model caveat)
  archive_answer_with max_output_tokens question evidence (e ∷ es) = do
    messages ← lift_option (build_grounded_prompt question evidence)
    archive_completed evidence (chat.complete messages max_output_tokens)

module _ {Score : Type 0} where
  -- the part behind the retrieval, by its documents
  unfoldable pub answer_documents :
      ArchiveChat
      → ArchiveQaConfig
      → List ArchiveRelationRef
      → Text
      → EvidenceScope
      → String
      → Option Text
      → ArchiveRetrievalResult Score
      → List ArchiveDocumentRef
      → Result Failure ArchiveQaAnswer
  unfolding simple_answer archive_answer_with
  answer_documents chat config relations question scope query_id caveat r [] =
      ok (simple_answer no_documents_text insufficient_evidence query_id unknown_model none)
  answer_documents chat config relations question scope query_id caveat r (d ∷ ds) = do
    evidence ← lift_retrieval (
        assemble_archive_evidence r.candidates scope config.budget query_id
          (some r.allowed_document_ids) archive_max_documents archive_char_cap)
    archive_answer_with chat relations (d ∷ ds) query_id caveat config.max_output_tokens question
        evidence evidence.evidence

  -- the body of the `try`
  unfoldable pub try_archive_answer :
      ScoreOps Score
      → ArchiveProviders Score
      → ArchiveChat
      → ArchiveQaConfig
      → (Text → String → Bool)
      → List ArchiveRelationRef
      → Text
      → EvidenceScope
      → String
      → Result Failure ArchiveQaAnswer
  unfolding validate_archive_request retrieve_archive resolve_freshness answer_documents
  try_archive_answer ops providers chat config contains_phrase relations question scope query_id =
      do
        validate_archive_request scope
        r ← retrieve_archive ops providers config.retriever question scope
        answer_documents chat config relations question scope query_id
            (resolve_freshness contains_phrase r.documents question).caveat r r.documents

-- the two `except` clauses
unfoldable pub archive_recover : String → Result Failure ArchiveQaAnswer → ArchiveQaAnswer
unfolding worker_failure simple_answer
archive_recover query_id (ok a) = a
archive_recover query_id (err (worker_error code)) = worker_failure code query_id none
archive_recover query_id (err other_error) =
    simple_answer archive_failed_text failed query_id unknown_model none

module _ {Score : Type 0} where
  unfoldable pub answer_archive :
      ScoreOps Score
      → ArchiveProviders Score
      → ArchiveChat
      → ArchiveQaConfig
      → (Text → String → Bool)
      → List ArchiveRelationRef
      → Text
      → EvidenceScope
      → String
      → ArchiveQaAnswer
  unfolding try_archive_answer archive_recover
  answer_archive ops providers chat config contains_phrase relations question scope query_id =
      archive_recover query_id (
        try_archive_answer ops providers chat config contains_phrase relations question scope
          query_id)
