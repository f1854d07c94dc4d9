-- ===== src/Rag/Service.antt =====
-- service.py: the pipeline from a question to a grounded answer about one document. The index, the two
-- retrievers, the reranker and the model are parameters, and so is the reading of the model's JSON;
-- each may return anything or raise.
pub mod Answers
pub mod Laws
pub mod Total
use mama_gift.Base.{
  Bool, List, Option, Result, String, Text, [], err, false, guard, if◌then◌else◌, list_eq, nat_eq,
  none, not, ok, option_eq, some, string_eq, true, ℕ, ◌==◌, ◌>>=◌, ◌>>◌, ◌∷◌,
}
use mama_gift.Rag.Prompt.{build_grounded_prompt}
use mama_gift.Rag.Providers.{
  Completion, Failure, Providers, QaConfig, Reading, WorkerErrorCode, abstention_text, failed_text,
  model_not_loaded, not_indexed_text, other_error, read, rejected, timeout, unavailable,
  unavailable_text, unknown_model, unreadable, worker_error,
}
use mama_gift.Rag.Validation.{
  AnswerStatus, ModelRef, QaAnswer, ai_worker_unavailable, failed, insufficient_evidence,
  parse_and_validate_answer,
}
use mama_gift.Retrieval.Chunk.{ScoredChunk}
use mama_gift.Retrieval.Errors.{RetrievalError}
use mama_gift.Retrieval.Evidence.{Evidence, EvidenceSet, assemble_evidence}
use mama_gift.Retrieval.Expansion.{expand_evidence, max_ancestor_depth}
use mama_gift.Retrieval.Fusion.{ScoreOps, reciprocal_rank_fusion}
use mama_gift.Retrieval.Provenance.{chunk_scope}
use mama_gift.Retrieval.Scope.{EvidenceScope, scope_matches}

-- an exception of the retrieval package inside the pipeline
abbrev pub lift_retrieval {ℓ} : {A : Type ℓ} → Result RetrievalError A → Result Failure A
lift_retrieval (ok a) = ok a
lift_retrieval (err e) = err other_error

abbrev pub lift_option {ℓ} : {A : Type ℓ} → Option A → Result Failure A
lift_option (some a) = ok a
lift_option none = err other_error

unfoldable pub validate_request_scope : EvidenceScope → Result Failure (Unit {0})
validate_request_scope scope = do
  guard (not scope.archive_scope) other_error
  guard (not (scope.document_id == none)) other_error
  guard (not (scope.document_version == none)) other_error
  guard (not (scope.parse_run_id == none)) other_error

-- the codes that mean that the worker cannot be reached
unfoldable pub is_unavailable : WorkerErrorCode → Bool
is_unavailable unavailable = true
is_unavailable timeout = true
is_unavailable model_not_loaded = true
is_unavailable _ = false

-- The parse of an answer without a status fails, and its failed answer is given the text and status.
unfoldable pub fallback_answer : Text → AnswerStatus → ModelRef → EvidenceSet → QaAnswer
unfolding parse_and_validate_answer
fallback_answer text status model evidence =
    record (parse_and_validate_answer none evidence model) {
      answer = text;
      status = status;
      citations = [];
    }

unfoldable pub finish : QaAnswer → String → QaAnswer
finish answer query_id = record answer { query_id = query_id }

-- the answer for a failure, over the evidence at hand
unfoldable pub failure_answer : Failure → EvidenceSet → String → QaAnswer
unfolding is_unavailable fallback_answer finish
failure_answer other_error evidence query_id =
    finish (fallback_answer failed_text failed unknown_model evidence) query_id
failure_answer (worker_error code) evidence query_id =
    if is_unavailable code
    then finish (fallback_answer unavailable_text ai_worker_unavailable unknown_model evidence)
        query_id
    else finish (fallback_answer failed_text failed unknown_model evidence) query_id

unfoldable pub completion_model : Completion → ModelRef
completion_model c = record { provider = c.provider; model = c.model; version = "unknown" }

-- the answer for a completion, by the reading of its text
unfoldable pub completion_answer : Reading → ModelRef → EvidenceSet → String → QaAnswer
unfolding parse_and_validate_answer fallback_answer finish
completion_answer (read raw) model evidence query_id =
    finish (parse_and_validate_answer (some raw) evidence model) query_id
completion_answer rejected model evidence query_id =
    finish (parse_and_validate_answer none evidence model) query_id
completion_answer unreadable model evidence query_id =
    finish (fallback_answer failed_text failed model evidence) query_id

-- `_empty_evidence`
unfoldable pub empty_evidence : QaConfig → EvidenceScope → String → Result Failure EvidenceSet
unfolding assemble_evidence
empty_evidence config scope query_id =
    lift_retrieval (assemble_evidence {Score = ℕ} [] scope config.budget query_id)

-- the two `except` clauses, which themselves may raise
unfoldable pub recover : QaConfig → EvidenceScope → String → Failure → Result Failure QaAnswer
unfolding empty_evidence failure_answer
recover config scope query_id failure = do
  evidence ← empty_evidence config scope query_id
  ok (failure_answer failure evidence query_id)

unfoldable pub or_recover :
    QaConfig → EvidenceScope → String → Result Failure QaAnswer → Result Failure QaAnswer
unfolding recover
or_recover config scope query_id (ok a) = ok a
or_recover config scope query_id (err failure) = recover config scope query_id failure

module _ {Score : Type 0} where
  unfoldable pub validate_scored :
      List (ScoredChunk Score) → EvidenceScope → Result Failure (Unit {0})
  validate_scored [] scope = ok tt
  validate_scored (c ∷ cs) scope = do
    guard (scope_matches (chunk_scope scope c.chunk) scope) other_error
    validate_scored cs scope

  -- the candidates of a question: both searches, their fusion and the reranking
  unfoldable pub retrieve :
      ScoreOps Score
      → Providers Score
      → QaConfig
      → Text
      → EvidenceScope
      → Result Failure (List (ScoredChunk Score))
  unfolding validate_scored
  retrieve ops providers config question scope = do
    by_terms ← providers.lexical_search question scope config.lexical_top_k
    by_vectors ← providers.dense_search question scope config.dense_top_k
    validate_scored by_terms scope
    validate_scored by_vectors scope
    merged ← lift_retrieval (reciprocal_rank_fusion ops (by_terms ∷ by_vectors ∷ []) (some scope))
    validate_scored merged scope
    best ← providers.rerank question merged config.rerank_top_k
    validate_scored best scope
    ok best

  -- the evidence of the candidates, with their ancestors
  unfoldable pub assemble_candidates :
      QaConfig → EvidenceScope → String → List (ScoredChunk Score) → Result Failure EvidenceSet
  unfolding validate_scored
  assemble_candidates config scope query_id candidates = do
    widened ←
        lift_retrieval
          (expand_evidence candidates scope (some config.chunk_tree) none max_ancestor_depth)
    validate_scored widened scope
    lift_retrieval (assemble_evidence widened scope config.budget query_id)

  unfoldable pub gather_evidence :
      ScoreOps Score
      → Providers Score
      → QaConfig
      → Text
      → EvidenceScope
      → String
      → Result Failure EvidenceSet
  unfolding retrieve assemble_candidates
  gather_evidence ops providers config question scope query_id = do
    candidates ← retrieve ops providers config question scope
    assemble_candidates config scope query_id candidates

  -- the answer for what the provider returned or raised
  unfoldable pub completed_answer :
      Providers Score → EvidenceSet → String → Result Failure Completion → Result Failure QaAnswer
  unfolding failure_answer completion_answer completion_model
  completed_answer providers evidence query_id (ok completion) = ok (
      completion_answer (providers.reading completion.text) (completion_model completion) evidence
        query_id)
  completed_answer providers evidence query_id (err (worker_error code)) =
      ok (failure_answer (worker_error code) evidence query_id)
  completed_answer providers evidence query_id (err other_error) = err other_error

  -- the part behind the assembly, for evidence that is not empty
  unfoldable pub ask_model :
      Providers Score → QaConfig → Text → EvidenceSet → String → Result Failure QaAnswer
  unfolding completed_answer
  ask_model providers config question evidence query_id = do
    messages ← lift_option (build_grounded_prompt question evidence)
    completed_answer providers evidence query_id
        (providers.complete messages config.max_output_tokens)

  unfoldable pub answer_with :
      Providers Score
      → QaConfig
      → Text
      → EvidenceSet
      → String
      → List Evidence
      → Result Failure QaAnswer
  unfolding ask_model fallback_answer finish
  answer_with providers config question evidence query_id [] = ok (
      finish (fallback_answer abstention_text insufficient_evidence unknown_model evidence)
        query_id)
  answer_with providers config question evidence query_id (e ∷ es) =
      ask_model providers config question evidence query_id

  -- the body of the `try`
  unfoldable pub try_answer :
      ScoreOps Score
      → Providers Score
      → QaConfig
      → Text
      → EvidenceScope
      → String
      → Result Failure QaAnswer
  unfolding validate_request_scope empty_evidence gather_evidence answer_with fallback_answer finish
  try_answer ops providers config question scope query_id = do
    validate_request_scope scope
    total ← providers.total_chunks scope
    let indexed : Result Failure QaAnswer = do
      evidence ← gather_evidence ops providers config question scope query_id
      answer_with providers config question evidence query_id evidence.evidence
    let not_indexed : Result Failure QaAnswer = do
      evidence ← empty_evidence config scope query_id
      ok (finish (fallback_answer not_indexed_text failed unknown_model evidence) query_id)
    if total == 0 then not_indexed else indexed

  unfoldable pub answer_question :
      ScoreOps Score
      → Providers Score
      → QaConfig
      → Text
      → EvidenceScope
      → String
      → Result Failure QaAnswer
  unfolding try_answer or_recover
  answer_question ops providers config question scope query_id =
      or_recover config scope query_id (try_answer ops providers config question scope query_id)
