-- ===== src/Rag/Service/Total.antt =====
-- The service answers every question.
use mama_gift.Base.{
  List, Result, String, Text, [], err, inl, list_eq, nat_eq, ok, option_eq, refl, string_eq, ℕ, ◌≡◌,
}
use mama_gift.Rag.Providers.{Failure, Providers, QaConfig}
use mama_gift.Rag.Service.{
  answer_question, empty_evidence, failure_answer, or_recover, recover, try_answer,
}
use mama_gift.Rag.Service.Answers.{Trusted, failure-Trusted}
use mama_gift.Rag.Service.Laws.{FromGathered, try_answer-Trusted}
use mama_gift.Rag.Validation.{Citation, QaAnswer}
use mama_gift.Retrieval.Evidence.{EvidenceSet}
use mama_gift.Retrieval.Evidence.Laws.{Acceptable, assemble_evidence_total}
use mama_gift.Retrieval.Fusion.{ScoreOps}
use mama_gift.Retrieval.Scope.{EvidenceScope}

empty_Acceptable : (scope : EvidenceScope) → Acceptable {Score = ℕ} scope []
empty_Acceptable scope = record { unique = refl; in_request = tt; versioned = tt }

-- The error handlers assemble no evidence, which never fails.
empty_evidence_total :
    (config : QaConfig) (scope : EvidenceScope) (query_id : String)
    → (evidence : EvidenceSet) × (empty_evidence config scope query_id ≡ ok evidence)
unfolding empty_evidence
empty_evidence_total config scope query_id =
    let (evidence, e) =
      assemble_evidence_total {Score = ℕ} [] scope config.budget query_id
        (empty_Acceptable scope) in
    (evidence, rw e refl)

module _ (Backed : List Citation → Type 0) (nothing : Backed []) where
  recover_total :
      (config : QaConfig) (scope : EvidenceScope) (query_id : String) (failure : Failure)
      → (a : QaAnswer) × (recover config scope query_id failure ≡ ok a)
        × Trusted Backed scope query_id a
  unfolding recover
  recover_total config scope query_id failure =
      let (evidence, e) = empty_evidence_total config scope query_id in
      (
        failure_answer failure evidence query_id,
        rw e refl,
        failure-Trusted Backed nothing scope failure evidence query_id,
      )

  or_recover-Trusted :
      (config : QaConfig) (scope : EvidenceScope) (query_id : String) (r : Result Failure QaAnswer)
      → ((a : QaAnswer) → r ≡ ok a → Trusted Backed scope query_id a)
      → (a : QaAnswer) × (or_recover config scope query_id r ≡ ok a)
        × Trusted Backed scope query_id a
  unfolding or_recover
  or_recover-Trusted config scope query_id (ok a) t = (a, refl, t a refl)
  or_recover-Trusted config scope query_id (err failure) t =
      recover_total config scope query_id failure

module _ {Score : Type 0} where
  -- Whatever the index, the retrievers, the reranker and the model return or raise, and whatever is
  -- asked, the service returns an answer and raises nothing. The answer carries the query of the
  -- request, each of its citations is supported by the evidence that was gathered for this question and
  -- is of the document of the request, and with the status answered it cites something.
  pub answer_question-Trusted :
      (ops : ScoreOps Score) (providers : Providers Score) (config : QaConfig) (question : Text)
      (scope : EvidenceScope) (query_id : String)
      → (a : QaAnswer) × (answer_question ops providers config question scope query_id ≡ ok a)
        × Trusted (FromGathered ops providers config question scope query_id) scope query_id a
  unfolding answer_question
  answer_question-Trusted ops providers config question scope query_id =
      or_recover-Trusted (FromGathered ops providers config question scope query_id) (inl refl)
        config scope query_id (try_answer ops providers config question scope query_id)
        (λ a e. try_answer-Trusted ops providers config question scope query_id e)
