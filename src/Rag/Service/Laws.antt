-- ===== src/Rag/Service/Laws.antt =====
-- What the service answers, whatever its providers do.
use mama_gift.Base.{
  >>=-eq-ok, All, Bool-cases, List, Result, String, Text, [], arith, err, false, inl, inr, list_eq,
  nat_eq, none, ok, ok-injective, option_eq, refl, some, string_eq, subst, ◌==◌, ◌≡◌, ◌⊎◌,
}
use mama_gift.Rag.Providers.{Providers, QaConfig, not_indexed_text, unknown_model}
use mama_gift.Rag.Service.{
  assemble_candidates, empty_evidence, gather_evidence, lift_retrieval, retrieve, try_answer,
  validate_request_scope, validate_scored,
}
use mama_gift.Rag.Service.Answers.{
  Trusted, answer_with-Trusted, failed_ne_answered, fallback-Trusted,
}
use mama_gift.Rag.Validation.{Citation, QaAnswer, failed}
use mama_gift.Rag.Validation.Laws.{Supported}
use mama_gift.Retrieval.Chunk.{ScoredChunk}
use mama_gift.Retrieval.Errors.{RetrievalError}
use mama_gift.Retrieval.Evidence.{EvidenceSet}
use mama_gift.Retrieval.Evidence.Laws.{assemble_evidence_sound}
use mama_gift.Retrieval.Expansion.{expand_evidence, max_ancestor_depth}
use mama_gift.Retrieval.Fusion.{ScoreOps}
use mama_gift.Retrieval.Scope.{EvidenceScope}

pub lift_retrieval-ok {ℓ} :
    {A : Type ℓ} (r : Result RetrievalError A) {a : A} → lift_retrieval r ≡ ok a → r ≡ ok a
lift_retrieval-ok (ok b) h = ground arith
lift_retrieval-ok (err x) h = absurd (ground arith)

request_single :
    (scope : EvidenceScope) → validate_request_scope scope ≡ ok tt → scope.archive_scope ≡ false
unfolding validate_request_scope
request_single scope h = ground arith

module _ {Score : Type 0} where
  assemble_candidates-scope :
      (config : QaConfig) (scope : EvidenceScope) (query_id : String)
      (candidates : List (ScoredChunk Score)) {evidence : EvidenceSet}
      → assemble_candidates config scope query_id candidates ≡ ok evidence
      → evidence.scope ≡ scope
  unfolding assemble_candidates
  assemble_candidates-scope config scope query_id candidates h =
      let (widened, k, h1) =
        >>=-eq-ok
          (lift_retrieval
            (expand_evidence candidates scope (some config.chunk_tree) none max_ancestor_depth))
          _ h in
      let (u, v, h2) = >>=-eq-ok (validate_scored widened scope) _ h1 in
      (assemble_evidence_sound widened scope config.budget query_id (lift_retrieval-ok _ h2)).2

  gather_evidence-scope :
      (ops : ScoreOps Score) (providers : Providers Score) (config : QaConfig) (question : Text)
      (scope : EvidenceScope) (query_id : String) {evidence : EvidenceSet}
      → gather_evidence ops providers config question scope query_id ≡ ok evidence
      → evidence.scope ≡ scope
  unfolding gather_evidence
  gather_evidence-scope ops providers config question scope query_id h =
      let (candidates, k, h1) = >>=-eq-ok (retrieve ops providers config question scope) _ h in
      assemble_candidates-scope config scope query_id candidates h1

  -- Each citation is supported by the evidence that was gathered for this question; or there is none.
  abbrev pub FromGathered :
      ScoreOps Score
      → Providers Score
      → QaConfig
      → Text
      → EvidenceScope
      → String
      → List Citation
      → Type 0
  FromGathered ops providers config question scope query_id cs =
      (cs ≡ [])
      ⊎ ((evidence : EvidenceSet) × (gather_evidence ops providers config question scope query_id
            ≡ ok evidence)
          × All (Supported evidence) cs)

  pub try_answer-Trusted :
      (ops : ScoreOps Score) (providers : Providers Score) (config : QaConfig) (question : Text)
      (scope : EvidenceScope) (query_id : String) {a : QaAnswer}
      → try_answer ops providers config question scope query_id ≡ ok a
      → Trusted (FromGathered ops providers config question scope query_id) scope query_id a
  unfolding try_answer
  try_answer-Trusted ops providers config question scope query_id {a} h =
      let (u, v, h1) = >>=-eq-ok (validate_request_scope scope) _ h in
      let (total, t, h2) = >>=-eq-ok (providers.total_chunks scope) _ h1 in
      elim (Bool-cases (total == 0)) [
        | inl e ↦
            let run = rw e at h2 in
            let (ev, k, h3) = >>=-eq-ok (empty_evidence config scope query_id) _ run in
            subst
              (Trusted (FromGathered ops providers config question scope query_id) scope query_id)
              (ok-injective h3)
              (fallback-Trusted (FromGathered ops providers config question scope query_id)
                (inl refl) scope not_indexed_text failed unknown_model ev query_id
                failed_ne_answered)
        | inr e ↦
            let run = rw e at h2 in
            let (ev, k, h3) =
              >>=-eq-ok (gather_evidence ops providers config question scope query_id) _ run in
            answer_with-Trusted (FromGathered ops providers config question scope query_id)
              (inl refl) providers config question scope ev query_id ev.evidence
              (gather_evidence-scope ops providers config question scope query_id k)
              (request_single scope v) (λ cs b. inr (ev, k, b)) h3
      ]
