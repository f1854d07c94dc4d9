-- ===== src/Rag/Service/Answers.antt =====
-- What each step of the service promises of the answer it returns.
use mama_gift.Base.{
  >>=-eq-ok, All, All-map, Bool-cases, List, Option, Result, String, Text, [], ap, arith, err,
  false, inl, inr, list_eq, nat_eq, none, ok, ok-injective, option_eq, refl, some, string_eq, subst,
  true, ◌∙◌, ◌∷◌, ◌≡◌, ◌≢◌, ◌⊎◌,
}
use mama_gift.Rag.Prompt.{build_grounded_prompt}
use mama_gift.Rag.Providers.{
  Completion, Failure, Providers, QaConfig, Reading, abstention_text, failed_text, other_error,
  read, rejected, unavailable_text, unknown_model, unreadable, worker_error,
}
use mama_gift.Rag.Service.{
  answer_with, ask_model, completed_answer, completion_answer, completion_model, failure_answer,
  fallback_answer, finish, is_unavailable, lift_option,
}
use mama_gift.Rag.Validation.{
  AnswerStatus, Citation, ModelRef, QaAnswer, RawAnswer, ai_worker_unavailable, answered, failed,
  insufficient_evidence, parse_and_validate_answer, scope_for_evidence,
}
use mama_gift.Rag.Validation.Laws.{Supported, parse_and_validate_answer_sound}
use mama_gift.Retrieval.Evidence.{Evidence, EvidenceSet}
use mama_gift.Retrieval.Scope.{EvidenceScope}

-- An answer that may be shown for a request: it carries the request's query, its citations are backed,
-- each of them is of the request's document, and with the status answered it cites something.
pub record Trusted (Backed : List Citation → Type 0) (scope : EvidenceScope) (query_id : String)
    (a : QaAnswer) : Type 0 where
  pub same_query : a.query_id ≡ query_id
  pub backed : Backed a.citations
  pub same_document : All (λ c. some c.document_id ≡ scope.document_id) a.citations
  pub cites : a.status ≡ answered → a.citations ≢ []

pub failed_ne_answered : failed ≢ answered
failed_ne_answered h = ground arith

unavailable_ne_answered : ai_worker_unavailable ≢ answered
unavailable_ne_answered h = ground arith

pub insufficient_ne_answered : insufficient_evidence ≢ answered
insufficient_ne_answered h = ground arith

document_of_request :
    (scope : EvidenceScope) (evidence : EvidenceSet) (c : Citation) (item : Evidence)
    → evidence.scope ≡ scope
    → scope.archive_scope ≡ false
    → c.document_id ≡ item.document_id
    → (evidence.scope.archive_scope ≡ true) ⊎ (some item.document_id ≡ evidence.scope.document_id)
    → some c.document_id ≡ scope.document_id
document_of_request scope evidence c item e single same (inl wild) =
    absurd (ground (arith, ap (λ (s : EvidenceScope). s.archive_scope) e))
document_of_request scope evidence c item e single same (inr d) =
    ap some same ∙ (d ∙ ap (λ (s : EvidenceScope). s.document_id) e)

-- A supported citation is of the document of a request that is no wildcard.
Supported-document :
    (scope : EvidenceScope) (evidence : EvidenceSet) (c : Citation)
    → evidence.scope ≡ scope
    → scope.archive_scope ≡ false
    → Supported evidence c
    → some c.document_id ≡ scope.document_id
unfolding scope_for_evidence
Supported-document scope evidence c e single s =
    document_of_request scope evidence c s.item e single s.same_document s.in_scope.document

module _ (Backed : List Citation → Type 0) (nothing : Backed []) where
  pub fallback-Trusted :
      (scope : EvidenceScope) (text : Text) (status : AnswerStatus) (model : ModelRef)
      (evidence : EvidenceSet) (query_id : String)
      → status ≢ answered
      → Trusted Backed scope query_id (finish (fallback_answer text status model evidence) query_id)
  unfolding finish fallback_answer
  fallback-Trusted scope text status model evidence query_id n = record {
    same_query = refl;
    backed = nothing;
    same_document = tt;
    cites = λ h. absurd (n h);
  }

  pub failure-Trusted :
      (scope : EvidenceScope) (failure : Failure) (evidence : EvidenceSet) (query_id : String)
      → Trusted Backed scope query_id (failure_answer failure evidence query_id)
  unfolding failure_answer
  failure-Trusted scope other_error evidence query_id =
      fallback-Trusted scope failed_text failed unknown_model evidence query_id failed_ne_answered
  failure-Trusted scope (worker_error code) evidence query_id =
      elim (Bool-cases (is_unavailable code)) [
        | inl e ↦ rw e (
            fallback-Trusted scope unavailable_text ai_worker_unavailable unknown_model evidence
              query_id unavailable_ne_answered)
        | inr e ↦ rw e (
            fallback-Trusted scope failed_text failed unknown_model evidence query_id
              failed_ne_answered)
      ]

  parse-Trusted :
      (scope : EvidenceScope) (payload : Option RawAnswer) (model : ModelRef)
      (evidence : EvidenceSet) (query_id : String)
      → evidence.scope ≡ scope
      → scope.archive_scope ≡ false
      → ((cs : List Citation) → All (Supported evidence) cs → Backed cs)
      → Trusted Backed scope query_id
          (finish (parse_and_validate_answer payload evidence model) query_id)
  unfolding finish
  parse-Trusted scope payload model evidence query_id e single back =
      let v = parse_and_validate_answer_sound payload evidence model in
      record {
        same_query = refl;
        backed = back _ v.supported;
        same_document =
            All-map (Supported evidence) (λ c. some c.document_id ≡ scope.document_id) _
              (λ c s. Supported-document scope evidence c e single s) v.supported;
        cites = v.answered_cites;
      }

  completion-Trusted :
      (scope : EvidenceScope) (reading : Reading) (model : ModelRef) (evidence : EvidenceSet)
      (query_id : String)
      → evidence.scope ≡ scope
      → scope.archive_scope ≡ false
      → ((cs : List Citation) → All (Supported evidence) cs → Backed cs)
      → Trusted Backed scope query_id (completion_answer reading model evidence query_id)
  unfolding completion_answer
  completion-Trusted scope (read raw) model evidence query_id e single back =
      parse-Trusted scope (some raw) model evidence query_id e single back
  completion-Trusted scope rejected model evidence query_id e single back =
      parse-Trusted scope none model evidence query_id e single back
  completion-Trusted scope unreadable model evidence query_id e single back =
      fallback-Trusted scope failed_text failed model evidence query_id failed_ne_answered

  module _ {Score : Type 0} where
    completed-Trusted :
        (providers : Providers Score) (scope : EvidenceScope) (evidence : EvidenceSet)
        (query_id : String) (r : Result Failure Completion) {a : QaAnswer}
        → evidence.scope ≡ scope
        → scope.archive_scope ≡ false
        → ((cs : List Citation) → All (Supported evidence) cs → Backed cs)
        → completed_answer providers evidence query_id r ≡ ok a
        → Trusted Backed scope query_id a
    unfolding completed_answer
    completed-Trusted providers scope evidence query_id (ok c) e single back h =
        subst (Trusted Backed scope query_id) (ok-injective h) (
          completion-Trusted scope (providers.reading c.text) (completion_model c) evidence query_id
            e single back)
    completed-Trusted providers scope evidence query_id (err (worker_error code)) e single back h =
        subst (Trusted Backed scope query_id) (ok-injective h)
          (failure-Trusted scope (worker_error code) evidence query_id)
    completed-Trusted providers scope evidence query_id (err other_error) e single back h =
        absurd (ground arith)

    ask_model-Trusted :
        (providers : Providers Score) (config : QaConfig) (question : Text) (scope : EvidenceScope)
        (evidence : EvidenceSet) (query_id : String) {a : QaAnswer}
        → evidence.scope ≡ scope
        → scope.archive_scope ≡ false
        → ((cs : List Citation) → All (Supported evidence) cs → Backed cs)
        → ask_model providers config question evidence query_id ≡ ok a
        → Trusted Backed scope query_id a
    unfolding ask_model
    ask_model-Trusted providers config question scope evidence query_id {a} e single back h =
        let (messages, m, h') =
          >>=-eq-ok (lift_option (build_grounded_prompt question evidence)) _ h in
        completed-Trusted providers scope evidence query_id _ e single back h'

    pub answer_with-Trusted :
        (providers : Providers Score) (config : QaConfig) (question : Text) (scope : EvidenceScope)
        (evidence : EvidenceSet) (query_id : String) (items : List Evidence) {a : QaAnswer}
        → evidence.scope ≡ scope
        → scope.archive_scope ≡ false
        → ((cs : List Citation) → All (Supported evidence) cs → Backed cs)
        → answer_with providers config question evidence query_id items ≡ ok a
        → Trusted Backed scope query_id a
    unfolding answer_with
    answer_with-Trusted providers config question scope evidence query_id [] e single back h =
        subst (Trusted Backed scope query_id) (ok-injective h) (
          fallback-Trusted scope abstention_text insufficient_evidence unknown_model evidence
            query_id insufficient_ne_answered)
    answer_with-Trusted providers config question scope evidence query_id (i ∷ is) e single back h =
        ask_model-Trusted providers config question scope evidence query_id e single back h
