-- ===== src/Rag/ArchiveService/Answers.antt =====
-- What each step of the archive service promises of the answer it returns.
use mama_gift.Base.{
  >>=-eq-ok, All, Bool-cases, List, Option, Result, String, Text, [], arith, err, inl, inr, list_eq,
  map, nat_eq, none, ok, ok-injective, option_eq, refl, some, string_eq, subst, sym, ℕ, ◌∙◌, ◌∷◌,
  ◌≡◌, ◌≢◌,
}
use mama_gift.Rag.ArchiveService.{
  ArchiveChat, ArchiveQaAnswer, archive_abstention_text, archive_answer_with, archive_completed,
  archive_failed_text, archive_recover, grouped_answer, parse_reading, settle_archive,
  settle_parsed, simple_answer, worker_failure,
}
use mama_gift.Rag.ArchiveService.Grouping.{ArchiveDocumentGroup, ArchiveRelationRef, build_groups}
use mama_gift.Rag.ArchiveService.Groups.{Grouped, group_documents, nothing-Grouped}
use mama_gift.Rag.ArchiveService.Groups.Sound.{build_groups-Grouped}
use mama_gift.Rag.ArchiveService.Relations.{Related, filter_relations-Related}
use mama_gift.Rag.Prompt.{build_grounded_prompt}
use mama_gift.Rag.Providers.{
  Completion, Failure, Reading, WorkerErrorCode, other_error, read, rejected, unavailable_text,
  unknown_model, unreadable, worker_error,
}
use mama_gift.Rag.Service.{completion_model, is_unavailable, lift_option}
use mama_gift.Rag.Validation.{
  AnswerStatus, Citation, ModelRef, QaAnswer, ai_worker_unavailable, answered, failed,
  insufficient_evidence,
}
use mama_gift.Rag.Validation.Laws.{Supported, parse_and_validate_answer_sound}
use mama_gift.Retrieval.ArchiveRetriever.{ArchiveDocumentRef}
use mama_gift.Retrieval.ArchiveScope.{IsArchive}
use mama_gift.Retrieval.Evidence.{Evidence, EvidenceSet}
use mama_gift.Retrieval.Scope.{EvidenceScope}

-- An answer that may be shown for a request, where the index has its documents: it carries the
-- request's query, its citations are backed, its groups hold them by their current documents, its
-- relations are given and supported by the citations, and with the status answered the request was for
-- the whole archive.
pub record ArchiveTrusted (Backed : List Citation → Type 0)
    (current : Result Failure (List ArchiveDocumentRef)) (scope : EvidenceScope)
    (relations : List ArchiveRelationRef) (query_id : String) (a : ArchiveQaAnswer) : Type 0 where
  pub same_query : a.query_id ≡ query_id
  pub backed : Backed a.citations
  pub grouped :
      (documents : List ArchiveDocumentRef)
      → current ≡ ok documents
      → Grouped a.citations documents a.document_groups
  pub related :
      All
        (Related relations
          (map (λ c. c.citation_id) a.citations)
          (group_documents a.document_groups))
        a.relations
  pub archive_only : a.status ≡ answered → IsArchive scope

parse_reading-Supported :
    (r : Reading) (evidence : EvidenceSet) (model : ModelRef) {parsed : QaAnswer}
    → parse_reading r evidence model ≡ ok parsed
    → All (Supported evidence) parsed.citations
unfolding parse_reading
parse_reading-Supported (read raw) evidence model h =
    subst (λ (a : QaAnswer). All (Supported evidence) a.citations) (ok-injective h)
      (parse_and_validate_answer_sound (some raw) evidence model).supported
parse_reading-Supported rejected evidence model h =
    subst (λ (a : QaAnswer). All (Supported evidence) a.citations) (ok-injective h)
      (parse_and_validate_answer_sound none evidence model).supported
parse_reading-Supported unreadable evidence model h = absurd (ground arith)

module _ (Backed : List Citation → Type 0) (nothing : Backed [])
    (current : Result Failure (List ArchiveDocumentRef)) (scope : EvidenceScope)
    (relations : List ArchiveRelationRef) (query_id : String) where
  pub simple-Trusted :
      (text : Text) (status : AnswerStatus) (model : ModelRef) (caveat : Option Text)
      → status ≢ answered
      → ArchiveTrusted Backed current scope relations query_id
          (simple_answer text status query_id model caveat)
  unfolding simple_answer
  simple-Trusted text status model caveat n = record {
    same_query = refl;
    backed = nothing;
    grouped = λ documents e. nothing-Grouped documents;
    related = tt;
    archive_only = λ h. absurd (n h);
  }

  worker_failure-Trusted :
      (code : WorkerErrorCode) (caveat : Option Text)
      → ArchiveTrusted Backed current scope relations query_id (worker_failure code query_id caveat)
  unfolding worker_failure
  worker_failure-Trusted code caveat = elim (Bool-cases (is_unavailable code)) [
    | inl e ↦ rw e (
        simple-Trusted unavailable_text ai_worker_unavailable unknown_model caveat
          (λ h. ground arith))
    | inr e ↦
        rw e (simple-Trusted archive_failed_text failed unknown_model caveat (λ h. ground arith))
  ]

  module _ (a : IsArchive scope) (evidence : EvidenceSet) (documents : List ArchiveDocumentRef)
      (held : current ≡ ok documents)
      (back : (cs : List Citation) → All (Supported evidence) cs → Backed cs) where
    same_documents : (ds : List ArchiveDocumentRef) → current ≡ ok ds → documents ≡ ds
    same_documents ds e = ok-injective (sym held ∙ e)

    grouped_answer-Trusted :
        (parsed : QaAnswer) (model : ModelRef) (caveat : Option Text)
        (o : Option (List ArchiveDocumentGroup))
        → All (Supported evidence) parsed.citations
        → build_groups parsed.citations evidence documents ≡ o
        → ArchiveTrusted Backed current scope relations query_id
            (grouped_answer parsed relations query_id model caveat o)
    unfolding grouped_answer
    grouped_answer-Trusted parsed model caveat none s e =
        simple-Trusted archive_failed_text failed model caveat (λ h. ground arith)
    grouped_answer-Trusted parsed model caveat (some groups) s e = record {
      same_query = refl;
      backed = back parsed.citations s;
      grouped = λ ds f.
          subst (λ d. Grouped parsed.citations d groups) (same_documents ds f)
            (build_groups-Grouped parsed.citations evidence documents groups e);
      related = filter_relations-Related relations parsed.citations groups;
      archive_only = λ h. a;
    }

    settle-Trusted :
        (parsed : QaAnswer) (status : AnswerStatus) (model : ModelRef) (caveat : Option Text)
        → All (Supported evidence) parsed.citations
        → ArchiveTrusted Backed current scope relations query_id
            (settle_archive parsed status relations evidence documents query_id model caveat)
    unfolding settle_archive
    settle-Trusted parsed insufficient_evidence model caveat s =
        simple-Trusted parsed.answer insufficient_evidence model caveat (λ h. ground arith)
    settle-Trusted parsed failed model caveat s =
        simple-Trusted parsed.answer failed model caveat (λ h. ground arith)
    settle-Trusted parsed answered model caveat s =
        grouped_answer-Trusted parsed model caveat _ s refl
    settle-Trusted parsed ai_worker_unavailable model caveat s =
        grouped_answer-Trusted parsed model caveat _ s refl

    completed-Trusted :
        (chat : ArchiveChat) (caveat : Option Text) (c : Result Failure Completion)
        {x : ArchiveQaAnswer}
        → archive_completed chat relations documents query_id caveat evidence c ≡ ok x
        → ArchiveTrusted Backed current scope relations query_id x
    unfolding archive_completed settle_parsed
    completed-Trusted chat caveat (err (worker_error code)) h =
        subst (ArchiveTrusted Backed current scope relations query_id) (ok-injective h)
          (worker_failure-Trusted code caveat)
    completed-Trusted chat caveat (err other_error) h = absurd (ground arith)
    completed-Trusted chat caveat (ok c) h =
        let (parsed, p, k) =
          >>=-eq-ok (parse_reading (chat.reading c.text) evidence (completion_model c)) _ h in
        subst (ArchiveTrusted Backed current scope relations query_id) (ok-injective k) (
          settle-Trusted parsed parsed.status (completion_model c) caveat
            (parse_reading-Supported (chat.reading c.text) evidence (completion_model c) p))

    pub archive_answer_with-Trusted :
        (chat : ArchiveChat) (caveat : Option Text) (n : ℕ) (question : Text) (es : List Evidence)
        {x : ArchiveQaAnswer}
        → archive_answer_with chat relations documents query_id caveat n question evidence es ≡ ok x
        → ArchiveTrusted Backed current scope relations query_id x
    unfolding archive_answer_with
    archive_answer_with-Trusted chat caveat n question [] h =
        subst (ArchiveTrusted Backed current scope relations query_id) (ok-injective h) (
          simple-Trusted archive_abstention_text insufficient_evidence unknown_model caveat
            (λ h. ground arith))
    archive_answer_with-Trusted chat caveat n question (e ∷ es) h =
        let (messages, p, k) =
          >>=-eq-ok (lift_option (build_grounded_prompt question evidence)) _ h in
        completed-Trusted chat caveat (chat.complete messages n) k

  pub recover-Trusted :
      (r : Result Failure ArchiveQaAnswer)
      → ((x : ArchiveQaAnswer)
          → r ≡ ok x
          → ArchiveTrusted Backed current scope relations query_id x)
      → ArchiveTrusted Backed current scope relations query_id (archive_recover query_id r)
  unfolding archive_recover
  recover-Trusted (ok x) f = f x refl
  recover-Trusted (err (worker_error code)) f = worker_failure-Trusted code none
  recover-Trusted (err other_error) f =
      simple-Trusted archive_failed_text failed unknown_model none (λ h. ground arith)
