-- ===== src/Rag/ArchiveService/Laws.antt =====
-- What the archive service answers, whatever its providers do.
use mama_gift.Base.{
  >>=-eq-ok, All, Bool, List, Option, Result, String, Text, [], arith, inl, inr, list_eq, nat_eq,
  none, ok, ok-injective, option_eq, refl, some, string_eq, subst, ◌∷◌, ◌≡◌, ◌⊎◌,
}
use mama_gift.Rag.ArchiveService.{
  ArchiveChat, ArchiveQaAnswer, ArchiveQaConfig, answer_archive, answer_documents, archive_char_cap,
  archive_max_documents, no_documents_text, try_archive_answer, validate_archive_request,
}
use mama_gift.Rag.ArchiveService.Answers.{
  ArchiveTrusted, archive_answer_with-Trusted, recover-Trusted, simple-Trusted,
}
use mama_gift.Rag.ArchiveService.Grouping.{ArchiveRelationRef}
use mama_gift.Rag.Providers.{Failure, unknown_model}
use mama_gift.Rag.Service.{lift_retrieval}
use mama_gift.Rag.Service.Laws.{lift_retrieval-ok}
use mama_gift.Rag.Validation.{Citation, insufficient_evidence}
use mama_gift.Rag.Validation.Laws.{Supported}
use mama_gift.Retrieval.ArchiveEvidence.{assemble_archive_evidence}
use mama_gift.Retrieval.ArchiveRetriever.{
  ArchiveDocumentRef, ArchiveProviders, ArchiveRetrievalResult, retrieve_archive,
}
use mama_gift.Retrieval.ArchiveRetriever.Laws.{retrieve_archive-Retrieved, retrieve_archive-current}
use mama_gift.Retrieval.ArchiveScope.{IsArchive}
use mama_gift.Retrieval.Evidence.{EvidenceSet}
use mama_gift.Retrieval.Freshness.{resolve_freshness}
use mama_gift.Retrieval.Fusion.{ScoreOps}
use mama_gift.Retrieval.Scope.{EvidenceScope}

module _ {Score : Type 0} where
  -- Each citation is supported by the evidence that was assembled from what the retrieval for this
  -- question returned; or there is none.
  abbrev pub FromRetrieval :
      ScoreOps Score
      → ArchiveProviders Score
      → ArchiveQaConfig
      → Text
      → EvidenceScope
      → String
      → List Citation
      → Type 0
  FromRetrieval ops providers config question scope query_id cs =
      (cs ≡ [])
      ⊎ ((r : ArchiveRetrievalResult Score) × (evidence : EvidenceSet) × (retrieve_archive ops
              providers config.retriever question scope
            ≡ ok r)
          × (assemble_archive_evidence r.candidates scope config.budget query_id
                (some r.allowed_document_ids) archive_max_documents archive_char_cap
              ≡ ok evidence)
          × All (Supported evidence) cs)

  documents-Trusted :
      (Backed : List Citation → Type 0) (nothing : Backed [])
      (current : Result Failure (List ArchiveDocumentRef)) (chat : ArchiveChat)
      (config : ArchiveQaConfig) (relations : List ArchiveRelationRef) (question : Text)
      (scope : EvidenceScope) (query_id : String) (caveat : Option Text)
      (r : ArchiveRetrievalResult Score) (documents : List ArchiveDocumentRef) {x : ArchiveQaAnswer}
      → IsArchive scope
      → current ≡ ok documents
      → ((evidence : EvidenceSet)
          → assemble_archive_evidence r.candidates scope config.budget query_id
              (some r.allowed_document_ids)
              archive_max_documents
              archive_char_cap
            ≡ ok evidence
          → (cs : List Citation) → All (Supported evidence) cs
          → Backed cs)
      → answer_documents chat config relations question scope query_id caveat r documents ≡ ok x
      → ArchiveTrusted Backed current scope relations query_id x
  unfolding answer_documents
  documents-Trusted Backed nothing current chat config relations question scope query_id caveat r []
        a e b h =
      subst (ArchiveTrusted Backed current scope relations query_id) (ok-injective h) (
        simple-Trusted Backed nothing current scope relations query_id no_documents_text
          insufficient_evidence unknown_model none (λ k. ground arith))
  documents-Trusted Backed nothing current chat config relations question scope query_id caveat r
        (d ∷ ds) a e b h =
      let (evidence, p, k) =
        >>=-eq-ok
          (lift_retrieval (
            assemble_archive_evidence r.candidates scope config.budget query_id
              (some r.allowed_document_ids) archive_max_documents archive_char_cap))
          _ h in
      archive_answer_with-Trusted Backed nothing current scope relations query_id a evidence
        (d ∷ ds) e (b evidence (lift_retrieval-ok _ p)) chat caveat config.max_output_tokens
        question evidence.evidence k

  try-Trusted :
      (ops : ScoreOps Score) (providers : ArchiveProviders Score) (chat : ArchiveChat)
      (config : ArchiveQaConfig) (contains_phrase : Text → String → Bool)
      (relations : List ArchiveRelationRef) (question : Text) (scope : EvidenceScope)
      (query_id : String) (x : ArchiveQaAnswer)
      → try_archive_answer ops providers chat config contains_phrase relations question scope
          query_id
        ≡ ok x
      → ArchiveTrusted
          (FromRetrieval ops providers config question scope query_id)
          (providers.current_documents scope)
          scope
          relations
          query_id
          x
  unfolding try_archive_answer
  try-Trusted ops providers chat config contains_phrase relations question scope query_id x h =
      let (u, v, k) = >>=-eq-ok (validate_archive_request scope) _ h in
      let (r, e, k2) =
        >>=-eq-ok (retrieve_archive ops providers config.retriever question scope) _ k in
      let found = retrieve_archive-Retrieved ops providers config.retriever question scope r e in
      documents-Trusted (FromRetrieval ops providers config question scope query_id) (inl refl)
        (providers.current_documents scope) chat config relations question scope query_id
        (resolve_freshness contains_phrase r.documents question).caveat r r.documents found.archive
        (retrieve_archive-current ops providers config.retriever question scope e)
        (λ evidence p cs s. inr (r, evidence, e, p, s)) k2

  -- Whatever the index, the searches, the reranker and the model return or raise, the archive service
  -- returns an answer with the query of the request. Each of its citations is supported by evidence that
  -- was assembled from what the retrieval for this question returned. Its groups hold its citations,
  -- each in the group of its document, in their order; each group is of a document that the index holds current
  -- and no document has two; each of its relations is one of those given, with citations that are all
  -- of the answer, and of a document that the answer cites; and it has the status answered only for a
  -- scope that is an archive wildcard.
  pub answer_archive-Trusted :
      (ops : ScoreOps Score) (providers : ArchiveProviders Score) (chat : ArchiveChat)
      (config : ArchiveQaConfig) (contains_phrase : Text → String → Bool)
      (relations : List ArchiveRelationRef) (question : Text) (scope : EvidenceScope)
      (query_id : String)
      → ArchiveTrusted
          (FromRetrieval ops providers config question scope query_id)
          (providers.current_documents scope)
          scope
          relations
          query_id
          (answer_archive ops providers chat config contains_phrase relations question scope
            query_id)
  unfolding answer_archive
  answer_archive-Trusted ops providers chat config contains_phrase relations question scope
        query_id =
      recover-Trusted (FromRetrieval ops providers config question scope query_id) (inl refl)
        (providers.current_documents scope) scope relations query_id _
        (λ x e.
          try-Trusted ops providers chat config contains_phrase relations question scope query_id x
            e)
