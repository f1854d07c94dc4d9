-- ===== src/Retrieval/ArchiveRetriever/Laws.antt =====
-- What a successful retrieval over the archive returns, whatever its providers do.
use Prim.Native.Nat.{Ordering}
use Prim.Native.String.{compare}
use text.Mathlib.TextEquality.{path_by_compare}
use mama_gift.Base.{
  >>=-eq-ok, All, Bool-cases, List, String, Text, [], ap, arith, contains, guard, guard-eq-ok, inl,
  inr, length, list_eq, nat_eq, ok, ok-injective, option_eq, refl, some, string_eq, subst, sym,
  true, ℕ, ◌==◌, ◌||◌, ◌∙◌, ◌∷◌, ◌≡◌,
}
use mama_gift.Rag.Providers.{other_error}
use mama_gift.Rag.Service.{lift_retrieval}
use mama_gift.Rag.Service.Laws.{lift_retrieval-ok}
use mama_gift.Retrieval.ArchiveRetriever.{
  ArchiveDocumentRef, ArchiveProviders, ArchiveRetrievalResult, RetrieverConfig, allowed_ids, boost,
  check_allowed, dense_candidates, insert_by, insert_id, result_of, retrieve_archive, retrieve_from,
  search_archive, sorted_ids,
}
use mama_gift.Retrieval.ArchiveScope.{
  IsArchive, validate_archive_scope, validate_archive_scope-IsArchive,
}
use mama_gift.Retrieval.Chunk.{ScoredChunk}
use mama_gift.Retrieval.Chunking.{has_text}
use mama_gift.Retrieval.Fusion.{ScoreOps, archive_reciprocal_rank_fusion}
use mama_gift.Retrieval.Rerank.{validate_archive_rerank_candidates}
use mama_gift.Retrieval.Scope.{EvidenceScope}

contains-insert_by :
    (k : String) (o : Ordering) (id other : String) (ids rest : List String)
    → compare id other ≡ o
    → contains k rest ≡ (k == id || contains k ids)
    → contains k (insert_by o id other ids rest) ≡ (k == id || contains k (other ∷ ids))
unfolding insert_by
contains-insert_by k Ordering.lt id other ids rest e h = refl
contains-insert_by k Ordering.eq id other ids rest e h =
    rw (path_by_compare id other e) (ground arith)
contains-insert_by k Ordering.gt id other ids rest e h = ground arith

contains-insert_id :
    (k id : String) (ids : List String)
    → contains k (insert_id id ids) ≡ (k == id || contains k ids)
unfolding insert_id
contains-insert_id k id [] = refl
contains-insert_id k id (other ∷ ids) =
    contains-insert_by k (compare id other) id other ids (insert_id id ids) refl
      (contains-insert_id k id ids)

pub contains-sorted_ids :
    (id : String) (documents : List ArchiveDocumentRef)
    → contains id (sorted_ids documents) ≡ contains id (allowed_ids documents)
unfolding sorted_ids
contains-sorted_ids id [] = refl
contains-sorted_ids id (d ∷ ds) =
    contains-insert_id id d.document_id (sorted_ids ds)
    ∙ ap (λ b. (id == d.document_id) || b) (contains-sorted_ids id ds)

-- What a retrieval promises: its scope is an archive wildcard, every candidate is of one of the
-- documents it returns, the allow-list names exactly those, and without documents there is no candidate.
pub record ArchiveRetrieved {Score : Type 0} (scope : EvidenceScope)
    (r : ArchiveRetrievalResult Score) : Type 0 where
  pub archive : IsArchive scope
  pub allowed :
      All (λ c. contains c.chunk.document_id (allowed_ids r.documents) ≡ true) r.candidates
  pub same_ids :
      (id : String) → contains id r.allowed_document_ids ≡ contains id (allowed_ids r.documents)
  pub none_without : r.documents ≡ [] → r.candidates ≡ []

module _ {Score : Type 0} where
  check_allowed_lem :
      (allowed : List String) (cs : List (ScoredChunk Score))
      → check_allowed allowed cs ≡ ok tt
      → All (λ c. contains c.chunk.document_id allowed ≡ true) cs
  unfolding check_allowed
  check_allowed_lem allowed [] h = tt
  check_allowed_lem allowed (c ∷ cs) h =
      let (u, g, k) = >>=-eq-ok (guard (contains c.chunk.document_id allowed) other_error) _ h in
      (guard-eq-ok (contains c.chunk.document_id allowed) _ g, check_allowed_lem allowed cs k)

  search_archive_lem :
      (ops : ScoreOps Score) (providers : ArchiveProviders Score) (config : RetrieverConfig)
      (query : Text) (scope : EvidenceScope) (documents : List ArchiveDocumentRef)
      {r : ArchiveRetrievalResult Score}
      → search_archive ops providers config query scope documents ≡ ok r
      → (cs : List (ScoredChunk Score)) × (m : ℕ) × (n : ℕ) × (r ≡ result_of documents cs m n)
        × All (λ c. contains c.chunk.document_id (allowed_ids documents) ≡ true) cs
  unfolding search_archive
  search_archive_lem ops providers config query scope documents h =
      let (by_terms, h1, k1) =
        >>=-eq-ok (providers.search_lexical scope query config.lexical_top_k) _ h in
      let (stats, h2, k2) = >>=-eq-ok (providers.stats scope) _ k1 in
      let (by_vectors, h3, k3) =
        >>=-eq-ok (dense_candidates providers config query scope stats) _ k2 in
      let (u, h4, k4) = >>=-eq-ok (check_allowed (allowed_ids documents) by_terms) _ k3 in
      let (v, h5, k5) = >>=-eq-ok (check_allowed (allowed_ids documents) by_vectors) _ k4 in
      let (merged, h6, k6) =
        >>=-eq-ok
          (lift_retrieval (
            archive_reciprocal_rank_fusion ops (by_terms ∷ by_vectors ∷ []) (some scope)
              (some (allowed_ids documents))))
          _ k5 in
      let (w, h7, k7) =
        >>=-eq-ok
          (lift_retrieval (
            validate_archive_rerank_candidates (boost ops providers query merged)
              (some (allowed_ids documents))))
          _ k6 in
      let (best, h8, k8) =
        >>=-eq-ok (providers.rerank query (boost ops providers query merged) config.rerank_top_k) _
          k7 in
      let (x, h9, k9) = >>=-eq-ok (check_allowed (allowed_ids documents) best) _ k8 in
      (
        best,
        length by_terms,
        length by_vectors,
        sym (ok-injective k9),
        check_allowed_lem (allowed_ids documents) best h9,
      )

  result-Retrieved :
      (scope : EvidenceScope) (documents : List ArchiveDocumentRef) (cs : List (ScoredChunk Score))
      (m n : ℕ)
      → IsArchive scope
      → All (λ c. contains c.chunk.document_id (allowed_ids documents) ≡ true) cs
      → (documents ≡ [] → cs ≡ [])
      → ArchiveRetrieved scope (result_of documents cs m n)
  unfolding result_of
  result-Retrieved scope documents cs m n a c e = record {
    archive = a;
    allowed = c;
    same_ids = λ id. contains-sorted_ids id documents;
    none_without = e;
  }

  retrieve_from-Retrieved :
      (ops : ScoreOps Score) (providers : ArchiveProviders Score) (config : RetrieverConfig)
      (query : Text) (scope : EvidenceScope) (documents : List ArchiveDocumentRef)
      {r : ArchiveRetrievalResult Score}
      → IsArchive scope
      → retrieve_from ops providers config query scope documents ≡ ok r
      → ArchiveRetrieved scope r
  unfolding retrieve_from
  retrieve_from-Retrieved ops providers config query scope [] a h =
      subst (ArchiveRetrieved scope) (ok-injective h)
        (result-Retrieved scope [] [] 0 0 a tt (λ e. refl))
  retrieve_from-Retrieved ops providers config query scope (d ∷ ds) a h =
      elim (Bool-cases (has_text query)) [
        | inl t ↦
            let (cs, m, n, e, c) =
              search_archive_lem ops providers config query scope (d ∷ ds) (ground arith) in
            subst (ArchiveRetrieved scope) (sym e)
              (result-Retrieved scope (d ∷ ds) cs m n a c (λ e'. absurd (ground arith)))
        | inr b ↦
            subst (ArchiveRetrieved scope) (ground arith)
              (result-Retrieved scope (d ∷ ds) [] 0 0 a tt (λ e. refl))
      ]

  -- A successful retrieval was asked with an archive wildcard; each of its candidates is of one of the
  -- current documents that it returns, its allow-list names exactly these, and without documents it
  -- has no candidate, whatever the searches and the reranker returned.
  pub retrieve_archive-Retrieved :
      (ops : ScoreOps Score) (providers : ArchiveProviders Score) (config : RetrieverConfig)
      (query : Text) (scope : EvidenceScope) (r : ArchiveRetrievalResult Score)
      → retrieve_archive ops providers config query scope ≡ ok r
      → ArchiveRetrieved scope r
  unfolding retrieve_archive
  retrieve_archive-Retrieved ops providers config query scope r h =
      let (u, v, k) = >>=-eq-ok (lift_retrieval (validate_archive_scope scope)) _ h in
      let (documents, e, k2) = >>=-eq-ok (providers.current_documents scope) _ k in
      retrieve_from-Retrieved ops providers config query scope documents
        ((validate_archive_scope-IsArchive scope).0
          (lift_retrieval-ok (validate_archive_scope scope) v))
        k2

  retrieve_from-documents :
      (ops : ScoreOps Score) (providers : ArchiveProviders Score) (config : RetrieverConfig)
      (query : Text) (scope : EvidenceScope) (documents : List ArchiveDocumentRef)
      {r : ArchiveRetrievalResult Score}
      → retrieve_from ops providers config query scope documents ≡ ok r
      → r.documents ≡ documents
  unfolding retrieve_from result_of
  retrieve_from-documents ops providers config query scope [] h =
      ap (λ q. q.documents) (sym (ok-injective h))
  retrieve_from-documents ops providers config query scope (d ∷ ds) {r} h =
      elim (Bool-cases (has_text query)) [
        | inl t ↦
            let (cs, m, n, e, c) =
              search_archive_lem ops providers config query scope (d ∷ ds) {r = r} (ground arith) in
            ap (λ q. q.documents) e
        | inr b ↦ ground arith
      ]

  -- the documents of a retrieval are those that the index holds current
  pub retrieve_archive-current :
      (ops : ScoreOps Score) (providers : ArchiveProviders Score) (config : RetrieverConfig)
      (query : Text) (scope : EvidenceScope) {r : ArchiveRetrievalResult Score}
      → retrieve_archive ops providers config query scope ≡ ok r
      → providers.current_documents scope ≡ ok r.documents
  unfolding retrieve_archive
  retrieve_archive-current ops providers config query scope {r} h =
      let (u, v, k) = >>=-eq-ok (lift_retrieval (validate_archive_scope scope)) _ h in
      let (documents, e, k2) = >>=-eq-ok (providers.current_documents scope) _ k in
      e
      ∙ ap ok (sym (retrieve_from-documents ops providers config query scope documents {r = r} k2))
