-- ===== src/Retrieval/ArchiveRetriever.antt =====
-- archive/retriever.py: the candidates for a question to the whole archive. The index, the embedding
-- model, the reranker and the reading of identifiers out of a question are parameters; each of the
-- first three may return anything or raise.
pub mod Boost
pub mod Laws
use Prim.Native.Nat.{Ordering}
use Prim.Native.String.{compare}
use mama_gift.Base.{
  Bool, List, Option, Result, String, Text, [], contains, guard, if◌then◌else◌, length, list_eq,
  ltb, map, nat_eq, none, not, ok, option_eq, some, string_eq, ℕ, ◌&&◌, ◌+◌, ◌==◌, ◌>>=◌, ◌>>◌,
  ◌||◌, ◌∷◌,
}
use mama_gift.Rag.Providers.{Failure, other_error}
use mama_gift.Rag.Service.{lift_retrieval}
use mama_gift.Retrieval.ArchiveScope.{validate_archive_scope}
use mama_gift.Retrieval.Chunk.{Chunk, ScoredChunk, fused}
use mama_gift.Retrieval.Chunking.{has_text}
use mama_gift.Retrieval.Fusion.{ScoreOps, archive_reciprocal_rank_fusion}
use mama_gift.Retrieval.Rerank.{validate_archive_rerank_candidates}
use mama_gift.Retrieval.Scope.{EvidenceScope}

-- archive/protocol.py: a current document; its date is a day number
pub record ArchiveDocumentRef : Type 0 where
  pub document_id : String
  pub parse_run_id : String
  pub document_version : ℕ
  pub document_type : Option String
  pub document_number : Option String
  pub title : Option String
  pub issuer : Option String
  pub issued_date : Option ℕ
  pub requires_user_review : Bool

pub record ArchiveIndexStats : Type 0 where
  pub total_documents : ℕ
  pub total_chunks : ℕ
  pub embedded_chunks : ℕ
  pub embedding_model : Option String
  pub embedding_version : Option String

-- what the embedding model returns for a question
pub record Embedding (Score : Type 0) : Type 0 where
  pub embedding_version : Option String
  pub vectors : List (List Score)

pub record ArchiveRetrievalResult (Score : Type 0) : Type 0 where
  pub candidates : List (ScoredChunk Score)
  pub documents : List ArchiveDocumentRef
  pub allowed_document_ids : List String
  pub lexical_count : ℕ
  pub dense_count : ℕ

-- What the retriever is built on. The filters of a question are fixed in the index; `match_score` is
-- identifier_match_score for the identifiers of a question.
pub record ArchiveProviders (Score : Type 0) : Type 0 where
  pub current_documents : EvidenceScope → Result Failure (List ArchiveDocumentRef)
  pub search_lexical : EvidenceScope → Text → ℕ → Result Failure (List (ScoredChunk Score))
  pub stats : EvidenceScope → Result Failure ArchiveIndexStats
  pub embedding_version : String
  pub embed_query : Text → Result Failure (Embedding Score)
  pub search_dense : EvidenceScope → List Score → ℕ → Result Failure (List (ScoredChunk Score))
  pub has_identifiers : Text → Bool
  pub match_score : Text → Chunk → Score
  pub rerank : Text → List (ScoredChunk Score) → ℕ → Result Failure (List (ScoredChunk Score))

pub record RetrieverConfig : Type 0 where
  pub lexical_top_k : ℕ
  pub dense_top_k : ℕ
  pub rerank_top_k : ℕ

-- ArchiveRetriever.__init__; `none` is the ValueError
unfoldable pub new_retriever : ℕ → ℕ → ℕ → Bool → Option RetrieverConfig
new_retriever lexical_k dense_k rerank_k supports_cross_document =
    if lexical_k == 0 || (dense_k == 0 || rerank_k == 0)
    then none
    else if supports_cross_document
    then some (record { lexical_top_k = lexical_k; dense_top_k = dense_k; rerank_top_k = rerank_k })
    else none

-- An identifier before another and those after it, which `rest` has with the identifier put among them.
unfoldable pub insert_by : Ordering → String → String → List String → List String → List String
insert_by Ordering.lt id other ids rest = id ∷ other ∷ ids
insert_by Ordering.eq id other ids rest = other ∷ ids
insert_by Ordering.gt id other ids rest = other ∷ rest

unfoldable pub insert_id : String → List String → List String
unfolding insert_by
insert_id id [] = id ∷ []
insert_id id (other ∷ ids) = insert_by (compare id other) id other ids (insert_id id ids)

-- sorted({d.document_id for d in allowed})
unfoldable pub sorted_ids : List ArchiveDocumentRef → List String
unfolding insert_id
sorted_ids [] = []
sorted_ids (d ∷ ds) = insert_id d.document_id (sorted_ids ds)

abbrev pub allowed_ids : List ArchiveDocumentRef → List String
allowed_ids documents = map (λ d. d.document_id) documents

-- `stats.embedding_version is not None and it differs from the provider's`
unfoldable pub check_version : String → Option String → Result Failure (Unit {0})
check_version expected none = ok tt
check_version expected (some version) = guard (version == expected) other_error

module _ {Score : Type 0} where
  -- the three loops that test the documents of the candidates
  unfoldable pub check_allowed : List String → List (ScoredChunk Score) → Result Failure (Unit {0})
  check_allowed allowed [] = ok tt
  check_allowed allowed (c ∷ cs) = do
    guard (contains c.chunk.document_id allowed) other_error
    check_allowed allowed cs

  -- `not embedding_result.vectors or not embedding_result.vectors[0]`
  unfoldable pub search_vectors :
      ArchiveProviders Score
      → RetrieverConfig
      → EvidenceScope
      → List (List Score)
      → Result Failure (List (ScoredChunk Score))
  search_vectors providers config scope [] = ok []
  search_vectors providers config scope ([] ∷ rest) = ok []
  search_vectors providers config scope ((x ∷ xs) ∷ rest) =
      providers.search_dense scope (x ∷ xs) config.dense_top_k

  -- the search by the embedding of the question
  unfoldable pub embedded_candidates :
      ArchiveProviders Score
      → RetrieverConfig
      → Text
      → EvidenceScope
      → Option String
      → Result Failure (List (ScoredChunk Score))
  unfolding check_version search_vectors
  embedded_candidates providers config query scope index_version = do
    check_version providers.embedding_version index_version
    embedding ← providers.embed_query query
    check_version providers.embedding_version embedding.embedding_version
    search_vectors providers config scope embedding.vectors

  -- step 6
  unfoldable pub dense_candidates :
      ArchiveProviders Score
      → RetrieverConfig
      → Text
      → EvidenceScope
      → ArchiveIndexStats
      → Result Failure (List (ScoredChunk Score))
  unfolding embedded_candidates
  dense_candidates providers config query scope stats =
      let found = embedded_candidates providers config query scope stats.embedding_version in
      if stats.embedded_chunks == 0 then ok [] else found

  -- the key of candidate `b` is below the key of candidate `a`
  unfoldable pub comes_first :
      ScoreOps Score → (Chunk → Score) → ScoredChunk Score → ScoredChunk Score → Bool
  comes_first ops score b a =
      ops.greater (score b.chunk) (score a.chunk)
      || (not (ops.greater (score a.chunk) (score b.chunk)) && ltb b.rank a.rank)

  unfoldable pub insert_candidate :
      ScoreOps Score
      → (Chunk → Score)
      → ScoredChunk Score
      → List (ScoredChunk Score)
      → List (ScoredChunk Score)
  unfolding comes_first
  insert_candidate ops score a [] = a ∷ []
  insert_candidate ops score a (b ∷ bs) =
      let rest = insert_candidate ops score a bs in
      if comes_first ops score b a then b ∷ rest else a ∷ b ∷ bs

  unfoldable pub sort_candidates :
      ScoreOps Score → (Chunk → Score) → List (ScoredChunk Score) → List (ScoredChunk Score)
  unfolding insert_candidate
  sort_candidates ops score [] = []
  sort_candidates ops score (a ∷ rest) =
      insert_candidate ops score a (sort_candidates ops score rest)

  unfoldable pub renumber : ℕ → List (ScoredChunk Score) → List (ScoredChunk Score)
  renumber idx [] = []
  renumber idx (c ∷ cs) =
      record { chunk = c.chunk; score = c.score; rank = idx; retriever = fused }
      ∷ renumber (idx + 1) cs

  -- step 9; on an empty list the sort does nothing
  unfoldable pub boost :
      ScoreOps Score
      → ArchiveProviders Score
      → Text
      → List (ScoredChunk Score)
      → List (ScoredChunk Score)
  unfolding sort_candidates renumber
  boost ops providers query candidates =
      if providers.has_identifiers query
      then renumber 1 (sort_candidates ops (providers.match_score query) candidates)
      else candidates

  unfoldable pub result_of :
      List ArchiveDocumentRef → List (ScoredChunk Score) → ℕ → ℕ → ArchiveRetrievalResult Score
  unfolding sorted_ids
  result_of documents candidates lexical_count dense_count = record {
    candidates = candidates;
    documents = documents;
    allowed_document_ids = sorted_ids documents;
    lexical_count = lexical_count;
    dense_count = dense_count;
  }

  -- steps 5 to 11, for documents that are allowed and a question that is not blank
  unfoldable pub search_archive :
      ScoreOps Score
      → ArchiveProviders Score
      → RetrieverConfig
      → Text
      → EvidenceScope
      → List ArchiveDocumentRef
      → Result Failure (ArchiveRetrievalResult Score)
  unfolding dense_candidates check_allowed boost result_of
  search_archive ops providers config query scope documents = do
    by_terms ← providers.search_lexical scope query config.lexical_top_k
    stats ← providers.stats scope
    by_vectors ← dense_candidates providers config query scope stats
    check_allowed (allowed_ids documents) by_terms
    check_allowed (allowed_ids documents) by_vectors
    merged ← lift_retrieval (
        archive_reciprocal_rank_fusion ops (by_terms ∷ by_vectors ∷ []) (some scope)
          (some (allowed_ids documents)))
    let boosted = boost ops providers query merged
    lift_retrieval (validate_archive_rerank_candidates boosted (some (allowed_ids documents)))
    best ← providers.rerank query boosted config.rerank_top_k
    check_allowed (allowed_ids documents) best
    ok (result_of documents best (length by_terms) (length by_vectors))

  -- the two early returns
  unfoldable pub retrieve_from :
      ScoreOps Score
      → ArchiveProviders Score
      → RetrieverConfig
      → Text
      → EvidenceScope
      → List ArchiveDocumentRef
      → Result Failure (ArchiveRetrievalResult Score)
  unfolding search_archive has_text result_of
  retrieve_from ops providers config query scope [] = ok (result_of [] [] 0 0)
  retrieve_from ops providers config query scope (d ∷ ds) =
      let found = search_archive ops providers config query scope (d ∷ ds) in
      if has_text query then found else ok (result_of (d ∷ ds) [] 0 0)

  unfoldable pub retrieve_archive :
      ScoreOps Score
      → ArchiveProviders Score
      → RetrieverConfig
      → Text
      → EvidenceScope
      → Result Failure (ArchiveRetrievalResult Score)
  unfolding validate_archive_scope retrieve_from
  retrieve_archive ops providers config query scope = do
    lift_retrieval (validate_archive_scope scope)
    documents ← providers.current_documents scope
    retrieve_from ops providers config query scope documents
