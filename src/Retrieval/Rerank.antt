-- ===== src/Retrieval/Rerank.antt =====
-- rerank/protocol.py: the checks of the candidates in front of a reranker.
pub mod Laws
pub mod Archive
use mama_gift.Base.{
  Bool, List, Option, Result, String, [], distinct, err, guard, if◌then◌else◌, list_eq, map, nat_eq,
  none, not, ok, option_eq, some, string_eq, true, ℕ, ◌&&◌, ◌==◌, ◌>>=◌, ◌>>◌, ◌||◌, ◌∷◌,
}
use mama_gift.Retrieval.ArchiveEvidence.{is_allowed_document, is_blank}
use mama_gift.Retrieval.Chunk.{Chunk, ScoredChunk}
use mama_gift.Retrieval.Errors.{
  RetrievalError, document_not_allowed, duplicate_identities, missing_document_id, missing_run_id,
  missing_version, mixed_provenance, mixed_versions,
}

abbrev pub same_provenance : Chunk → Chunk → Bool
same_provenance a b =
    a.document_id == b.document_id
    && (a.document_version == b.document_version && a.parse_run_id == b.parse_run_id)

-- What `doc_provenance` holds for a document: its version and parse run.
pub record DocProvenance : Type 0 where
  pub doc_id : String
  pub version : ℕ
  pub parse_run : String

-- doc_provenance.get(document_id)
unfoldable pub find_provenance : String → List DocProvenance → Option DocProvenance
find_provenance doc_id [] = none
find_provenance doc_id (p ∷ ps) = if doc_id == p.doc_id then some p else find_provenance doc_id ps

-- the comparison with the document's earlier candidates; the dictionary behind it
unfoldable pub check_provenance :
    Chunk
    → ℕ
    → List DocProvenance
    → Option DocProvenance
    → Result RetrievalError (List DocProvenance)
check_provenance chunk version known none = ok (
    record { doc_id = chunk.document_id; version = version; parse_run = chunk.parse_run_id }
    ∷ known)
check_provenance chunk version known (some p) =
    if not (p.parse_run == chunk.parse_run_id) || not (p.version == version)
    then err (mixed_versions chunk.document_id)
    else ok known

-- the version of a chunk that has one
unfoldable pub version_of : Chunk → Result RetrievalError ℕ
version_of chunk = elim chunk.document_version [
  | none ↦ err (missing_version chunk.chunk_id)
  | some version ↦ ok version
]

-- the body of the loop
unfoldable pub check_archive_candidate :
    Option (List String) → List DocProvenance → Chunk → Result RetrievalError (List DocProvenance)
unfolding version_of check_provenance find_provenance
check_archive_candidate allowed known chunk = do
  guard (not (is_blank chunk.document_id)) (missing_document_id chunk.chunk_id)
  guard (not (is_blank chunk.parse_run_id)) (missing_run_id chunk.chunk_id)
  version ← version_of chunk
  guard (is_allowed_document allowed chunk.document_id) (document_not_allowed chunk.chunk_id)
  check_provenance chunk version known (find_provenance chunk.document_id known)

unfoldable pub check_archive_candidates :
    Option (List String) → List DocProvenance → List Chunk → Result RetrievalError (Unit {0})
unfolding check_archive_candidate
check_archive_candidates allowed known [] = ok tt
check_archive_candidates allowed known (c ∷ cs) = do
  known' ← check_archive_candidate allowed known c
  check_archive_candidates allowed known' cs

-- `len(provenance) <= 1`: every candidate has the provenance of the first
unfoldable pub all_of : Chunk → List Chunk → Bool
all_of first [] = true
all_of first (c ∷ cs) = same_provenance c first && all_of first cs

unfoldable pub one_provenance : List Chunk → Bool
unfolding all_of
one_provenance [] = true
one_provenance (c ∷ cs) = all_of c cs

module _ {Score : Type 0} where
  unfoldable pub validate_rerank_candidates :
      List (ScoredChunk Score) → Result RetrievalError (Unit {0})
  unfolding one_provenance
  validate_rerank_candidates candidates = do
    guard (distinct (map (λ c. c.chunk.chunk_id) candidates)) duplicate_identities
    guard (one_provenance (map (λ c. c.chunk) candidates)) mixed_provenance

  unfoldable pub validate_archive_rerank_candidates :
      List (ScoredChunk Score) → Option (List String) → Result RetrievalError (Unit {0})
  unfolding check_archive_candidates
  validate_archive_rerank_candidates candidates allowed = do
    guard (distinct (map (λ c. c.chunk.chunk_id) candidates)) duplicate_identities
    check_archive_candidates allowed [] (map (λ c. c.chunk) candidates)
