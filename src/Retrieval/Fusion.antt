-- ===== src/Retrieval/Fusion.antt =====
-- search/fusion.py: reciprocal rank fusion of the lists of several retrievers. The floating-point sums
-- are a parameter: a score type with its zero, the addition of 1 / (RRF_K + rank), and the test for
-- a greater score.
pub mod Merge
pub mod Sort
pub mod Laws
pub mod Sound
use Prim.Native.Nat.{Ordering}
use Prim.Native.String.{compare}
use mama_gift.Base.{
  Bool, List, Option, Result, String, [], contains, err, false, guard, if◌then◌else◌, list_eq,
  nat_eq, none, not, ok, option_eq, some, string_eq, true, ℕ, ◌+◌, ◌==◌, ◌>>=◌, ◌>>◌, ◌∷◌,
}
use mama_gift.Retrieval.ArchiveEvidence.{is_allowed_document}
use mama_gift.Retrieval.ArchiveScope.{validate_archive_scope}
use mama_gift.Retrieval.Chunk.{Chunk, ScoredChunk, fused}
use mama_gift.Retrieval.Errors.{
  RetrievalError, archive_wildcard, document_not_allowed, duplicate_chunk, no_document_id,
  no_document_version, no_parse_run_id, rank_not_dense, scope_required, scope_violation,
}
use mama_gift.Retrieval.Provenance.{chunk_scope}
use mama_gift.Retrieval.Scope.{EvidenceScope, scope_matches}

pub record ScoreOps (Score : Type 0) : Type 0 where
  pub zero_score : Score
  pub add_rank : Score → ℕ → Score
  pub greater : Score → Score → Bool

unfoldable pub validate_fusion_scope : EvidenceScope → Result RetrievalError (Unit {0})
validate_fusion_scope scope = do
  guard (not scope.archive_scope) archive_wildcard
  guard (not (scope.document_id == none)) no_document_id
  guard (not (scope.document_version == none)) no_document_version
  guard (not (scope.parse_run_id == none)) no_parse_run_id

-- An entry of the dictionaries `fused_scores` and `chunks`, which have the same keys.
pub record FusedEntry (Score : Type 0) : Type 0 where
  pub chunk : Chunk
  pub total : Score

module _ {Score : Type 0} where
  -- the body of the loop in `_validate_result_list`
  unfoldable pub validate_result :
      EvidenceScope
      → Option (List String)
      → ℕ
      → List String
      → ScoredChunk Score
      → Result RetrievalError (Unit {0})
  unfolding is_allowed_document
  validate_result scope allowed expected_rank seen r = do
    guard (r.rank == expected_rank) (rank_not_dense expected_rank r.rank)
    guard (not (contains r.chunk.chunk_id seen)) (duplicate_chunk r.chunk.chunk_id)
    guard (is_allowed_document allowed r.chunk.document_id) (document_not_allowed r.chunk.chunk_id)
    guard (scope_matches (chunk_scope scope r.chunk) scope) (scope_violation r.chunk.chunk_id)

  unfoldable pub validate_result_list :
      EvidenceScope
      → Option (List String)
      → ℕ
      → List String
      → List (ScoredChunk Score)
      → Result RetrievalError (Unit {0})
  unfolding validate_result
  validate_result_list scope allowed expected_rank seen [] = ok tt
  validate_result_list scope allowed expected_rank seen (r ∷ rs) = do
    validate_result scope allowed expected_rank seen r
    validate_result_list scope allowed (expected_rank + 1) (r.chunk.chunk_id ∷ seen) rs

  unfoldable pub validate_result_lists :
      EvidenceScope
      → Option (List String)
      → List (List (ScoredChunk Score))
      → Result RetrievalError (Unit {0})
  unfolding validate_result_list
  validate_result_lists scope allowed [] = ok tt
  validate_result_lists scope allowed (rs ∷ lists) = do
    validate_result_list scope allowed 1 [] rs
    validate_result_lists scope allowed lists

  -- one result is added to the entries
  unfoldable pub add_result :
      ScoreOps Score → ScoredChunk Score → List (FusedEntry Score) → List (FusedEntry Score)
  add_result ops r [] = record { chunk = r.chunk; total = ops.add_rank ops.zero_score r.rank } ∷ []
  add_result ops r (e ∷ es) =
      let rest = add_result ops r es in
      if r.chunk.chunk_id == e.chunk.chunk_id
      then record e { total = ops.add_rank e.total r.rank } ∷ es
      else e ∷ rest

  unfoldable pub add_results :
      ScoreOps Score → List (ScoredChunk Score) → List (FusedEntry Score) → List (FusedEntry Score)
  unfolding add_result
  add_results ops [] entries = entries
  add_results ops (r ∷ rs) entries = add_results ops rs (add_result ops r entries)

  unfoldable pub add_lists :
      ScoreOps Score
      → List (List (ScoredChunk Score))
      → List (FusedEntry Score)
      → List (FusedEntry Score)
  unfolding add_results
  add_lists ops [] entries = entries
  add_lists ops (rs ∷ lists) entries = add_lists ops lists (add_results ops rs entries)

  -- the order of the key (-score, chunk_id)
  unfoldable pub entry_before : ScoreOps Score → FusedEntry Score → FusedEntry Score → Bool
  entry_before ops a b =
      if ops.greater a.total b.total
      then true
      else if ops.greater b.total a.total
      then false
      else (elim (compare a.chunk.chunk_id b.chunk.chunk_id) [ Ordering.lt ↦ true | _ ↦ false ])

  unfoldable pub insert_entry :
      ScoreOps Score → FusedEntry Score → List (FusedEntry Score) → List (FusedEntry Score)
  unfolding entry_before
  insert_entry ops e [] = e ∷ []
  insert_entry ops e (x ∷ xs) =
      let rest = insert_entry ops e xs in if entry_before ops x e then x ∷ rest else e ∷ x ∷ xs

  -- `sorted`
  unfoldable pub sort_entries : ScoreOps Score → List (FusedEntry Score) → List (FusedEntry Score)
  unfolding insert_entry
  sort_entries ops [] = []
  sort_entries ops (e ∷ es) = insert_entry ops e (sort_entries ops es)

  -- the results of the sorted entries, ranked from `rank` on
  unfoldable pub ranked : ℕ → List (FusedEntry Score) → List (ScoredChunk Score)
  ranked rank [] = []
  ranked rank (e ∷ es) =
      record { chunk = e.chunk; score = e.total; rank = rank; retriever = fused }
      ∷ ranked (rank + 1) es

  unfoldable pub fuse_by_rank :
      ScoreOps Score → List (List (ScoredChunk Score)) → List (ScoredChunk Score)
  unfolding add_lists sort_entries ranked
  fuse_by_rank ops lists = ranked 1 (sort_entries ops (add_lists ops lists []))

  -- `not any(ranked_results)`, which holds of an empty sequence too
  unfoldable pub all_empty : List (List (ScoredChunk Score)) → Bool
  all_empty [] = true
  all_empty ([] ∷ lists) = all_empty lists
  all_empty ((r ∷ rs) ∷ lists) = false

  unfoldable pub fuse_in_scope :
      ScoreOps Score
      → List (List (ScoredChunk Score))
      → Option EvidenceScope
      → Result RetrievalError (List (ScoredChunk Score))
  unfolding validate_fusion_scope validate_result_lists fuse_by_rank
  fuse_in_scope ops lists none = err scope_required
  fuse_in_scope ops lists (some scope) = do
    validate_fusion_scope scope
    validate_result_lists scope none lists
    ok (fuse_by_rank ops lists)

  unfoldable pub reciprocal_rank_fusion :
      ScoreOps Score
      → List (List (ScoredChunk Score))
      → Option EvidenceScope
      → Result RetrievalError (List (ScoredChunk Score))
  unfolding all_empty fuse_in_scope
  reciprocal_rank_fusion ops lists scope =
      if all_empty lists then ok [] else fuse_in_scope ops lists scope

  unfoldable pub fuse_in_archive :
      ScoreOps Score
      → List (List (ScoredChunk Score))
      → Option (List String)
      → Option EvidenceScope
      → Result RetrievalError (List (ScoredChunk Score))
  unfolding validate_result_lists fuse_by_rank
  fuse_in_archive ops lists allowed none = err scope_required
  fuse_in_archive ops lists allowed (some scope) = do
    validate_archive_scope scope
    validate_result_lists scope allowed lists
    ok (fuse_by_rank ops lists)

  unfoldable pub archive_reciprocal_rank_fusion :
      ScoreOps Score
      → List (List (ScoredChunk Score))
      → Option EvidenceScope
      → Option (List String)
      → Result RetrievalError (List (ScoredChunk Score))
  unfolding all_empty fuse_in_archive
  archive_reciprocal_rank_fusion ops lists scope allowed =
      if all_empty lists then ok [] else fuse_in_archive ops lists allowed scope
