-- ===== src/Retrieval/Expansion.antt =====
-- evidence/expansion.py: retrieved chunks get their ancestors as context, up to a bound on the depth.
pub mod Climb
pub mod Laws
use mama_gift.Base.{
  Bool, List, Option, Result, String, [], contains, false, guard, if◌then◌else◌, leb, list_eq, map,
  nat_eq, none, not, ok, option_eq, some, string_eq, suc, true, zero, ℕ, ◌&&◌, ◌++◌, ◌>>=◌, ◌>>◌,
  ◌||◌, ◌∷◌,
}
use mama_gift.Retrieval.Chunk.{Chunk, ScoredChunk, find_chunk}
use mama_gift.Retrieval.Errors.{RetrievalError, bad_max_depth, two_chunk_sources}
use mama_gift.Retrieval.Provenance.{chunk_scope}
use mama_gift.Retrieval.Scope.{EvidenceScope, scope_matches}

abbrev pub max_ancestor_depth : ℕ
max_ancestor_depth = 3

-- _is_allowed
unfoldable pub is_allowed : Chunk → EvidenceScope → Bool
is_allowed chunk requested = scope_matches (chunk_scope requested chunk) requested

-- the two scopes admit each other
unfoldable pub same_scope : EvidenceScope → Chunk → Chunk → Bool
same_scope scope parent current =
    scope_matches (chunk_scope scope parent) (chunk_scope scope current)
    && scope_matches (chunk_scope scope current) (chunk_scope scope parent)

unfoldable pub checked_parent : EvidenceScope → Chunk → Chunk → Option Chunk
unfolding is_allowed same_scope
checked_parent scope current parent =
    if not (is_allowed parent scope) || not (same_scope scope parent current)
    then none
    else some parent

-- The parent that the walk goes on to; `none` stands for each of its three `break`s.
unfoldable pub next_parent : List Chunk → EvidenceScope → Chunk → Option Chunk
unfolding find_chunk checked_parent
next_parent by_id scope current = elim current.parent_chunk_id [
  | none ↦ none
  | some parent_id ↦ elim (find_chunk parent_id by_id) [
    | none ↦ none
    | some parent ↦ checked_parent scope current parent
  ]
]

-- `by_id` with a candidate that it lacks
unfoldable pub add_chunk : Chunk → List Chunk → List Chunk
unfolding find_chunk
add_chunk chunk by_id = elim (find_chunk chunk.chunk_id by_id) [
  | none ↦ by_id ++ (chunk ∷ [])
  | some known ↦ by_id
]

-- the chunks of the argument that is given
unfoldable pub available_chunks : Option (List Chunk) → Option (List Chunk) → List Chunk
available_chunks (some chunk_tree) chunks = chunk_tree
available_chunks none (some chunks) = chunks
available_chunks none none = []

unfoldable pub both_given : Option (List Chunk) → Option (List Chunk) → Bool
both_given (some chunk_tree) (some chunks) = true
both_given (some chunk_tree) none = false
both_given none chunks = false

module _ {Score : Type 0} where
  unfoldable pub context_candidate : ScoredChunk Score → Chunk → ScoredChunk Score
  context_candidate source chunk = record {
    chunk = chunk;
    score = source.score;
    rank = source.rank;
    retriever = source.retriever;
  }

  -- The loop over the depth: the ancestors that it appends to the result.
  unfoldable pub climb :
      ℕ
      → List Chunk
      → EvidenceScope
      → ScoredChunk Score
      → List String
      → Chunk
      → List (ScoredChunk Score)
  unfolding context_candidate
  climb zero by_id scope source emitted current = []
  climb (suc depth) by_id scope source emitted current = elim (next_parent by_id scope current) [
    | none ↦ []
    | some parent ↦
        if contains parent.chunk_id emitted
        then climb depth by_id scope source emitted parent
        else context_candidate source parent
          ∷ climb depth by_id scope source (parent.chunk_id ∷ emitted) parent
  ]

  abbrev pub result_ids : List (ScoredChunk Score) → List String
  result_ids = map (λ c. c.chunk.chunk_id)

  -- The loop over the candidates. `emitted` holds the identifiers of the result so far.
  unfoldable pub expand_all :
      ℕ
      → EvidenceScope
      → List Chunk
      → List String
      → List (ScoredChunk Score)
      → List (ScoredChunk Score)
  unfolding climb add_chunk
  expand_all max_depth scope by_id emitted [] = []
  expand_all max_depth scope by_id emitted (candidate ∷ candidates) =
      let known = add_chunk candidate.chunk by_id in
      let seen = candidate.chunk.chunk_id ∷ emitted in
      let context = climb max_depth known scope candidate seen candidate.chunk in
      let skipped = expand_all max_depth scope by_id emitted candidates in
      let others = expand_all max_depth scope known (result_ids context ++ seen) candidates in
      if contains candidate.chunk.chunk_id emitted then skipped else candidate ∷ (context ++ others)

  unfoldable pub expand_evidence :
      List (ScoredChunk Score)
      → EvidenceScope
      → Option (List Chunk)
      → Option (List Chunk)
      → ℕ
      → Result RetrievalError (List (ScoredChunk Score))
  unfolding expand_all available_chunks both_given
  expand_evidence candidates scope chunk_tree chunks max_depth = do
    guard (leb max_depth max_ancestor_depth) bad_max_depth
    guard (not (both_given chunk_tree chunks)) two_chunk_sources
    ok (expand_all max_depth scope (available_chunks chunk_tree chunks) [] candidates)
