-- ===== src/Retrieval/Chunk/Tree.antt =====
-- chunk.py, validate_chunk_tree: the structural check of a chunk set.
pub mod Laws
pub mod Sound
use mama_gift.Base.{
  List, Option, Result, String, [], contains, err, guard, if◌then◌else◌, length, list_eq, nat_eq,
  none, not, ok, option_eq, some, string_eq, suc, zero, ℕ, ◌==◌, ◌>>=◌, ◌>>◌, ◌∷◌,
}
use mama_gift.Retrieval.Chunk.{Chunk, find_chunk}
use mama_gift.Retrieval.Errors.{
  RetrievalError, duplicate_chunk, parent_cycle, parent_other_document, parent_other_run,
  parent_other_version, self_parent, unknown_parent, walk_unfinished,
}

-- the first loop: no identifier occurs twice
unfoldable pub check_unique : List String → List Chunk → Result RetrievalError (Unit {0})
check_unique seen [] = ok tt
check_unique seen (c ∷ cs) = do
  guard (not (contains c.chunk_id seen)) (duplicate_chunk c.chunk_id)
  check_unique (c.chunk_id ∷ seen) cs

-- the tests on the parent that was looked up
unfoldable pub check_found : Chunk → Option Chunk → Result RetrievalError (Unit {0})
check_found chunk none = err (unknown_parent chunk.chunk_id)
check_found chunk (some parent) = do
  guard (parent.document_id == chunk.document_id) (parent_other_document chunk.chunk_id)
  guard (parent.parse_run_id == chunk.parse_run_id) (parent_other_run chunk.chunk_id)
  guard (parent.document_version == chunk.document_version) (parent_other_version chunk.chunk_id)

-- the body of the second loop, by the chunk's parent
unfoldable pub check_parent : List Chunk → Chunk → Option String → Result RetrievalError (Unit {0})
unfolding find_chunk check_found
check_parent by_id chunk none = ok tt
check_parent by_id chunk (some parent_id) = do
  guard (not (parent_id == chunk.chunk_id)) (self_parent chunk.chunk_id)
  check_found chunk (find_chunk parent_id by_id)

unfoldable pub check_parents : List Chunk → List Chunk → Result RetrievalError (Unit {0})
unfolding check_parent
check_parents by_id [] = ok tt
check_parents by_id (c ∷ cs) = do check_parent by_id c c.parent_chunk_id; check_parents by_id cs

-- How the walk up the parents ends.
pub data WalkEnd : Type 0 where
  reaches_root closes_cycle out_of_fuel : WalkEnd

-- The `while` loop, on fuel; `curr` is the chunk that the walk is at, `parent_id` its parent.
unfoldable pub walk_up : ℕ → List Chunk → List String → Option Chunk → WalkEnd
unfolding find_chunk
walk_up zero by_id visited curr = out_of_fuel
walk_up (suc fuel) by_id visited none = reaches_root
walk_up (suc fuel) by_id visited (some curr) = elim curr.parent_chunk_id [
  | none ↦ reaches_root
  | some parent_id ↦
      let beyond = walk_up fuel by_id (parent_id ∷ visited) (find_chunk parent_id by_id) in
      if contains parent_id visited then closes_cycle else beyond
]

unfoldable pub walk_verdict : Chunk → WalkEnd → Result RetrievalError (Unit {0})
walk_verdict chunk reaches_root = ok tt
walk_verdict chunk closes_cycle = err (parent_cycle chunk.chunk_id)
walk_verdict chunk out_of_fuel = err (walk_unfinished chunk.chunk_id)

-- the body of the third loop, by the chunk's parent; the fuel is enough by `walk_up-finishes`
unfoldable pub check_cycle : List Chunk → Chunk → Option String → Result RetrievalError (Unit {0})
unfolding walk_up walk_verdict
check_cycle by_id chunk none = ok tt
check_cycle by_id chunk (some parent_id) =
    walk_verdict chunk
      (walk_up (suc (suc (length by_id))) by_id (chunk.chunk_id ∷ []) (find_chunk parent_id by_id))

unfoldable pub check_cycles : List Chunk → List Chunk → Result RetrievalError (Unit {0})
unfolding check_cycle
check_cycles by_id [] = ok tt
check_cycles by_id (c ∷ cs) = do check_cycle by_id c c.parent_chunk_id; check_cycles by_id cs

unfoldable pub validate_chunk_tree : List Chunk → Result RetrievalError (Unit {0})
unfolding check_unique check_parents check_cycles
validate_chunk_tree chunks = do
  check_unique [] chunks
  check_parents chunks chunks
  check_cycles chunks chunks
