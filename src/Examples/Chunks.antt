-- ===== src/Examples/Chunks.antt =====
-- Instances of chunk.py and evidence/expansion.py.
use mama_gift.Base.{
  All, List, [], contains, distinct, err, false, length, list_eq, map, nat_eq, none, ok, option_eq,
  refl, some, string_eq, true, ℕ, ◌*◌, ◌∷◌, ◌≡◌, ◌≢◌, ◌≤◌,
}
use mama_gift.Examples.Samples.{one_document, sample_chunk, scored}
use mama_gift.Retrieval.Chunk.{Chunk, ScoredChunk, find_chunk}
use mama_gift.Retrieval.Chunk.Tree.{validate_chunk_tree}
use mama_gift.Retrieval.Chunk.Tree.Laws.{ParentOk, Rooted}
use mama_gift.Retrieval.Chunk.Tree.Sound.{validate_chunk_tree_finishes, validate_chunk_tree_sound}
use mama_gift.Retrieval.Errors.{parent_cycle, walk_unfinished}
use mama_gift.Retrieval.Expansion.{
  both_given, checked_parent, expand_evidence, is_allowed, next_parent, result_ids, same_scope,
}
use mama_gift.Retrieval.Expansion.Laws.{FromCandidate, expand_evidence_sound}
use mama_gift.Retrieval.Provenance.{chunk_scope}
use mama_gift.Retrieval.Scope.{scope_matches}

abbrev pub section_sample : Chunk
section_sample = sample_chunk "s" (some 1) (7 ∷ [])

abbrev pub task_sample : Chunk
task_sample = record (sample_chunk "t" (some 1) (8 ∷ 9 ∷ [])) { parent_chunk_id = some "s" }

abbrev pub tree : List Chunk
tree = task_sample ∷ section_sample ∷ []

-- two chunks that are each other's parent
abbrev loop : List Chunk
loop = task_sample ∷ record section_sample { parent_chunk_id = some "t" } ∷ []

tree_accepted : validate_chunk_tree tree ≡ ok tt
unfolding validate_chunk_tree
tree_accepted = refl

loop_refused : validate_chunk_tree loop ≡ err (parent_cycle "t")
unfolding validate_chunk_tree
loop_refused = refl

validate_chunk_tree_sound_example :
    (distinct (map (λ c. c.chunk_id) tree) ≡ true)
    × All (ParentOk tree) tree
    × All (Rooted tree) tree
validate_chunk_tree_sound_example = validate_chunk_tree_sound tree tree_accepted

validate_chunk_tree_finishes_example : validate_chunk_tree loop ≢ err (walk_unfinished "t")
validate_chunk_tree_finishes_example = validate_chunk_tree_finishes loop "t"

abbrev found : List (ScoredChunk ℕ)
found = scored task_sample ∷ []

abbrev expanded : List (ScoredChunk ℕ)
expanded = scored task_sample ∷ scored section_sample ∷ []

found_expanded : expand_evidence found one_document (some tree) none 3 ≡ ok expanded
unfolding expand_evidence next_parent find_chunk checked_parent is_allowed same_scope scope_matches
    chunk_scope
found_expanded = refl

expand_evidence_sound_example :
    (3 ≤ 3)
    × (both_given (some tree) none ≡ false)
    × All (FromCandidate 3 one_document found) expanded
    × (distinct (result_ids expanded) ≡ true)
    × All (λ c. contains c.chunk.chunk_id (result_ids expanded) ≡ true) found
    × (length expanded ≤ 4 * length found)
expand_evidence_sound_example =
    expand_evidence_sound found one_document (some tree) none 3 found_expanded
