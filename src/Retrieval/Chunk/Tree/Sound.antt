-- ===== src/Retrieval/Chunk/Tree/Sound.antt =====
-- The verdict of the structural check of a chunk set.
use mama_gift.Base.{
  >>=-eq-ok, All, List, Option, String, [], arith, distinct, err, inl, inr, length, list_eq, map,
  nat_eq, none, ok, option_eq, refl, some, string_eq, subst, suc, true, ◌∷◌, ◌≡◌, ◌≢◌,
}
use mama_gift.Retrieval.Chunk.{Chunk, find_chunk}
use mama_gift.Retrieval.Chunk.Tree.{
  check_cycle, check_cycles, check_found, check_parent, check_parents, check_unique, reaches_root,
  validate_chunk_tree, walk_up, walk_verdict,
}
use mama_gift.Retrieval.Chunk.Tree.Laws.{
  ParentOk, Rooted, check_parents_lem, check_unique_lem, child, find_chunk-All, root, unvisited_le,
  walk_up-Rooted, walk_up-finishes,
}
use mama_gift.Retrieval.Errors.{walk_unfinished}

check_cycle_lem :
    (by_id : List Chunk) (c : Chunk) (o : Option String)
    → All (ParentOk by_id) by_id
    → ParentOk by_id c
    → c.parent_chunk_id ≡ o
    → check_cycle by_id c o ≡ ok tt
    → Rooted by_id c
unfolding check_cycle walk_verdict
check_cycle_lem by_id c none a q e h = root c e
check_cycle_lem by_id c (some p) a (inl n) e h = absurd (ground arith)
check_cycle_lem by_id c (some p) a (inr (p', e', q)) e h =
    let reached : walk_up (suc (suc (length by_id))) by_id (c.chunk_id ∷ []) (find_chunk p by_id)
        ≡ reaches_root =
      ground arith in
    let found : find_chunk p by_id ≡ some q.parent = ground (arith, q.found) in
    child c q.parent p e found (
      walk_up-Rooted (suc (suc (length by_id))) by_id (c.chunk_id ∷ []) q.parent a
        (find_chunk-All (ParentOk by_id) p by_id found a)
        (subst (λ o. walk_up (suc (suc (length by_id))) by_id (c.chunk_id ∷ []) o ≡ reaches_root)
          found reached))

check_cycles_lem :
    (by_id chunks : List Chunk)
    → All (ParentOk by_id) by_id
    → All (ParentOk by_id) chunks
    → check_cycles by_id chunks ≡ ok tt
    → All (Rooted by_id) chunks
unfolding check_cycles
check_cycles_lem by_id [] a q h = tt
check_cycles_lem by_id (c ∷ cs) a q h =
    let (u, g, k) = >>=-eq-ok (check_cycle by_id c c.parent_chunk_id) _ h in
    (check_cycle_lem by_id c c.parent_chunk_id a q.0 refl g, check_cycles_lem by_id cs a q.1 k)

-- A chunk set that passes the check has distinct identifiers; a chunk of it either has no parent or
-- one in the set, another chunk with the same document, parse run and version; and from every chunk
-- the way up its parents ends at a chunk without a parent, so that there is no cycle.
pub validate_chunk_tree_sound :
    (chunks : List Chunk)
    → validate_chunk_tree chunks ≡ ok tt
    → (distinct (map (λ c. c.chunk_id) chunks) ≡ true)
      × All (ParentOk chunks) chunks
      × All (Rooted chunks) chunks
unfolding validate_chunk_tree
validate_chunk_tree_sound chunks h =
    let (u, g, k) = >>=-eq-ok (check_unique [] chunks) _ h in
    let (v, p, c) = >>=-eq-ok (check_parents chunks chunks) _ k in
    let parents = check_parents_lem chunks chunks p in
    ((check_unique_lem [] chunks g).1, parents, check_cycles_lem chunks chunks parents parents c)

check_unique_finishes :
    (seen : List String) (chunks : List Chunk) (id : String)
    → check_unique seen chunks ≢ err (walk_unfinished id)
unfolding check_unique
check_unique_finishes seen [] id h = ground arith
check_unique_finishes seen (c ∷ cs) id h =
    ground (arith, check_unique_finishes (c.chunk_id ∷ seen) cs id)

check_found_finishes :
    (c : Chunk) (o : Option Chunk) (id : String) → check_found c o ≢ err (walk_unfinished id)
unfolding check_found
check_found_finishes c none id h = ground arith
check_found_finishes c (some d) id h = ground arith

check_parent_finishes :
    (by_id : List Chunk) (c : Chunk) (o : Option String) (id : String)
    → check_parent by_id c o ≢ err (walk_unfinished id)
unfolding check_parent
check_parent_finishes by_id c none id h = ground arith
check_parent_finishes by_id c (some p) id h =
    ground (arith, check_found_finishes c (find_chunk p by_id) id)

check_parents_finishes :
    (by_id chunks : List Chunk) (id : String)
    → check_parents by_id chunks ≢ err (walk_unfinished id)
unfolding check_parents
check_parents_finishes by_id [] id h = ground arith
check_parents_finishes by_id (c ∷ cs) id h =
    ground (
      arith,
      check_parent_finishes by_id c c.parent_chunk_id id,
      check_parents_finishes by_id cs id,
    )

check_cycle_finishes :
    (by_id : List Chunk) (c : Chunk) (o : Option String) (id : String)
    → check_cycle by_id c o ≢ err (walk_unfinished id)
unfolding check_cycle walk_verdict
check_cycle_finishes by_id c none id h = ground arith
check_cycle_finishes by_id c (some p) id h = ground (
  arith,
  unvisited_le (c.chunk_id ∷ []) by_id,
  walk_up-finishes (suc (suc (length by_id))) by_id (c.chunk_id ∷ []) (find_chunk p by_id),
)

check_cycles_finishes :
    (by_id chunks : List Chunk) (id : String) → check_cycles by_id chunks ≢ err (walk_unfinished id)
unfolding check_cycles
check_cycles_finishes by_id [] id h = ground arith
check_cycles_finishes by_id (c ∷ cs) id h =
    ground
      (arith, check_cycle_finishes by_id c c.parent_chunk_id id, check_cycles_finishes by_id cs id)

-- The walks of the check end on every chunk set, also one with a cycle or a missing parent: the
-- check never runs out of turns.
pub validate_chunk_tree_finishes :
    (chunks : List Chunk) (id : String) → validate_chunk_tree chunks ≢ err (walk_unfinished id)
unfolding validate_chunk_tree
validate_chunk_tree_finishes chunks id h = ground (
  arith,
  check_unique_finishes [] chunks id,
  check_parents_finishes chunks chunks id,
  check_cycles_finishes chunks chunks id,
)
