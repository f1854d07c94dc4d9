-- ===== src/Retrieval/Chunk/Tree/Laws.antt =====
-- What the structural check of a chunk set accepts.
use mama_gift.Base.{
  >>=-eq-ok, All, Bool-cases, Fresh, Fresh-cons, List, Option, Option-cases, String, [], arith,
  beq_sym, contains, contains_self, distinct, eq_iff, false, guard, guard-eq-ok, if◌then◌else◌, inl,
  inr, length, list_eq, map, nat_eq, none, not, ok, option_beq_iff, option_eq, refl, some,
  string_eq, subst, suc, sym, true, zero, ℕ, ◌+◌, ◌<◌, ◌==◌, ◌∷◌, ◌≡◌, ◌≢◌, ◌≤◌, ◌⊎◌,
}
use mama_gift.Retrieval.Chunk.{Chunk, find_chunk}
use mama_gift.Retrieval.Chunk.Tree.{
  check_found, check_parent, check_parents, check_unique, closes_cycle, out_of_fuel, reaches_root,
  walk_up,
}
use mama_gift.Retrieval.Errors.{duplicate_chunk}

-- A chunk without a parent, or whose parent is another chunk of the set, of its provenance.
pub record HasParent (by_id : List Chunk) (chunk : Chunk) (parent_id : String) : Type 0 where
  pub parent : Chunk
  pub found : find_chunk parent_id by_id ≡ some parent
  pub other : parent_id ≢ chunk.chunk_id
  pub same_document : parent.document_id ≡ chunk.document_id
  pub same_run : parent.parse_run_id ≡ chunk.parse_run_id
  pub same_version : parent.document_version ≡ chunk.document_version

abbrev pub ParentOk : List Chunk → Chunk → Type 0
ParentOk by_id chunk =
    (chunk.parent_chunk_id ≡ none)
    ⊎ ((p : String) × (chunk.parent_chunk_id ≡ some p) × HasParent by_id chunk p)

-- The walk from a chunk up its parents ends at a chunk without a parent.
pub data Rooted (by_id : List Chunk) : Chunk → Type 0 where
  root : (c : Chunk) → c.parent_chunk_id ≡ none → Rooted by_id c
  child :
      (c parent : Chunk) (p : String)
      → c.parent_chunk_id ≡ some p
      → find_chunk p by_id ≡ some parent
      → Rooted by_id parent
      → Rooted by_id c

pub check_unique_lem :
    (seen : List String) (chunks : List Chunk)
    → check_unique seen chunks ≡ ok tt
    → Fresh seen (map (λ c. c.chunk_id) chunks) × (distinct (map (λ c. c.chunk_id) chunks) ≡ true)
unfolding check_unique
check_unique_lem seen [] h = (tt, refl)
check_unique_lem seen (c ∷ cs) h =
    let (u, g, k) =
      >>=-eq-ok (guard (not (contains c.chunk_id seen)) (duplicate_chunk c.chunk_id)) _ h in
    let fresh = guard-eq-ok (not (contains c.chunk_id seen)) _ g in
    let (f, d) = check_unique_lem (c.chunk_id ∷ seen) cs k in
    let (f', n) = (Fresh-cons c.chunk_id seen (map (λ c. c.chunk_id) cs)).0 f in
    ((ground arith, f'), ground arith)

check_found_lem :
    (by_id : List Chunk) (chunk : Chunk) (p : String) (o : Option Chunk)
    → find_chunk p by_id ≡ o
    → p ≢ chunk.chunk_id
    → check_found chunk o ≡ ok tt
    → HasParent by_id chunk p
unfolding check_found
check_found_lem by_id chunk p none f n h = absurd (ground arith)
check_found_lem by_id chunk p (some parent) f n h =
    let (u, g1, h1) = >>=-eq-ok (guard (parent.document_id == chunk.document_id) _) _ h in
    let (v, g2, h2) = >>=-eq-ok (guard (parent.parse_run_id == chunk.parse_run_id) _) _ h1 in
    record {
      parent = parent;
      found = f;
      other = n;
      same_document = (eq_iff _ _).0 (guard-eq-ok _ _ g1);
      same_run = (eq_iff _ _).0 (guard-eq-ok _ _ g2);
      same_version = (option_beq_iff _ _).0 (guard-eq-ok _ _ h2);
    }

check_parent_lem :
    (by_id : List Chunk) (chunk : Chunk) (o : Option String)
    → chunk.parent_chunk_id ≡ o
    → check_parent by_id chunk o ≡ ok tt
    → ParentOk by_id chunk
unfolding check_parent
check_parent_lem by_id chunk none e h = inl e
check_parent_lem by_id chunk (some p) e h =
    let (u, g, k) = >>=-eq-ok (guard (not (p == chunk.chunk_id)) _) _ h in
    let n : p ≢ chunk.chunk_id = λ q. ground (arith, guard-eq-ok _ _ g, eq_iff p chunk.chunk_id) in
    inr (p, e, check_found_lem by_id chunk p (find_chunk p by_id) refl n k)

pub check_parents_lem :
    (by_id chunks : List Chunk) → check_parents by_id chunks ≡ ok tt → All (ParentOk by_id) chunks
unfolding check_parents
check_parents_lem by_id [] h = tt
check_parents_lem by_id (c ∷ cs) h =
    let (u, g, k) = >>=-eq-ok (check_parent by_id c c.parent_chunk_id) _ h in
    (check_parent_lem by_id c c.parent_chunk_id refl g, check_parents_lem by_id cs k)

-- what holds of all chunks holds of the one that is found
pub find_chunk-All {ℓ} :
    (P : Chunk → Type ℓ) (id : String) (chunks : List Chunk) {c : Chunk}
    → find_chunk id chunks ≡ some c
    → All P chunks
    → P c
unfolding find_chunk
find_chunk-All P id [] f a = absurd (ground arith)
find_chunk-All P id (x ∷ xs) f a = elim (Bool-cases (id == x.chunk_id)) [
  | inl e ↦ subst P (ground arith) a.0
  | inr e ↦ find_chunk-All P id xs (ground arith) a.1
]

-- one turn of the walk, at a chunk with a parent
walk_up_turn :
    (fuel : ℕ) (by_id : List Chunk) (visited : List String) (c : Chunk) (p : String)
    → c.parent_chunk_id ≡ some p
    → walk_up (suc fuel) by_id visited (some c) ≡ (
        if contains p visited
        then closes_cycle
        else walk_up fuel by_id (p ∷ visited) (find_chunk p by_id))
unfolding walk_up
walk_up_turn fuel by_id visited c p e = rw e refl

-- A walk that reaches a root, in a set whose parents exist, is a path to a root.
pub walk_up-Rooted :
    (fuel : ℕ) (by_id : List Chunk) (visited : List String) (c : Chunk)
    → All (ParentOk by_id) by_id
    → ParentOk by_id c
    → walk_up fuel by_id visited (some c) ≡ reaches_root
    → Rooted by_id c
unfolding walk_up
walk_up-Rooted zero by_id visited c a (inl e) h = root c e
walk_up-Rooted zero by_id visited c a (inr q) h = absurd (ground arith)
walk_up-Rooted (suc fuel) by_id visited c a (inl e) h = root c e
walk_up-Rooted (suc fuel) by_id visited c a (inr (p, e, q)) h = child c q.parent p e q.found (
    walk_up-Rooted fuel by_id (p ∷ visited) q.parent a
      (find_chunk-All (ParentOk by_id) p by_id q.found a)
      (subst (λ o. walk_up fuel by_id (p ∷ visited) o ≡ reaches_root) q.found
        (ground (arith, walk_up_turn fuel by_id visited c p e))))

-- how many chunks of the set the walk has not visited
unfoldable pub unvisited : List String → List Chunk → ℕ
unvisited visited [] = 0
unvisited visited (c ∷ cs) =
    let rest = unvisited visited cs in if contains c.chunk_id visited then rest else suc rest

pub unvisited_le :
    (visited : List String) (chunks : List Chunk) → unvisited visited chunks ≤ length chunks
unfolding unvisited
unvisited_le visited [] = ground arith
unvisited_le visited (c ∷ cs) = ground (arith, unvisited_le visited cs)

unvisited_mono :
    (p : String) (visited : List String) (chunks : List Chunk)
    → unvisited (p ∷ visited) chunks ≤ unvisited visited chunks
unfolding unvisited
unvisited_mono p visited [] = ground arith
unvisited_mono p visited (c ∷ cs) = ground (arith, unvisited_mono p visited cs)

-- a visit of a chunk of the set that was not visited leaves one less
unvisited_visit :
    (p : String) (visited : List String) (chunks : List Chunk) {c : Chunk}
    → find_chunk p chunks ≡ some c
    → contains p visited ≡ false
    → unvisited (p ∷ visited) chunks < unvisited visited chunks
unfolding unvisited find_chunk
unvisited_visit p visited [] f n = absurd (ground arith)
unvisited_visit p visited (x ∷ xs) {c} f n = elim (Bool-cases (p == x.chunk_id)) [
  | inl e ↦
      ground (arith, unvisited_mono p visited xs, eq_iff p x.chunk_id, contains_self p visited)
  | inr e ↦
      ground (arith, beq_sym x.chunk_id p, unvisited_visit p visited xs {c = c} (ground arith) n)
]

walk_up_root :
    (fuel : ℕ) (by_id : List Chunk) (visited : List String) (c : Chunk)
    → c.parent_chunk_id ≡ none
    → walk_up (suc fuel) by_id visited (some c) ≡ reaches_root
unfolding walk_up
walk_up_root fuel by_id visited c e = rw e refl

walk_up-none :
    (fuel : ℕ) (by_id : List Chunk) (visited : List String)
    → 1 ≤ fuel
    → walk_up fuel by_id visited none ≡ reaches_root
unfolding walk_up
walk_up-none zero by_id visited le = absurd (omega arith)
walk_up-none (suc fuel) by_id visited le = refl

-- The walk ends before its fuel does: every turn but the last visits another chunk of the set.
pub walk_up-finishes :
    (fuel : ℕ) (by_id : List Chunk) (visited : List String) (o : Option Chunk)
    → unvisited visited by_id + 2 ≤ fuel
    → walk_up fuel by_id visited o ≢ out_of_fuel
unfolding walk_up
walk_up-finishes zero by_id visited o le h = absurd (omega arith)
walk_up-finishes (suc fuel) by_id visited none le h = ground arith
walk_up-finishes (suc fuel) by_id visited (some c) le h = elim (Option-cases c.parent_chunk_id) [
  | inl e ↦ ground (arith, walk_up_root fuel by_id visited c e)
  | inr (p, e) ↦ elim (Option-cases (find_chunk p by_id)) [
    | inl f ↦ ground (
      arith,
      walk_up_turn fuel by_id visited c p e,
      subst (λ o. walk_up fuel by_id (p ∷ visited) o ≡ reaches_root) (sym f)
          (walk_up-none fuel by_id (p ∷ visited) (omega arith)),
    )
    | inr (d, f) ↦ elim (Bool-cases (contains p visited)) [
      | inl v ↦ ground (arith, walk_up_turn fuel by_id visited c p e)
      | inr v ↦
          walk_up-finishes fuel by_id (p ∷ visited) (find_chunk p by_id)
            (ground (arith, unvisited_visit p visited by_id f v))
            (ground (arith, walk_up_turn fuel by_id visited c p e))
    ]
  ]
]
