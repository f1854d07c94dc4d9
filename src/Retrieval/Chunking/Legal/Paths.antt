-- ===== src/Retrieval/Chunking/Legal/Paths.antt =====
-- The way up from a node of the hierarchy ends, also where the parents form a cycle.
use mama_gift.Base.{
  Bool-cases, In, List, Option, String, [], arith, at_head, contains, contains_self, false,
  if◌then◌else◌, in_tail, inl, inr, length, list_eq, nat_eq, none, option_eq, refl, some,
  some-injective, string_eq, subst, suc, zero, ℕ, ◌+◌, ◌<◌, ◌∷◌, ◌≡◌, ◌≢◌, ◌≤◌, ◌⊎◌,
}
use mama_gift.Docpipe.Canonical.{HierarchyNode}
use mama_gift.Retrieval.Chunk.{ChunkType}
use mama_gift.Retrieval.Chunking.Legal.{
  find_node, later_or, parent_node, path_from, section_path, this_node,
}

pub later_or-cases :
    {A : Type 0} (later this : Option A) {a : A}
    → later_or later this ≡ some a
    → (later ≡ some a) ⊎ (this ≡ some a)
unfolding later_or
later_or-cases (some b) this h = inl h
later_or-cases none this h = inr h

this_node-eq :
    (id : String) (node : HierarchyNode) (o : Option ChunkType) {found : HierarchyNode}
    → this_node id node o ≡ some found
    → node ≡ found
unfolding this_node
this_node-eq id node none h = absurd (ground arith)
this_node-eq id node (some type) h = ground arith

find_node-In :
    (id : String) (nodes : List HierarchyNode) {found : HierarchyNode}
    → find_node id nodes ≡ some found
    → In found nodes
unfolding find_node
find_node-In id [] h = absurd (ground arith)
find_node-In id (node ∷ nodes) h = elim (later_or-cases (find_node id nodes) _ h) [
  | inl later ↦ in_tail node (find_node-In id nodes later)
  | inr this ↦ subst (λ n. In n (node ∷ nodes)) (this_node-eq id node _ this) (at_head nodes)
]

parent_node-In :
    (nodes : List HierarchyNode) (parent : Option String) {found : HierarchyNode}
    → parent_node nodes parent ≡ some found
    → In found nodes
unfolding parent_node
parent_node-In nodes none h = absurd (ground arith)
parent_node-In nodes (some id) h = find_node-In id nodes (ground arith)

-- how many nodes the walk has not seen
unseen : List String → List HierarchyNode → ℕ
unseen seen [] = 0
unseen seen (node ∷ nodes) =
    let rest = unseen seen nodes in if contains node.id seen then rest else suc rest

unseen_mono :
    (id : String) (seen : List String) (nodes : List HierarchyNode)
    → unseen (id ∷ seen) nodes ≤ unseen seen nodes
unfolding unseen
unseen_mono id seen [] = ground arith
unseen_mono id seen (node ∷ nodes) = ground (arith, unseen_mono id seen nodes)

unseen_le : (seen : List String) (nodes : List HierarchyNode) → unseen seen nodes ≤ length nodes
unfolding unseen
unseen_le seen [] = ground arith
unseen_le seen (node ∷ nodes) = ground (arith, unseen_le seen nodes)

-- seeing a node that was not seen leaves one less
unseen_visit :
    {node : HierarchyNode} (seen : List String) {nodes : List HierarchyNode}
    → In node nodes
    → contains node.id seen ≡ false
    → unseen (node.id ∷ seen) nodes < unseen seen nodes
unfolding unseen
unseen_visit {node} seen (at_head nodes) n =
    ground (arith, unseen_mono node.id seen nodes, contains_self node.id seen)
unseen_visit {node} seen (in_tail other {xs = nodes} i) n =
    ground (arith, unseen_visit {node = node} seen i n)

path_from-finishes :
    (fuel : ℕ) (nodes : List HierarchyNode) (seen path : List String)
    (current : Option HierarchyNode)
    → ((node : HierarchyNode) → current ≡ some node → In node nodes)
    → unseen seen nodes + 1 ≤ fuel
    → path_from fuel nodes seen path current ≢ none
unfolding path_from
path_from-finishes zero nodes seen path current i le h = omega arith
path_from-finishes (suc fuel) nodes seen path none i le h = ground arith
path_from-finishes (suc fuel) nodes seen path (some node) i le h =
    elim (Bool-cases (contains node.id seen)) [
      | inl s ↦ ground arith
      | inr s ↦
          path_from-finishes fuel nodes (node.id ∷ seen) (node.label ∷ path)
            (parent_node nodes node.parent_id) (λ n e. parent_node-In nodes node.parent_id e)
            (ground (arith, unseen_visit {node = node} seen (i node refl) s)) (ground arith)
    ]

-- The way up from a node of a document ends before its turns do, also where parents form a cycle.
pub section_path_finishes :
    (node : HierarchyNode) (nodes : List HierarchyNode)
    → In node nodes
    → section_path node nodes ≢ none
unfolding section_path
section_path_finishes node nodes i h =
    path_from-finishes (suc (suc (length nodes))) nodes [] [] (some node)
      (λ n e. subst (λ m. In m nodes) (some-injective e) i) (ground (arith, unseen_le [] nodes)) h
