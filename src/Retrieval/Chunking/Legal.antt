-- ===== src/Retrieval/Chunking/Legal.antt =====
-- chunking/legal.py: one chunk for every node of the hierarchy.
pub mod Paths
use mama_gift.Base.{
  List, Option, String, Text, [], codes, contains, if◌then◌else◌, length, list_eq, ltb, map, nat_eq,
  none, option_eq, some, string_eq, suc, zero, ℕ, ◌++◌, ◌==◌, ◌∷◌,
}
use mama_gift.Docpipe.Canonical.{
  CanonicalBlock, CanonicalDocument, CanonicalPage, HierarchyKind, HierarchyNode, appendix_kind,
  article_kind, chapter_kind, clause_kind, custom_heading_kind, point_kind, section_kind,
}
use mama_gift.Retrieval.Chunk.{
  Chunk, ChunkType, appendix, legal_article, legal_chapter, legal_clause, legal_point,
  legal_section, meta_text,
}
use mama_gift.Retrieval.Chunking.{chunk_of}
use mama_gift.Retrieval.Chunking.Identifiers.{id_in}

-- _KIND_TO_CHUNK_TYPE; `none` for the kind that the loops skip
unfoldable pub kind_to_chunk_type : HierarchyKind → Option ChunkType
kind_to_chunk_type chapter_kind = some legal_chapter
kind_to_chunk_type section_kind = some legal_section
kind_to_chunk_type article_kind = some legal_article
kind_to_chunk_type clause_kind = some legal_clause
kind_to_chunk_type point_kind = some legal_point
kind_to_chunk_type appendix_kind = some appendix
kind_to_chunk_type custom_heading_kind = none

-- an entry of a dictionary that is filled in order: a later one replaces an earlier
unfoldable pub later_or {ℓ} : {A : Type ℓ} → Option A → Option A → Option A
later_or (some later) this = some later
later_or none this = this

unfoldable pub this_node : String → HierarchyNode → Option ChunkType → Option HierarchyNode
this_node id node none = none
this_node id node (some type) = if node.id == id then some node else none

-- by_id.get(id): the dictionary of the nodes that are no custom headings
unfoldable pub find_node : String → List HierarchyNode → Option HierarchyNode
unfolding kind_to_chunk_type this_node later_or
find_node id [] = none
find_node id (node ∷ nodes) =
    later_or (find_node id nodes) (this_node id node (kind_to_chunk_type node.kind))

-- `by_id.get(parent_id) if parent_id else None`
unfoldable pub parent_node : List HierarchyNode → Option String → Option HierarchyNode
unfolding find_node
parent_node nodes none = none
parent_node nodes (some parent_id) =
    let found = find_node parent_id nodes in if parent_id == "" then none else found

-- The loop of _section_path, on fuel; the path is built from its end. `none` where the fuel runs
-- out, which it does not: `section_path_finishes`.
unfoldable pub path_from :
    ℕ → List HierarchyNode → List String → List String → Option HierarchyNode → Option (List String)
unfolding parent_node
path_from zero nodes seen path current = none
path_from (suc fuel) nodes seen path none = some path
path_from (suc fuel) nodes seen path (some node) =
    let beyond =
      path_from fuel nodes (node.id ∷ seen) (node.label ∷ path)
        (parent_node nodes node.parent_id) in
    if contains node.id seen then some path else beyond

unfoldable pub section_path : HierarchyNode → List HierarchyNode → Option (List String)
unfolding path_from
section_path node nodes = path_from (suc (suc (length nodes))) nodes [] [] (some node)

-- text_by_block and page_by_block: the last block with an identifier counts
unfoldable pub find_in_blocks : String → ℕ → List CanonicalBlock → Option (Text × ℕ)
unfolding later_or
find_in_blocks id page_number [] = none
find_in_blocks id page_number (block ∷ blocks) =
    later_or (find_in_blocks id page_number blocks)
      (if block.id == id then some (block.text, page_number) else none)

unfoldable pub find_block : String → List CanonicalPage → Option (Text × ℕ)
unfolding find_in_blocks later_or
find_block id [] = none
find_block id (page ∷ pages) =
    later_or (find_block id pages) (find_in_blocks id page.page_number page.blocks)

-- the texts and the pages of the source blocks that exist
unfoldable pub source_blocks : List CanonicalPage → List String → List (Text × ℕ)
unfolding find_block
source_blocks pages [] = []
source_blocks pages (id ∷ ids) = elim (find_block id pages) [
  | none ↦ source_blocks pages ids
  | some found ↦ found ∷ source_blocks pages ids
]

-- "\n".join(texts)
unfoldable pub join_texts : List Text → Text
join_texts [] = []
join_texts (t ∷ []) = t
join_texts (t ∷ u ∷ us) = t ++ (b'\n' ∷ join_texts (u ∷ us))

-- sorted({...}) on page numbers
unfoldable pub insert_number : ℕ → List ℕ → List ℕ
insert_number n [] = n ∷ []
insert_number n (m ∷ ms) =
    let rest = insert_number n ms in
    if ltb n m then n ∷ m ∷ ms else if n == m then m ∷ ms else m ∷ rest

unfoldable pub sorted_set : List ℕ → List ℕ
unfolding insert_number
sorted_set [] = []
sorted_set (n ∷ ns) = insert_number n (sorted_set ns)

-- `node.text if node.text else "\n".join(block_texts)`
unfoldable pub node_text : Text → List Text → Text
unfolding join_texts
node_text [] texts = join_texts texts
node_text (c ∷ cs) texts = c ∷ cs

unfoldable pub legal_parent :
    CanonicalDocument → Option ℕ → List HierarchyNode → Option String → Option String
unfolding find_node id_in
legal_parent document version nodes none = none
legal_parent document version nodes (some parent_id) = elim (find_node parent_id nodes) [
  | none ↦ none
  | some parent ↦ if parent_id == "" then none else some (id_in document version parent_id)
]

-- `[]` where the fuel of the path ran out
unfoldable pub path_or_empty : Option (List String) → List String
path_or_empty none = []
path_or_empty (some path) = path

unfoldable pub legal_chunk : CanonicalDocument → Option ℕ → HierarchyNode → ChunkType → Chunk
unfolding chunk_of id_in legal_parent section_path path_or_empty node_text source_blocks sorted_set
legal_chunk document version node type =
    let found = source_blocks document.pages node.source_block_ids in
    chunk_of document version (id_in document version node.id)
      (legal_parent document version document.hierarchy node.parent_id)
      (path_or_empty (section_path node document.hierarchy)) type
      (node_text node.text (map (λ f. f.0) found)) node.source_block_ids
      (sorted_set (map (λ f. f.1) found))
      (("hierarchy_id", meta_text (codes node.id))
        ∷ ("hierarchy_label", meta_text (codes node.label))
        ∷ [])

-- the body of the loop, in front of the chunks of the later nodes
unfoldable pub add_legal_chunk :
    CanonicalDocument → Option ℕ → HierarchyNode → Option ChunkType → List Chunk → List Chunk
unfolding legal_chunk
add_legal_chunk document version node none rest = rest
add_legal_chunk document version node (some type) rest =
    legal_chunk document version node type ∷ rest

unfoldable pub legal_nodes : CanonicalDocument → Option ℕ → List HierarchyNode → List Chunk
unfolding add_legal_chunk kind_to_chunk_type
legal_nodes document version [] = []
legal_nodes document version (node ∷ nodes) =
    add_legal_chunk document version node (kind_to_chunk_type node.kind)
      (legal_nodes document version nodes)

unfoldable pub build_legal_chunks : CanonicalDocument → Option ℕ → List Chunk
unfolding legal_nodes
build_legal_chunks document version = legal_nodes document version document.hierarchy
