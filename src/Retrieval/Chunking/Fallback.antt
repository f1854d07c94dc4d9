-- ===== src/Retrieval/Chunking/Fallback.antt =====
-- chunking/fallback.py: one chunk for every block with text that no other builder claimed.
use Prim.Native.String.{◌++◌ as ◌⧺◌}
use mama_gift.Base.{
  Bool, List, Option, String, [], codes, contains, false, if◌then◌else◌, list_eq, nat_eq, none, not,
  option_eq, some, string_eq, true, ℕ, ◌&&◌, ◌++◌, ◌==◌, ◌||◌, ◌∷◌,
}
use mama_gift.Docpipe.Canonical.{
  BlockType, CanonicalBlock, CanonicalDocument, CanonicalPage, HierarchyKind, HierarchyNode,
  custom_heading_kind, footer_block, header_block, page_number_block, stamp_region_block,
}
use mama_gift.Retrieval.Chunk.{Chunk, meta_text, paragraph}
use mama_gift.Retrieval.Chunking.{chunk_of, has_text, sort_blocks}
use mama_gift.Retrieval.Chunking.Identifiers.{id_in}

-- _SKIP_TYPES
unfoldable pub is_skipped : BlockType → Bool
is_skipped header_block = true
is_skipped footer_block = true
is_skipped page_number_block = true
is_skipped stamp_region_block = true
is_skipped _ = false

-- `node.kind != HierarchyKind.CUSTOM_HEADING`
unfoldable pub is_custom_heading : HierarchyKind → Bool
is_custom_heading custom_heading_kind = true
is_custom_heading _ = false

-- chunk_id_by_hierarchy.get(parent_id)
unfoldable pub chunk_id_by_hierarchy :
    CanonicalDocument → Option ℕ → String → List HierarchyNode → Option String
unfolding is_custom_heading id_in
chunk_id_by_hierarchy document version parent_id [] = none
chunk_id_by_hierarchy document version parent_id (node ∷ nodes) =
    let rest = chunk_id_by_hierarchy document version parent_id nodes in
    if not (is_custom_heading node.kind) && node.id == parent_id
    then some (id_in document version node.id)
    else rest

unfoldable pub fallback_parent : CanonicalDocument → Option ℕ → Option String → Option String
unfolding chunk_id_by_hierarchy
fallback_parent document version none = none
fallback_parent document version (some parent_id) =
    let found = chunk_id_by_hierarchy document version parent_id document.hierarchy in
    if parent_id == "" then none else found

unfoldable pub fallback_chunk : CanonicalDocument → Option ℕ → ℕ → CanonicalBlock → Chunk
unfolding id_in chunk_of fallback_parent
fallback_chunk document version page_number block =
    chunk_of document version (id_in document version ("fallback_" ⧺ block.id))
      (fallback_parent document version block.parent_id) [] paragraph block.text (block.id ∷ [])
      (page_number ∷ []) (("classified_by", meta_text (codes "fallback")) ∷ [])

-- the inner loop: the blocks of one page, in reading order
unfoldable pub fallback_blocks :
    CanonicalDocument → List String → Option ℕ → ℕ → List CanonicalBlock → List Chunk
unfolding fallback_chunk has_text is_skipped
fallback_blocks document claimed version page_number [] = []
fallback_blocks document claimed version page_number (block ∷ blocks) =
    let rest = fallback_blocks document claimed version page_number blocks in
    if contains block.id claimed || not (has_text block.text)
    then rest
    else if is_skipped block.type
    then rest
    else fallback_chunk document version page_number block ∷ rest

unfoldable pub fallback_pages :
    CanonicalDocument → List String → Option ℕ → List CanonicalPage → List Chunk
unfolding fallback_blocks sort_blocks
fallback_pages document claimed version [] = []
fallback_pages document claimed version (page ∷ pages) =
    fallback_blocks document claimed version page.page_number (sort_blocks page.blocks)
    ++ fallback_pages document claimed version pages

unfoldable pub build_fallback_chunks : CanonicalDocument → List String → Option ℕ → List Chunk
unfolding fallback_pages
build_fallback_chunks document claimed version =
    fallback_pages document claimed version document.pages
