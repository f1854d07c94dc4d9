-- ===== src/Docpipe/Canonical.antt =====
-- canonical.py: the canonical document, and the validators that its models run when one is built.
-- Numbers with a fraction (boxes, sizes, confidences) and the open dictionaries are left out.
pub mod Checks
pub mod Laws
use mama_gift.Base.{
  List, Option, Result, String, Text, [], contains, guard, length, list_eq, map, nat_eq, none, not,
  ok, option_eq, some, string_eq, suc, zero, ℕ, ◌++◌, ◌==◌, ◌>>=◌, ◌>>◌, ◌∷◌,
}

pub data BlockType : Type 0 where
  title_block heading_block paragraph_block list_item_block table_block table_cell_block : BlockType
  caption_block header_block footer_block page_number_block signature_block : BlockType
  stamp_region_block image_block formula_block unknown_block : BlockType

pub data HierarchyKind : Type 0 where
  chapter_kind section_kind article_kind clause_kind point_kind : HierarchyKind
  appendix_kind custom_heading_kind : HierarchyKind

pub record CanonicalBlock : Type 0 where
  pub id : String
  pub type : BlockType
  pub text : Text
  pub reading_order : ℕ
  pub parent_id : Option String
  pub provenance_page : ℕ

pub record CanonicalPage : Type 0 where
  pub page_number : ℕ
  pub rotation : ℕ
  pub blocks : List CanonicalBlock

pub record HierarchyNode : Type 0 where
  pub id : String
  pub kind : HierarchyKind
  pub label : String
  pub text : Text
  pub parent_id : Option String
  pub source_block_ids : List String

pub record CanonicalTable : Type 0 where
  pub id : String
  pub page_number : ℕ
  pub block_id : String
  pub n_rows : ℕ
  pub n_cols : ℕ
  pub cells : List (List String)

pub record CanonicalField : Type 0 where
  pub id : String
  pub name : String
  pub raw_value : Option String
  pub normalized_value : Option String
  pub source_block_ids : List String
  pub source_page_numbers : List ℕ

pub record CanonicalDocument : Type 0 where
  pub schema_version : String
  pub document_id : String
  pub parser_run_id : String
  pub pages : List CanonicalPage
  pub hierarchy : List HierarchyNode
  pub tables : List CanonicalTable
  pub extracted_fields : List CanonicalField

-- the ValueErrors, with the identifiers that their messages name
pub data CanonicalError : Type 0 where
  bad_rotation : ℕ → CanonicalError
  duplicate_reading_order : ℕ → ℕ → CanonicalError
  wrong_provenance_page : String → CanonicalError
  wrong_row_count wrong_cell_count : String → CanonicalError
  unsupported_schema_version : String → CanonicalError
  misnumbered_pages : List ℕ → CanonicalError
  duplicate_block_id duplicate_hierarchy_id : String → CanonicalError
  unknown_block_parent unknown_hierarchy_parent : String → String → CanonicalError
  unknown_hierarchy_block unknown_table_block unknown_field_block : String → String → CanonicalError
  unknown_table_page unknown_field_page : String → ℕ → CanonicalError

-- a `for` loop of checks
unfoldable pub check_each {ℓ κ} :
    {E : Type ℓ} {A : Type κ} → (A → Result E (Unit {0})) → List A → Result E (Unit {0})
check_each check [] = ok tt
check_each check (a ∷ rest) = do check a; check_each check rest

-- CanonicalPage._validate_page: the loop over the blocks, with the orders seen so far
unfoldable pub check_page_blocks :
    ℕ → List ℕ → List CanonicalBlock → Result CanonicalError (Unit {0})
check_page_blocks page_number seen_orders [] = ok tt
check_page_blocks page_number seen_orders (block ∷ blocks) = do
  guard (not (contains block.reading_order seen_orders))
      (duplicate_reading_order block.reading_order page_number)
  guard (block.provenance_page == page_number) (wrong_provenance_page block.id)
  check_page_blocks page_number (block.reading_order ∷ seen_orders) blocks

unfoldable pub validate_page : CanonicalPage → Result CanonicalError (Unit {0})
unfolding check_page_blocks
validate_page page = do
  guard (contains page.rotation (0 ∷ 90 ∷ 180 ∷ 270 ∷ [])) (bad_rotation page.rotation)
  check_page_blocks page.page_number [] page.blocks

-- CanonicalTable._validate_shape
unfoldable pub validate_shape : CanonicalTable → Result CanonicalError (Unit {0})
unfolding check_each
validate_shape table = do
  guard (length table.cells == table.n_rows) (wrong_row_count table.id)
  check_each (λ row. guard (length row == table.n_cols) (wrong_cell_count table.id)) table.cells

-- range(first, first + length)
unfoldable pub range_from : ℕ → ℕ → List ℕ
range_from first zero = []
range_from first (suc n) = first ∷ range_from (suc first) n

unfoldable pub block_ids : List CanonicalPage → List String
block_ids [] = []
block_ids (page ∷ pages) = map (λ block. block.id) page.blocks ++ block_ids pages

-- the two loops that fill `block_ids` and `hierarchy_ids`
unfoldable pub check_ids :
    (String → CanonicalError) → List String → List String → Result CanonicalError (Unit {0})
check_ids duplicate seen [] = ok tt
check_ids duplicate seen (id ∷ ids) = do
  guard (not (contains id seen)) (duplicate id)
  check_ids duplicate (id ∷ seen) ids

-- `parent_id is not None and parent_id not in known`
unfoldable pub check_known :
    (String → CanonicalError) → List String → Option String → Result CanonicalError (Unit {0})
check_known unknown known none = ok tt
check_known unknown known (some parent_id) = guard (contains parent_id known) (unknown parent_id)

unfoldable pub check_node :
    List String → List String → HierarchyNode → Result CanonicalError (Unit {0})
unfolding check_known check_each
check_node blocks hierarchy_ids node = do
  check_known (unknown_hierarchy_parent node.id) hierarchy_ids node.parent_id
  check_each (λ id. guard (contains id blocks) (unknown_hierarchy_block node.id id))
      node.source_block_ids

unfoldable pub check_table :
    List String → List ℕ → CanonicalTable → Result CanonicalError (Unit {0})
check_table blocks page_numbers table = do
  guard (contains table.page_number page_numbers) (unknown_table_page table.id table.page_number)
  guard (contains table.block_id blocks) (unknown_table_block table.id table.block_id)

unfoldable pub check_field :
    List String → List ℕ → CanonicalField → Result CanonicalError (Unit {0})
unfolding check_each
check_field blocks page_numbers field = do
  check_each (λ id. guard (contains id blocks) (unknown_field_block field.id id))
      field.source_block_ids
  check_each (λ n. guard (contains n page_numbers) (unknown_field_page field.id n))
      field.source_page_numbers

-- CanonicalDocument._validate_document
unfoldable pub validate_document : CanonicalDocument → Result CanonicalError (Unit {0})
unfolding check_each check_known check_node check_table check_field check_ids range_from block_ids
validate_document document =
    let blocks = block_ids document.pages in
    let nodes = map (λ node. node.id) document.hierarchy in
    let numbers = map (λ page. page.page_number) document.pages in
    do
      guard (document.schema_version == "1.0") (unsupported_schema_version document.schema_version)
      guard (numbers == range_from 1 (length document.pages)) (misnumbered_pages numbers)
      check_ids duplicate_block_id [] blocks
      check_ids duplicate_hierarchy_id [] nodes
      check_each
          (λ page.
            check_each
              (λ block.
                check_known (unknown_block_parent block.id) (blocks ++ nodes) block.parent_id)
              page.blocks)
          document.pages
      check_each (check_node blocks nodes) document.hierarchy
      check_each (check_table blocks numbers) document.tables
      check_each (check_field blocks numbers) document.extracted_fields
