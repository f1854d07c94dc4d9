-- ===== src/Docpipe/Canonical/Laws.antt =====
-- The documents that the validators of the canonical models accept.
use mama_gift.Base.{
  All, Eq, Fresh, Fresh-cons, Fresh-nil, List, Option, String, [], ap, arith, contains, distinct,
  eq_iff, guard, length, list_beq_iff, list_eq, map, nat_beq_iff, nat_eq, none, not, ok, option_eq,
  refl, some, string_eq, subst, suc, true, ℕ, ◌++◌, ◌==◌, ◌↔◌, ◌∷◌, ◌≡◌,
}
use mama_gift.Docpipe.Canonical.{
  CanonicalBlock, CanonicalDocument, CanonicalError, CanonicalField, CanonicalPage, CanonicalTable,
  HierarchyNode, block_ids, check_each, check_field, check_ids, check_known, check_node,
  check_page_blocks, check_table, duplicate_block_id, duplicate_hierarchy_id,
  duplicate_reading_order, range_from, unknown_block_parent, unknown_field_block,
  unknown_hierarchy_parent, unknown_table_block, unknown_table_page, validate_document,
  validate_page, validate_shape, wrong_row_count,
}
use mama_gift.Docpipe.Canonical.Checks.{
  check_each_iff, check_ids_iff, guard_iff, iff_trans, not_iff, then_iff,
}

-- A parent, where there is one, is among the known identifiers.
abbrev pub Known : List String → Option String → Type 0
Known known none = Unit
Known known (some parent_id) = contains parent_id known ≡ true

check_known_iff :
    (unknown : String → CanonicalError) (known : List String) (parent : Option String)
    → (check_known unknown known parent ≡ ok tt) ↔ Known known parent
unfolding check_known
check_known_iff unknown known none = (λ h. tt, λ h. refl)
check_known_iff unknown known (some p) = guard_iff _ _

-- Every one of the values is among the known ones.
abbrev pub AllKnown {ℓ} : {A : Type ℓ} ⦃e : Eq A⦄ → List A → List A → Type 0
AllKnown known xs = All (λ x. contains x known ≡ true) xs

-- What the models promise of a page, a table and a document, in the order of the checks.
abbrev pub PageOk : CanonicalPage → Type 0
PageOk page =
    (contains page.rotation (0 ∷ 90 ∷ 180 ∷ 270 ∷ []) ≡ true)
    × ((distinct (map (λ b. b.reading_order) page.blocks) ≡ true)
        × All (λ b. b.provenance_page ≡ page.page_number) page.blocks)

abbrev pub ShapeOk : CanonicalTable → Type 0
ShapeOk table =
    (length table.cells ≡ table.n_rows) × All (λ row. length row ≡ table.n_cols) table.cells

-- The pages count up by one from the number `n`.
abbrev pub NumberedFrom : ℕ → List CanonicalPage → Type 0
NumberedFrom n [] = Unit
NumberedFrom n (page ∷ pages) = (page.page_number ≡ n) × NumberedFrom (suc n) pages

-- the identifier of every block of every page
pub ids_of_blocks : List CanonicalPage → List String
ids_of_blocks [] = []
ids_of_blocks (page ∷ pages) = map (λ block. block.id) page.blocks ++ ids_of_blocks pages

-- What the checks promise, by the identifiers of the blocks.
abbrev pub ChecksOk : List String → CanonicalDocument → Type 0
ChecksOk blocks document =
    let nodes = map (λ node. node.id) document.hierarchy in
    let numbers = map (λ page. page.page_number) document.pages in
    let ParentsOk =
      All (λ page. All (λ block. Known (blocks ++ nodes) block.parent_id) page.blocks)
        document.pages in
    let NodesOk =
      All (λ node. Known nodes node.parent_id × AllKnown blocks node.source_block_ids)
        document.hierarchy in
    let TablesOk =
      All
        (λ table.
          (contains table.page_number numbers ≡ true) × (contains table.block_id blocks ≡ true))
        document.tables in
    let FieldsOk =
      All
        (λ field.
          AllKnown blocks field.source_block_ids × AllKnown numbers field.source_page_numbers)
        document.extracted_fields in
    (document.schema_version ≡ "1.0")
    × (NumberedFrom 1 document.pages
        × ((distinct blocks ≡ true)
            × ((distinct nodes ≡ true) × (ParentsOk × (NodesOk × (TablesOk × FieldsOk))))))

-- Block identifiers are distinct among themselves over all pages, and node identifiers are distinct
-- among themselves; a block and a node may share one, and those of tables and fields are free.
abbrev pub DocumentOk : CanonicalDocument → Type 0
DocumentOk document = ChecksOk (ids_of_blocks document.pages) document

NumberedFrom-range_from :
    (n : ℕ) (pages : List CanonicalPage)
    → (map (λ page. page.page_number) pages ≡ range_from n (length pages)) ↔ NumberedFrom n pages
unfolding range_from
NumberedFrom-range_from n [] = (λ h. tt, λ h. refl)
NumberedFrom-range_from n (page ∷ pages) =
    let ih = NumberedFrom-range_from (suc n) pages in
    (λ h. (ground arith, ih.0 (ground arith)), λ h. rw (h.0, ih.1 h.1) refl)

ids_of_blocks-eq : (pages : List CanonicalPage) → block_ids pages ≡ ids_of_blocks pages
unfolding block_ids ids_of_blocks
ids_of_blocks-eq [] = refl
ids_of_blocks-eq (page ∷ pages) =
    ap (λ ids. map (λ block. block.id) page.blocks ++ ids) (ids_of_blocks-eq pages)

check_page_blocks_iff :
    (n : ℕ) (seen : List ℕ) (blocks : List CanonicalBlock)
    → (check_page_blocks n seen blocks ≡ ok tt) ↔ (
        (Fresh seen (map (λ b. b.reading_order) blocks)
          × (distinct (map (λ b. b.reading_order) blocks) ≡ true))
        × All (λ b. b.provenance_page ≡ n) blocks)
unfolding check_page_blocks
check_page_blocks_iff n seen [] = (λ h. ((tt, refl), tt), λ h. refl)
check_page_blocks_iff n seen (b ∷ bs) =
    let ih = check_page_blocks_iff n (b.reading_order ∷ seen) bs in
    let step =
      then_iff
        (guard (not (contains b.reading_order seen)) (duplicate_reading_order b.reading_order n)) _
        (iff_trans (guard_iff _ _) (not_iff (contains b.reading_order seen)))
        (then_iff (guard (b.provenance_page == n) _)
          (check_page_blocks n (b.reading_order ∷ seen) bs)
          (iff_trans (guard_iff _ _) (nat_beq_iff b.provenance_page n)) ih) in
    let fresh = Fresh-cons b.reading_order seen (map (λ c. c.reading_order) bs) in
    (
      λ h.
          let (s, (p, ((f, d), a))) = step.0 h in
          let (f', c) = fresh.0 f in (((s, f'), ground arith), (p, a)),
      λ h. step.1 (h.0.0.0, (h.1.0, ((fresh.1 (h.0.0.1, ground arith), ground arith), h.1.1))),
    )

each_known_iff {ℓ κ} :
    {E : Type ℓ} {A : Type κ} ⦃e : Eq A⦄ (known : List A) (unknown : A → E) (xs : List A)
    → (check_each (λ x. guard (contains x known) (unknown x)) xs ≡ ok tt) ↔ AllKnown known xs
each_known_iff known unknown xs =
    check_each_iff (λ x. contains x known ≡ true) (λ x. guard (contains x known) (unknown x)) xs
      (λ x. guard_iff _ _)

unique_ids_iff :
    (duplicate : String → CanonicalError) (ids : List String)
    → (check_ids duplicate [] ids ≡ ok tt) ↔ (distinct ids ≡ true)
unique_ids_iff duplicate ids =
    iff_trans (check_ids_iff duplicate [] ids) (λ p. p.1, λ d. (Fresh-nil ids, d))

-- A page and a table are accepted exactly if what the models promise holds.
pub validate_page_iff : (page : CanonicalPage) → (validate_page page ≡ ok tt) ↔ PageOk page
unfolding validate_page
validate_page_iff page =
    then_iff (guard (contains page.rotation (0 ∷ 90 ∷ 180 ∷ 270 ∷ [])) _)
      (check_page_blocks page.page_number [] page.blocks) (guard_iff _ _)
      (iff_trans (check_page_blocks_iff page.page_number [] page.blocks)
        (λ p. (p.0.1, p.1), λ p. ((Fresh-nil (map (λ b. b.reading_order) page.blocks), p.0), p.1)))

pub validate_shape_iff : (table : CanonicalTable) → (validate_shape table ≡ ok tt) ↔ ShapeOk table
unfolding validate_shape
validate_shape_iff table =
    then_iff (guard (length table.cells == table.n_rows) (wrong_row_count table.id)) _
      (iff_trans (guard_iff _ _) (nat_beq_iff (length table.cells) table.n_rows))
      (check_each_iff (λ row. length row ≡ table.n_cols) _ table.cells
        (λ row. iff_trans (guard_iff _ _) (nat_beq_iff (length row) table.n_cols)))

check_node_iff :
    (blocks nodes : List String) (node : HierarchyNode)
    → (check_node blocks nodes node ≡ ok tt)
      ↔ (Known nodes node.parent_id × AllKnown blocks node.source_block_ids)
unfolding check_node
check_node_iff blocks nodes node =
    then_iff (check_known (unknown_hierarchy_parent node.id) nodes node.parent_id) _
      (check_known_iff _ nodes node.parent_id) (each_known_iff blocks _ node.source_block_ids)

check_table_iff :
    (blocks : List String) (numbers : List ℕ) (table : CanonicalTable)
    → (check_table blocks numbers table ≡ ok tt)
      ↔ ((contains table.page_number numbers ≡ true) × (contains table.block_id blocks ≡ true))
unfolding check_table
check_table_iff blocks numbers table =
    then_iff
      (guard (contains table.page_number numbers) (unknown_table_page table.id table.page_number))
      (guard (contains table.block_id blocks) (unknown_table_block table.id table.block_id))
      (guard_iff _ _) (guard_iff _ _)

check_field_iff :
    (blocks : List String) (numbers : List ℕ) (field : CanonicalField)
    → (check_field blocks numbers field ≡ ok tt)
      ↔ (AllKnown blocks field.source_block_ids × AllKnown numbers field.source_page_numbers)
unfolding check_field
check_field_iff blocks numbers field =
    then_iff
      (check_each (λ id. guard (contains id blocks) (unknown_field_block field.id id))
        field.source_block_ids)
      _ (each_known_iff blocks _ field.source_block_ids)
      (each_known_iff numbers _ field.source_page_numbers)

checks_iff :
    (document : CanonicalDocument)
    → (validate_document document ≡ ok tt) ↔ ChecksOk (block_ids document.pages) document
unfolding validate_document
checks_iff document =
    let blocks = block_ids document.pages in
    let nodes = map (λ node. node.id) document.hierarchy in
    let numbers = map (λ page. page.page_number) document.pages in
    then_iff (guard (document.schema_version == "1.0") _) _
      (iff_trans (guard_iff _ _) (eq_iff document.schema_version "1.0"))
      (then_iff (guard (numbers == range_from 1 (length document.pages)) _) _
        (iff_trans (guard_iff _ _) (
          iff_trans (list_beq_iff numbers (range_from 1 (length document.pages)))
            (NumberedFrom-range_from 1 document.pages)))
        (then_iff (check_ids duplicate_block_id [] blocks) _
          (unique_ids_iff duplicate_block_id blocks)
          (then_iff (check_ids duplicate_hierarchy_id [] nodes) _
            (unique_ids_iff duplicate_hierarchy_id nodes)
            (then_iff
              (check_each
                (λ page.
                  check_each
                    (λ block.
                      check_known (unknown_block_parent block.id) (blocks ++ nodes) block.parent_id)
                    page.blocks)
                document.pages)
              _
              (check_each_iff
                (λ page. All (λ block. Known (blocks ++ nodes) block.parent_id) page.blocks) _
                document.pages
                (λ page.
                  check_each_iff (λ block. Known (blocks ++ nodes) block.parent_id) _ page.blocks
                    (λ block.
                      check_known_iff (unknown_block_parent block.id) (blocks ++ nodes)
                        block.parent_id)))
              (then_iff (check_each (check_node blocks nodes) document.hierarchy) _
                (check_each_iff _ _ document.hierarchy (check_node_iff blocks nodes))
                (then_iff (check_each (check_table blocks numbers) document.tables)
                  (check_each (check_field blocks numbers) document.extracted_fields)
                  (check_each_iff _ _ document.tables (check_table_iff blocks numbers))
                  (check_each_iff _ _ document.extracted_fields
                    (check_field_iff blocks numbers))))))))

-- A document is accepted exactly if it has the supported schema version, its pages are numbered from
-- 1 on, no two blocks share an identifier and no two hierarchy nodes share one, every parent is a
-- block or a node of the document (of a node, a node), and every block and page that a node, a table
-- or a field names is one of the document's.
pub validate_document_iff :
    (document : CanonicalDocument) → (validate_document document ≡ ok tt) ↔ DocumentOk document
validate_document_iff document =
    subst (λ ids. (validate_document document ≡ ok tt) ↔ ChecksOk ids document)
      (ids_of_blocks-eq document.pages) (checks_iff document)
