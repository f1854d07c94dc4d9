-- ===== src/Retrieval/Chunking/Builder/Origin.antt =====
-- Every builder gives its chunks the document, the run and the version that it was called with.
use mama_gift.Base.{
  All, All-append, Bool-cases, List, Option, String, Text, [], contains, inl, inr, list_eq, nat_eq,
  none, not, option_eq, refl, some, string_eq, ℕ, ◌++◌, ◌==◌, ◌||◌, ◌∷◌, ◌≡◌,
}
use mama_gift.Docpipe.Canonical.{CanonicalBlock, CanonicalDocument, CanonicalPage, HierarchyNode}
use mama_gift.Retrieval.Chunk.{Chunk, ChunkType}
use mama_gift.Retrieval.Chunking.{chunk_of, field_value, has_text, sort_blocks}
use mama_gift.Retrieval.Chunking.Builder.{all_chunks}
use mama_gift.Retrieval.Chunking.Fallback.{
  build_fallback_chunks, fallback_blocks, fallback_chunk, fallback_pages, is_skipped,
}
use mama_gift.Retrieval.Chunking.Legal.{
  add_legal_chunk, build_legal_chunks, kind_to_chunk_type, legal_chunk, legal_nodes,
}
use mama_gift.Retrieval.Chunking.Plan.{
  PlanLine, PlanState, TaskState, first_state, flush_task, run_lines, section_chunk, start_section,
  start_task, step_form,
}
use mama_gift.Retrieval.Chunking.Plan.Chunks.{
  build_plan_chunks, content_chunk, content_chunks, plan_chunks, plan_lines, task_chunk,
  task_chunks,
}
use mama_gift.Retrieval.Chunking.Plan.Patterns.{LineForm, section_form, task_form}

-- a chunk carries the document, the parse run and the version that it was built for
abbrev pub BuiltFor : CanonicalDocument → Option ℕ → Chunk → Type 0
BuiltFor document version c =
    (c.document_id ≡ document.document_id)
    × (c.parse_run_id ≡ document.parser_run_id)
    × (c.document_version ≡ version)

module _ (document : CanonicalDocument) (version : Option ℕ) where
  add_legal_chunk-BuiltFor :
      (node : HierarchyNode) (o : Option ChunkType) (rest : List Chunk)
      → All (BuiltFor document version) rest
      → All (BuiltFor document version) (add_legal_chunk document version node o rest)
  unfolding add_legal_chunk legal_chunk chunk_of
  add_legal_chunk-BuiltFor node none rest a = a
  add_legal_chunk-BuiltFor node (some type) rest a = ((refl, refl, refl), a)

  legal_nodes-BuiltFor :
      (nodes : List HierarchyNode)
      → All (BuiltFor document version) (legal_nodes document version nodes)
  unfolding legal_nodes
  legal_nodes-BuiltFor [] = tt
  legal_nodes-BuiltFor (node ∷ nodes) =
      add_legal_chunk-BuiltFor node (kind_to_chunk_type node.kind)
        (legal_nodes document version nodes) (legal_nodes-BuiltFor nodes)

  fallback_blocks-BuiltFor :
      (claimed : List String) (n : ℕ) (blocks : List CanonicalBlock)
      → All (BuiltFor document version) (fallback_blocks document claimed version n blocks)
  unfolding fallback_blocks fallback_chunk chunk_of
  fallback_blocks-BuiltFor claimed n [] = tt
  fallback_blocks-BuiltFor claimed n (b ∷ bs) =
      elim (Bool-cases (contains b.id claimed || not (has_text b.text))) [
        | inl skip ↦ rw skip (fallback_blocks-BuiltFor claimed n bs)
        | inr keep ↦ elim (Bool-cases (is_skipped b.type)) [
          | inl s ↦ rw (keep, s) (fallback_blocks-BuiltFor claimed n bs)
          | inr s ↦ rw (keep, s) ((refl, refl, refl), fallback_blocks-BuiltFor claimed n bs)
        ]
      ]

  fallback_pages-BuiltFor :
      (claimed : List String) (pages : List CanonicalPage)
      → All (BuiltFor document version) (fallback_pages document claimed version pages)
  unfolding fallback_pages
  fallback_pages-BuiltFor claimed [] = tt
  fallback_pages-BuiltFor claimed (page ∷ pages) =
      All-append (BuiltFor document version)
        (fallback_blocks document claimed version page.page_number (sort_blocks page.blocks))
        (fallback_pages document claimed version pages)
        (fallback_blocks-BuiltFor claimed page.page_number (sort_blocks page.blocks))
        (fallback_pages-BuiltFor claimed pages)

  content_chunks-BuiltFor :
      (item : TaskState) (lines : List Text)
      → All (BuiltFor document version) (content_chunks document version item lines)
  unfolding content_chunks content_chunk chunk_of
  content_chunks-BuiltFor item [] = tt
  content_chunks-BuiltFor item (l ∷ ls) = ((refl, refl, refl), tt)

  task_chunks-BuiltFor :
      (items : List TaskState)
      → All (BuiltFor document version) (task_chunks document version items)
  unfolding task_chunks task_chunk chunk_of
  task_chunks-BuiltFor [] = tt
  task_chunks-BuiltFor (item ∷ items) = (
    (refl, refl, refl),
    All-append (BuiltFor document version) (content_chunks document version item item.body_lines)
        (task_chunks document version items) (content_chunks-BuiltFor item item.body_lines)
        (task_chunks-BuiltFor items),
  )

  module _ (date : Text → Option Text) where
    step_form-BuiltFor :
        (state : PlanState) (form : LineForm) (line : PlanLine)
        → All (BuiltFor document version) state.section_chunks
        → All
            (BuiltFor document version)
            (step_form document version date state form line).section_chunks
    unfolding step_form start_section start_task section_chunk chunk_of
    step_form-BuiltFor state (section_form label title) line a =
        All-append (BuiltFor document version) state.section_chunks _ a ((refl, refl, refl), tt)
    step_form-BuiltFor state (task_form ordinal title) line a = a
    step_form-BuiltFor state form line a = a

    run_lines-BuiltFor :
        (state : PlanState) (lines : List PlanLine)
        → All (BuiltFor document version) state.section_chunks
        → All
            (BuiltFor document version)
            (run_lines document version date state lines).section_chunks
    unfolding run_lines
    run_lines-BuiltFor state [] a = a
    run_lines-BuiltFor state (line ∷ lines) a =
        run_lines-BuiltFor (step_form document version date state line.form line) lines
          (step_form-BuiltFor state line.form line a)

    build_plan_chunks-BuiltFor :
        All (BuiltFor document version) (build_plan_chunks date document version)
    unfolding build_plan_chunks plan_chunks flush_task
    build_plan_chunks-BuiltFor =
        elim (Bool-cases (field_value document "document_type" == some "ke_hoach")) [
          | inl yes_plan ↦ rw yes_plan (
              All-append (BuiltFor document version) _ _
                (run_lines-BuiltFor first_state (plan_lines document.pages) tt)
                (task_chunks-BuiltFor _))
          | inr no_plan ↦ rw no_plan tt
        ]

    pub all_chunks-BuiltFor : All (BuiltFor document version) (all_chunks date document version)
    unfolding all_chunks build_legal_chunks build_fallback_chunks
    all_chunks-BuiltFor =
        All-append (BuiltFor document version)
          (build_legal_chunks document version ++ build_plan_chunks date document version) _
          (All-append (BuiltFor document version) (build_legal_chunks document version)
            (build_plan_chunks date document version) (legal_nodes-BuiltFor document.hierarchy)
            build_plan_chunks-BuiltFor)
          (fallback_pages-BuiltFor _ document.pages)
