-- ===== src/Retrieval/Chunking/Plan/Chunks.antt =====
-- chunking/plan.py: the lines of a document, and the chunks of a plan.
use mama_gift.Base.{
  Bool, List, Option, String, Text, [], contains, false, if◌then◌else◌, list_eq, nat_eq, none,
  option_eq, some, string_eq, true, ℕ, ◌++◌, ◌==◌, ◌∷◌,
}
use mama_gift.Docpipe.Canonical.{
  BlockType, CanonicalBlock, CanonicalDocument, CanonicalPage, footer_block, header_block,
  page_number_block,
}
use mama_gift.Retrieval.ArchiveEvidence.{strip}
use mama_gift.Retrieval.Chunk.{Chunk, MetaValue, meta_other, meta_text, paragraph, plan_task}
use mama_gift.Retrieval.Chunking.{chunk_of, field_value, sort_blocks}
use mama_gift.Retrieval.Chunking.Legal.{join_texts, sorted_set}
use mama_gift.Retrieval.Chunking.Plan.{
  PlanLine, PlanState, TaskState, first_state, flush_task, run_lines,
}
use mama_gift.Retrieval.Chunking.Plan.Patterns.{form_of, split_lines}

-- _FURNITURE_TYPES
unfoldable pub is_furniture : BlockType → Bool
is_furniture header_block = true
is_furniture footer_block = true
is_furniture page_number_block = true
is_furniture _ = false

-- the lines of a block that are not blank
unfoldable pub lines_of : CanonicalBlock → ℕ → List Text → List PlanLine
unfolding strip form_of
lines_of block page_number [] = []
lines_of block page_number (raw_line ∷ rest) =
    let others = lines_of block page_number rest in
    elim (strip raw_line) [
      | [] ↦ others
      | c ∷ cs ↦
          record { form = form_of (c ∷ cs); block_id = block.id; page_number = page_number }
          ∷ others
    ]

unfoldable pub plan_lines_of_blocks : ℕ → List CanonicalBlock → List PlanLine
unfolding is_furniture lines_of split_lines
plan_lines_of_blocks page_number [] = []
plan_lines_of_blocks page_number (block ∷ blocks) =
    let rest = plan_lines_of_blocks page_number blocks in
    if is_furniture block.type
    then rest
    else lines_of block page_number (split_lines block.text) ++ rest

unfoldable pub plan_lines : List CanonicalPage → List PlanLine
unfolding plan_lines_of_blocks sort_blocks
plan_lines [] = []
plan_lines (page ∷ pages) =
    plan_lines_of_blocks page.page_number (sort_blocks page.blocks) ++ plan_lines pages

-- list(dict.fromkeys(ids)): each identifier once, where it first occurs
unfoldable pub first_occurrences : List String → List String → List String
first_occurrences seen [] = []
first_occurrences seen (id ∷ ids) =
    let rest = first_occurrences (id ∷ seen) ids in
    let same = first_occurrences seen ids in if contains id seen then same else id ∷ rest

unfoldable pub meta_of : Option Text → MetaValue
meta_of none = meta_other
meta_of (some text) = meta_text text

unfoldable pub task_chunk : CanonicalDocument → Option ℕ → TaskState → Chunk
unfolding chunk_of first_occurrences sorted_set meta_of
task_chunk document version item =
    chunk_of document version item.chunk_id item.section_chunk_id item.section_path plan_task
      item.title (first_occurrences [] item.heading_block_ids) (sorted_set item.heading_pages)
      (("ordinal", meta_text item.ordinal)
        ∷ ("owner", meta_of item.owner)
        ∷ ("coordinating_unit", meta_of item.coordinating_unit)
        ∷ ("deadline_raw", meta_of item.deadline_raw)
        ∷ ("deadline", meta_of item.deadline)
        ∷ [])

unfoldable pub content_chunk : CanonicalDocument → Option ℕ → TaskState → Chunk
unfolding chunk_of first_occurrences sorted_set join_texts
content_chunk document version item =
    chunk_of document version item.content_chunk_id (some item.chunk_id) item.section_path paragraph
      (join_texts item.body_lines) (first_occurrences [] item.content_block_ids)
      (sorted_set item.content_pages) []

-- `if item.body_lines`
unfoldable pub content_chunks : CanonicalDocument → Option ℕ → TaskState → List Text → List Chunk
unfolding content_chunk
content_chunks document version item [] = []
content_chunks document version item (line ∷ lines) = content_chunk document version item ∷ []

unfoldable pub task_chunks : CanonicalDocument → Option ℕ → List TaskState → List Chunk
unfolding task_chunk content_chunks
task_chunks document version [] = []
task_chunks document version (item ∷ items) =
    task_chunk document version item
    ∷ (content_chunks document version item item.body_lines ++ task_chunks document version items)

-- the chunks of a plan, after its lines were run through
unfoldable pub plan_chunks : CanonicalDocument → Option ℕ → PlanState → List Chunk
unfolding task_chunks
plan_chunks document version state =
    state.section_chunks ++ task_chunks document version state.tasks

unfoldable pub build_plan_chunks : (Text → Option Text) → CanonicalDocument → Option ℕ → List Chunk
unfolding plan_chunks flush_task run_lines plan_lines field_value
build_plan_chunks date document version =
    let end =
      flush_task (run_lines document version date first_state (plan_lines document.pages)) in
    if field_value document "document_type" == some "ke_hoach"
    then plan_chunks document version end
    else []
