-- ===== src/Examples/Building.antt =====
-- Instances of the chunk builders and of the canonical models, on a small plan.
use mama_gift.Base.{
  All, Fresh, List, Option, String, Text, [], at_head, codes, contains, distinct, in_tail, list_eq,
  map, nat_eq, none, ok, option_eq, refl, some, string_eq, true, ℕ, ◌↔◌, ◌∷◌, ◌≡◌,
}
use mama_gift.Docpipe.Canonical.{
  BlockType, CanonicalBlock, CanonicalDocument, CanonicalPage, header_block, heading_block,
  paragraph_block, validate_document,
}
use mama_gift.Docpipe.Canonical.Laws.{DocumentOk, validate_document_iff}
use mama_gift.Retrieval.Chunk.{Chunk}
use mama_gift.Retrieval.Chunk.Tree.Laws.{ParentOk, Rooted}
use mama_gift.Retrieval.Chunking.{has_text}
use mama_gift.Retrieval.Chunking.Builder.{all_chunks, build_chunks, claimed_block_ids, claimed_ids}
use mama_gift.Retrieval.Chunking.Builder.Origin.{BuiltFor}
use mama_gift.Retrieval.Chunking.Builder.Sound.{build_chunks_covers, build_chunks_sound}
use mama_gift.Retrieval.Chunking.Fallback.{build_fallback_chunks, is_skipped}
use mama_gift.Retrieval.Chunking.Identifiers.{chunk_id-injective}
use mama_gift.Retrieval.Chunking.Plan.{first_state, flush_task, run_lines}
use mama_gift.Retrieval.Chunking.Plan.Chunks.{plan_lines}
use mama_gift.Retrieval.Chunking.Plan.Tasks.{first_context, run_lines_refines, segments, task_of}

abbrev block_in : String → BlockType → ℕ → String → CanonicalBlock
block_in id type order text = record {
  id = id;
  type = type;
  text = codes text;
  reading_order = order;
  parent_id = none;
  provenance_page = 1;
}

-- a page with its header last, a preamble, a section, and two tasks, each with its own fields
abbrev plan_page : CanonicalPage
plan_page = record {
  page_number = 1;
  rotation = 0;
  blocks =
      block_in "b3" paragraph_block 3 "1. Viec mot\nChủ trì: Phong A\nDeadline: mai\nNoi dung"
      ∷ block_in "b2" heading_block 2 "PHẦN I. Muc tieu"
      ∷ block_in "b1" paragraph_block 1 "Mo dau"
      ∷ block_in "b4" paragraph_block 4 "2. Viec hai\nPHỐI HỢP Phong B"
      ∷ block_in "b0" header_block 0 "Trang dau"
      ∷ [];
}

abbrev plan_document : CanonicalDocument
plan_document = record {
  schema_version = "1.0";
  document_id = "d:1";
  parser_run_id = "r1";
  pages = plan_page ∷ [];
  hierarchy = [];
  tables = [];
  extracted_fields =
      record {
        id = "f";
        name = "document_type";
        raw_value = some "Kế hoạch";
        normalized_value = some "ke_hoach";
        source_block_ids = "b1" ∷ [];
        source_page_numbers = 1 ∷ [];
      }
      ∷ [];
}

abbrev no_date : Text → Option Text
no_date t = none

abbrev built : List Chunk
built = all_chunks no_date plan_document (some 2)

built_ok : build_chunks no_date plan_document (some 2) ≡ ok built
unfolding build_chunks
built_ok = refl

-- the second task has neither the owner nor the deadline of the first
built_ids :
    map (λ c. c.chunk_id) built
    ≡ "chunk:d%3A1:v2:r1:plan_section_01" ∷ "chunk:d%3A1:v2:r1:plan_task_001"
      ∷ "chunk:d%3A1:v2:r1:plan_task_001_content" ∷ "chunk:d%3A1:v2:r1:plan_task_002"
      ∷ "chunk:d%3A1:v2:r1:fallback_b1" ∷ []
unfolding build_chunks
built_ids = refl

-- a line in front of the heading of the same block stays out of every text
abbrev preamble_page : CanonicalPage
preamble_page = record plan_page {
  blocks = block_in "b1" paragraph_block 1 "Mo dau\nI. Muc tieu" ∷ [];
}

preamble_is_lost :
    map
      (λ c. c.text)
      (all_chunks no_date (record plan_document { pages = preamble_page ∷ [] }) none)
    ≡ codes "Muc tieu" ∷ []
unfolding all_chunks
preamble_is_lost = refl

chunk_id-injective_example :
    ◌≡◌ {A = String} "d:1" "d:1"
    × ◌≡◌ {A = Option ℕ} (some 2) (some 2)
    × ◌≡◌ {A = String} "r1" "r1"
    × ◌≡◌ {A = String} "điểm a" "điểm a"
chunk_id-injective_example =
    chunk_id-injective "d:1" "d:1" (some 2) (some 2) "r1" "r1" "điểm a" "điểm a" refl

validate_document_iff_example : (validate_document plan_document ≡ ok tt) ↔ DocumentOk plan_document
validate_document_iff_example = validate_document_iff plan_document

run_lines_refines_example :
    (flush_task
      (run_lines plan_document (some 2) no_date first_state (plan_lines (plan_page ∷ [])))).tasks
    ≡ map
        (task_of plan_document (some 2) no_date)
        (segments plan_document (some 2) first_context (plan_lines (plan_page ∷ [])))
run_lines_refines_example =
    run_lines_refines plan_document (some 2) no_date (plan_lines (plan_page ∷ []))

build_chunks_sound_example :
    All (BuiltFor plan_document (some 2)) built
    × (distinct (map (λ c. c.chunk_id) built) ≡ true)
    × All (ParentOk built) built
    × All (Rooted built) built
    × Fresh (claimed_block_ids no_date plan_document (some 2)) (
        claimed_ids (
          build_fallback_chunks plan_document
            (claimed_block_ids no_date plan_document (some 2))
            (some 2)))
build_chunks_sound_example = build_chunks_sound no_date plan_document (some 2) built built_ok

build_chunks_covers_example : contains "b1" (claimed_ids built) ≡ true
unfolding has_text is_skipped
build_chunks_covers_example =
    build_chunks_covers no_date plan_document (some 2) built plan_page
      (block_in "b1" paragraph_block 1 "Mo dau") built_ok (at_head [])
      (in_tail _ (in_tail _ (at_head _))) refl refl
