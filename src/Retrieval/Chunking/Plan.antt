-- ===== src/Retrieval/Chunking/Plan.antt =====
-- chunking/plan.py: sections, tasks and their contents of a plan; here the state of the detector and
-- what a line does to it. The date of a deadline is read by the administrative parser, a parameter.
pub mod Chunks
pub mod Patterns
pub mod Tasks
use mama_gift.Base.{
  List, Option, String, Text, [], codes, decimal, length, list_eq, nat_eq, none, option_eq, some,
  string_eq, suc, value, zero, ℕ, ◌++◌, ◌-◌, ◌∷◌,
}
use mama_gift.Docpipe.Canonical.{CanonicalDocument}
use mama_gift.Retrieval.Chunk.{Chunk, meta_text, plan_section}
use mama_gift.Retrieval.Chunking.{chunk_of}
use mama_gift.Retrieval.Chunking.Identifiers.{id_in, text_of}
use mama_gift.Retrieval.Chunking.Plan.Patterns.{
  LineForm, body_form, coordinator_form, deadline_form, owner_form, section_form, task_form,
}

-- a line of the document that is not blank, with what its form says, its block and its page
pub record PlanLine : Type 0 where
  pub form : LineForm
  pub block_id : String
  pub page_number : ℕ

pub record TaskState : Type 0 where
  pub chunk_id : String
  pub content_chunk_id : String
  pub section_chunk_id : Option String
  pub section_path : List String
  pub ordinal : Text
  pub title : Text
  pub owner : Option Text
  pub coordinating_unit : Option Text
  pub deadline_raw : Option Text
  pub deadline : Option Text
  pub body_lines : List Text
  pub heading_block_ids : List String
  pub heading_pages : List ℕ
  pub content_block_ids : List String
  pub content_pages : List ℕ

-- the local variables of the loop
pub record PlanState : Type 0 where
  pub section_chunks : List Chunk
  pub tasks : List TaskState
  pub section_id : Option String
  pub section_path : List String
  pub section_index : ℕ
  pub task_index : ℕ
  pub task : Option TaskState

unfoldable pub zeros : ℕ → Text
zeros zero = []
zeros (suc n) = b'0' ∷ zeros n

-- a number of `width` digits at least, padded by zeros
unfoldable pub padded : ℕ → ℕ → Text
unfolding zeros
padded width n = zeros (width - length (decimal n)) ++ decimal n

-- f"{label}. {title}"
unfoldable pub labelled : Text → Text → String
unfolding text_of
labelled label title = text_of (label ++ (codes ". " ++ title))

unfoldable pub section_suffix : ℕ → String
unfolding padded text_of
section_suffix n = text_of (codes "plan_section_" ++ padded 2 n)

unfoldable pub task_suffix : ℕ → String
unfolding padded text_of
task_suffix n = text_of (codes "plan_task_" ++ padded 3 n)

unfoldable pub content_suffix : ℕ → String
unfolding padded text_of
content_suffix n = text_of (codes "plan_task_" ++ (padded 3 n ++ codes "_content"))

-- the assignments to a task that start it, at its heading
unfoldable pub new_task :
    CanonicalDocument
    → Option ℕ
    → Option String
    → List String
    → ℕ
    → Text
    → Text
    → PlanLine
    → TaskState
unfolding id_in task_suffix content_suffix labelled
new_task document version section_id section_path index ordinal title line = record {
  chunk_id = id_in document version (task_suffix index);
  content_chunk_id = id_in document version (content_suffix index);
  section_chunk_id = section_id;
  section_path = section_path ++ (labelled ordinal title ∷ []);
  ordinal = ordinal;
  title = title;
  owner = none;
  coordinating_unit = none;
  deadline_raw = none;
  deadline = none;
  body_lines = [];
  heading_block_ids = line.block_id ∷ [];
  heading_pages = line.page_number ∷ [];
  content_block_ids = [];
  content_pages = [];
}

-- the line counts to the heading of the task
unfoldable pub head_line : PlanLine → TaskState → TaskState
head_line line task = record task {
  heading_block_ids = task.heading_block_ids ++ (line.block_id ∷ []);
  heading_pages = line.page_number ∷ task.heading_pages;
}

-- what a line that is no heading does to the task that it stands under
unfoldable pub add_to_task : (Text → Option Text) → LineForm → PlanLine → TaskState → TaskState
unfolding head_line
add_to_task date (owner_form value) line task = head_line line (record task { owner = some value })
add_to_task date (coordinator_form value) line task =
    head_line line (record task { coordinating_unit = some value })
add_to_task date (deadline_form raw) line task =
    head_line line (record task { deadline_raw = some raw; deadline = date raw })
add_to_task date (body_form text) line task = record task {
  body_lines = task.body_lines ++ (text ∷ []);
  content_block_ids = task.content_block_ids ++ (line.block_id ∷ []);
  content_pages = line.page_number ∷ task.content_pages;
}
add_to_task date (section_form label title) line task = task
add_to_task date (task_form ordinal title) line task = task

-- flush_task
unfoldable pub with_task : List TaskState → Option TaskState → List TaskState
with_task tasks none = tasks
with_task tasks (some task) = tasks ++ (task ∷ [])

unfoldable pub flush_task : PlanState → PlanState
unfolding with_task
flush_task state = record state { tasks = with_task state.tasks state.task; task = none }

unfoldable pub section_chunk : CanonicalDocument → Option ℕ → ℕ → Text → Text → PlanLine → Chunk
unfolding chunk_of id_in section_suffix labelled
section_chunk document version index label title line =
    chunk_of document version (id_in document version (section_suffix index)) none
      (labelled label title ∷ []) plan_section title (line.block_id ∷ []) (line.page_number ∷ [])
      (("ordinal", meta_text label) ∷ [])

unfoldable pub start_section :
    CanonicalDocument → Option ℕ → PlanState → Text → Text → PlanLine → PlanState
unfolding flush_task section_chunk id_in section_suffix labelled
start_section document version state label title line =
    let index = suc state.section_index in
    record (flush_task state) {
      section_index = index;
      section_id = some (id_in document version (section_suffix index));
      section_path = labelled label title ∷ [];
      section_chunks =
          state.section_chunks ++ (section_chunk document version index label title line ∷ []);
    }

unfoldable pub start_task :
    CanonicalDocument → Option ℕ → PlanState → Text → Text → PlanLine → PlanState
unfolding flush_task new_task
start_task document version state ordinal title line =
    let index = suc state.task_index in
    record (flush_task state) {
      task_index = index;
      task =
          some (
            new_task document version state.section_id state.section_path index ordinal title line);
    }

unfoldable pub task_line :
    (Text → Option Text) → LineForm → PlanLine → Option TaskState → Option TaskState
unfolding add_to_task
task_line date form line none = none
task_line date form line (some task) = some (add_to_task date form line task)

-- the body of the innermost loop, after the form of the line was found
unfoldable pub step_form :
    CanonicalDocument
    → Option ℕ
    → (Text → Option Text)
    → PlanState
    → LineForm
    → PlanLine
    → PlanState
unfolding start_section start_task task_line
step_form document version date state (section_form label title) line =
    start_section document version state label title line
step_form document version date state (task_form ordinal title) line =
    start_task document version state ordinal title line
step_form document version date state form line = record state {
  task = task_line date form line state.task;
}

unfoldable pub run_lines :
    CanonicalDocument → Option ℕ → (Text → Option Text) → PlanState → List PlanLine → PlanState
unfolding step_form
run_lines document version date state [] = state
run_lines document version date state (line ∷ lines) =
    run_lines document version date (step_form document version date state line.form line) lines

abbrev pub first_state : PlanState
first_state = record {
  section_chunks = [];
  tasks = [];
  section_id = none;
  section_path = [];
  section_index = 0;
  task_index = 0;
  task = none;
}
