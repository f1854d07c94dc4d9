-- ===== src/Retrieval/Chunking/Plan/Tasks.antt =====
-- What a plan's tasks are, independently of the detector's state: each is made from its heading and
-- from the lines between its heading and the next.
use mama_gift.Base.{
  Bool, List, Option, String, Text, [], ap, append_nil, append_snoc, arith, false, if◌then◌else◌,
  list_eq, map, nat_eq, none, option_eq, refl, some, string_eq, suc, sym, true, ℕ, ◌++◌, ◌∙◌, ◌∷◌,
  ◌≡◌,
}
use mama_gift.Docpipe.Canonical.{CanonicalDocument}
use mama_gift.Retrieval.Chunking.Identifiers.{id_in}
use mama_gift.Retrieval.Chunking.Plan.{
  PlanLine, PlanState, TaskState, add_to_task, first_state, flush_task, labelled, new_task,
  run_lines, section_suffix, start_section, start_task, step_form, task_line, with_task,
}
use mama_gift.Retrieval.Chunking.Plan.Patterns.{LineForm, section_form, task_form}

pub record Context : Type 0 where
  pub section_id : Option String
  pub section_path : List String
  pub section_index : ℕ
  pub task_index : ℕ

abbrev pub first_context : Context
first_context = record { section_id = none; section_path = []; section_index = 0; task_index = 0 }

-- A task's heading, the section that it stands in, its number, and the lines up to the next heading.
pub record Segment : Type 0 where
  pub context : Context
  pub ordinal : Text
  pub title : Text
  pub heading : PlanLine
  pub body : List PlanLine

pub is_heading : LineForm → Bool
is_heading (section_form label title) = true
is_heading (task_form ordinal title) = true
is_heading _ = false

-- the lines in front of the next heading
pub body_of : List PlanLine → List PlanLine
unfolding is_heading
body_of [] = []
body_of (line ∷ lines) =
    let rest = body_of lines in if is_heading line.form then [] else line ∷ rest

module _ (document : CanonicalDocument) (version : Option ℕ) where
  pub context_after : Context → LineForm → Context
  context_after context (section_form label title) = record context {
    section_index = suc context.section_index;
    section_id = some (id_in document version (section_suffix (suc context.section_index)));
    section_path = labelled label title ∷ [];
  }
  context_after context (task_form ordinal title) = record context {
    task_index = suc context.task_index;
  }
  context_after context _ = context

  segment_at : Context → LineForm → PlanLine → List PlanLine → List Segment
  segment_at context (task_form ordinal title) line lines =
      record {
        context = context;
        ordinal = ordinal;
        title = title;
        heading = line;
        body = body_of lines;
      }
      ∷ []
  segment_at context _ line lines = []

  pub segments : Context → List PlanLine → List Segment
  unfolding context_after segment_at
  segments context [] = []
  segments context (line ∷ lines) =
      segment_at context line.form line lines ++ segments (context_after context line.form) lines

  module _ (date : Text → Option Text) where
    pub add_lines : TaskState → List PlanLine → TaskState
    unfolding add_to_task
    add_lines task [] = task
    add_lines task (line ∷ lines) = add_lines (add_to_task date line.form line task) lines

    pub task_of : Segment → TaskState
    unfolding new_task add_lines
    task_of s =
        add_lines
          (new_task document version s.context.section_id s.context.section_path
            (suc s.context.task_index) s.ordinal s.title s.heading)
          s.body

    context_of : PlanState → Context
    context_of state = record {
      section_id = state.section_id;
      section_path = state.section_path;
      section_index = state.section_index;
      task_index = state.task_index;
    }

    add_to_open : Option TaskState → List PlanLine → Option TaskState
    unfolding add_lines
    add_to_open none lines = none
    add_to_open (some task) lines = some (add_lines task lines)

    -- the tasks that a run ends with, from the state that it starts in
    expected : PlanState → List PlanLine → List TaskState
    unfolding with_task add_to_open
    expected state lines =
        with_task state.tasks (add_to_open state.task (body_of lines))
        ++ map task_of (segments (context_of state) lines)

    add_to_open-nil : (o : Option TaskState) → add_to_open o [] ≡ o
    unfolding add_to_open
    add_to_open-nil none = refl
    add_to_open-nil (some task) = refl

    add_to_open-cons :
        (o : Option TaskState) (form : LineForm) (line : PlanLine) (lines : List PlanLine)
        → line.form ≡ form
        → add_to_open (task_line date form line o) lines ≡ add_to_open o (line ∷ lines)
    unfolding add_to_open task_line
    add_to_open-cons none form line lines e = refl
    add_to_open-cons (some task) form line lines e = rw e refl

    body_of-heading :
        (line : PlanLine) (lines : List PlanLine)
        → is_heading line.form ≡ true
        → body_of (line ∷ lines) ≡ []
    unfolding body_of
    body_of-heading line lines h = ground arith

    body_of-within :
        (line : PlanLine) (lines : List PlanLine)
        → is_heading line.form ≡ false
        → body_of (line ∷ lines) ≡ line ∷ body_of lines
    unfolding body_of
    body_of-within line lines h = ground arith

    segments-cons :
        (c : Context) (form : LineForm) (line : PlanLine) (lines : List PlanLine)
        → line.form ≡ form
        → segments c (line ∷ lines)
          ≡ segment_at c form line lines ++ segments (context_after c form) lines
    unfolding segments
    segments-cons c form line lines e =
        ap (λ f. segment_at c f line lines ++ segments (context_after c f) lines) e

    expected-heading :
        (state : PlanState) (form : LineForm) (line : PlanLine) (lines : List PlanLine)
        → line.form ≡ form
        → is_heading form ≡ true
        → expected state (line ∷ lines)
          ≡ with_task state.tasks state.task
            ++ map task_of (
                segment_at (context_of state) form line lines
                ++ segments (context_after (context_of state) form) lines)
    unfolding expected
    expected-heading state form line lines e h =
        ap
          (λ o. with_task state.tasks o ++ map task_of (segments (context_of state) (line ∷ lines)))
          (ap (add_to_open state.task) (body_of-heading line lines (ap is_heading e ∙ h))
            ∙ add_to_open-nil state.task)
        ∙ ap (λ ss. with_task state.tasks state.task ++ map task_of ss)
            (segments-cons (context_of state) form line lines e)

    segments-within :
        (c : Context) (form : LineForm) (line : PlanLine) (lines : List PlanLine)
        → line.form ≡ form
        → is_heading form ≡ false
        → segments c (line ∷ lines) ≡ segments c lines
    unfolding is_heading segment_at context_after
    segments-within c (section_form l t) line lines e h = absurd (ground arith)
    segments-within c (task_form l t) line lines e h = absurd (ground arith)
    segments-within c form line lines e h = segments-cons c form line lines e

    expected-within :
        (state : PlanState) (form : LineForm) (line : PlanLine) (lines : List PlanLine)
        → line.form ≡ form
        → is_heading form ≡ false
        → expected (record state { task = task_line date form line state.task }) lines
          ≡ expected state (line ∷ lines)
    unfolding expected context_of
    expected-within state form line lines e h =
        ap (λ o. with_task state.tasks o ++ map task_of (segments (context_of state) lines))
          (add_to_open-cons state.task form line (body_of lines) e
            ∙ ap (add_to_open state.task) (sym (body_of-within line lines (ap is_heading e ∙ h))))
        ∙ ap
            (λ ss.
              with_task state.tasks (add_to_open state.task (body_of (line ∷ lines)))
              ++ map task_of ss)
            (sym (segments-within (context_of state) form line lines e h))

    start_section-expected :
        (state : PlanState) (label title : Text) (line : PlanLine) (lines : List PlanLine)
        → expected (start_section document version state label title line) lines
          ≡ with_task state.tasks state.task
            ++ map task_of (
                segment_at (context_of state) (section_form label title) line lines
                ++ segments (context_after (context_of state) (section_form label title)) lines)
    unfolding expected start_section flush_task with_task add_to_open segment_at context_after
        context_of
    start_section-expected state label title line lines = refl

    start_task-expected :
        (state : PlanState) (ordinal title : Text) (line : PlanLine) (lines : List PlanLine)
        → expected (start_task document version state ordinal title line) lines
          ≡ with_task state.tasks state.task
            ++ map task_of (
                segment_at (context_of state) (task_form ordinal title) line lines
                ++ segments (context_after (context_of state) (task_form ordinal title)) lines)
    unfolding expected start_task flush_task with_task add_to_open segment_at context_after
        context_of task_of
    start_task-expected state ordinal title line lines =
        append_snoc (with_task state.tasks state.task) _ _

    step-expected :
        (state : PlanState) (form : LineForm) (line : PlanLine) (lines : List PlanLine)
        → line.form ≡ form
        → expected (step_form document version date state form line) lines
          ≡ expected state (line ∷ lines)
    unfolding step_form is_heading
    step-expected state (section_form label title) line lines e =
        start_section-expected state label title line lines
        ∙ sym (expected-heading state (section_form label title) line lines e refl)
    step-expected state (task_form ordinal title) line lines e =
        start_task-expected state ordinal title line lines
        ∙ sym (expected-heading state (task_form ordinal title) line lines e refl)
    step-expected state form line lines e = expected-within state form line lines e refl

    expected-nil : (state : PlanState) → expected state [] ≡ with_task state.tasks state.task
    unfolding expected segments body_of
    expected-nil state =
        append_nil (with_task state.tasks (add_to_open state.task []))
        ∙ ap (with_task state.tasks) (add_to_open-nil state.task)

    run_lines-expected :
        (state : PlanState) (lines : List PlanLine)
        → (flush_task (run_lines document version date state lines)).tasks ≡ expected state lines
    unfolding run_lines flush_task
    run_lines-expected state [] = sym (expected-nil state)
    run_lines-expected state (line ∷ lines) =
        run_lines-expected (step_form document version date state line.form line) lines
        ∙ step-expected state line.form line lines refl

    expected-first :
        (lines : List PlanLine)
        → expected first_state lines ≡ map task_of (segments first_context lines)
    unfolding expected with_task add_to_open context_of
    expected-first lines = refl

    -- The tasks that the detector ends with are those of the segments of the lines: one for each task
    -- heading, in order, in the section above it, made from the heading and the lines between it and
    -- the next heading and from no other line.
    pub run_lines_refines :
        (lines : List PlanLine)
        → (flush_task (run_lines document version date first_state lines)).tasks
          ≡ map task_of (segments first_context lines)
    run_lines_refines lines = run_lines-expected first_state lines ∙ expected-first lines
