-- ===== src/Api/Run/Versions.antt =====
-- The versions of a document's parse runs: `_record_parse_run` of ingestion.py adds one, makes it the
-- only current one, and rewrites nothing of the earlier ones but that mark.

use mathlib.Core.List.{map-append, append-nil}
use mama_gift.Api.Jobs.{max_version, next_parse_run_version}
use mama_gift.Api.Models.{Document, Job, ParseRun}
use mama_gift.Api.Run.{IngestionResult, record_parse_run, retire_runs}
use mama_gift.Base.{
  All, List, String, [], ap, arith, beq_refl, false, if◌then◌else◌, list_eq, map, nat_eq, option_eq,
  refl, some, string_eq, true, ℕ, ◌&&◌, ◌++◌, ◌+◌, ◌-◌, ◌<◌, ◌==◌, ◌∙◌, ◌∷◌, ◌≡◌, ◌≤◌,
}

-- The runs of one document that are marked current.
pub current_runs : String → List ParseRun → List ParseRun
current_runs document_id [] = []
current_runs document_id (r ∷ rs) =
    let rest = current_runs document_id rs in
    if r.document_id == document_id && r.is_current then r ∷ rest else rest

-- A run without its mark.
abbrev pub unmarked : ParseRun → ParseRun
unmarked r = record r { is_current = false }

-- The runs of the other documents.
pub runs_of_others : String → List ParseRun → List ParseRun
runs_of_others document_id [] = []
runs_of_others document_id (r ∷ rs) =
    let rest = runs_of_others document_id rs in
    if r.document_id == document_id then rest else r ∷ rest

current-retired :
    (id : String) (runs new : List ParseRun)
    → current_runs id (retire_runs id runs ++ new) ≡ current_runs id new
unfolding current_runs retire_runs
current-retired id [] new = refl
current-retired id (r ∷ rs) new = ground (arith, current-retired id rs new)

unmarked-retired :
    (id : String) (runs : List ParseRun) → map unmarked (retire_runs id runs) ≡ map unmarked runs
unfolding retire_runs
unmarked-retired id [] = refl
unmarked-retired id (r ∷ rs) = ground (arith, unmarked-retired id rs)

others-retired :
    (id : String) (runs new : List ParseRun)
    → runs_of_others id (retire_runs id runs ++ new)
      ≡ runs_of_others id runs ++ runs_of_others id new
unfolding runs_of_others retire_runs
others-retired id [] new = refl
others-retired id (r ∷ rs) new = ground (arith, others-retired id rs new)

-- Every run of the document has a version up to the bound.
abbrev pub UpTo : ℕ → String → List ParseRun → Type 0
UpTo n id = All (λ r. (r.document_id == id) ≡ true → r.version ≤ n)

UpTo-weaken :
    (m n : ℕ) (id : String) (runs : List ParseRun) → m ≤ n → UpTo m id runs → UpTo n id runs
UpTo-weaken m n id [] le h = tt
UpTo-weaken m n id (r ∷ rs) le h =
    ((λ e. let v = h.0 e in omega arith), UpTo-weaken m n id rs le h.1)

max_version-cons :
    (id : String) (r : ParseRun) (rs : List ParseRun)
    → (max_version id rs ≤ max_version id (r ∷ rs))
      × ((r.document_id == id) ≡ true → r.version ≤ max_version id (r ∷ rs))
unfolding max_version
max_version-cons id r rs = (ground arith, ground arith)

max_version-UpTo : (id : String) (runs : List ParseRun) → UpTo (max_version id runs) id runs
max_version-UpTo id [] = tt
max_version-UpTo id (r ∷ rs) =
    let (grows, head) = max_version-cons id r rs in
    (
      head,
      UpTo-weaken (max_version id rs) (max_version id (r ∷ rs)) id rs grows
          (max_version-UpTo id rs),
    )

next_version-UpTo :
    (id : String) (runs : List ParseRun)
    → UpTo (next_parse_run_version runs id - 1) id runs × (0 < next_parse_run_version runs id)
unfolding next_parse_run_version
next_version-UpTo id runs = (
  UpTo-weaken (max_version id runs) (max_version id runs + 1 - 1) id runs (omega arith)
      (max_version-UpTo id runs),
  omega arith,
)

-- After a run is recorded it is the only current run of its document, which names it; its version is
-- above that of every earlier run; the earlier runs differ from before by no more than the mark, and
-- those of other documents not at all.
pub record_parse_run_lem :
    (runs : List ParseRun) (document : Document) (job : Job) (result : IngestionResult)
    (fresh_id : String)
    → let (runs', document', run) = record_parse_run runs document job result fresh_id in
      (current_runs document.id runs' ≡ run ∷ [])
      × (document'.current_parse_run_id ≡ some run.id)
      × UpTo (run.version - 1) document.id runs
      × (0 < run.version)
      × (map unmarked runs' ≡ map unmarked runs ++ (unmarked run ∷ []))
      × (runs_of_others document.id runs' ≡ runs_of_others document.id runs)
unfolding record_parse_run current_runs runs_of_others
record_parse_run_lem runs document job result fresh_id =
    let run = (record_parse_run runs document job result fresh_id).2 in
    (
      current-retired document.id runs (run ∷ []) ∙ ground (arith, beq_refl document.id),
      refl,
      (next_version-UpTo document.id runs).0,
      (next_version-UpTo document.id runs).1,
      map-append unmarked (retire_runs document.id runs) (run ∷ [])
          ∙ ap (λ t. t ++ (unmarked run ∷ [])) (unmarked-retired document.id runs),
      others-retired document.id runs (run ∷ [])
          ∙ ground (arith, beq_refl document.id, append-nil (runs_of_others document.id runs)),
    )
