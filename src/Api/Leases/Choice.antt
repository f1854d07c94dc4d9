-- ===== src/Api/Leases/Choice.antt =====
-- `lease_next_job` of ingestion.py: which job it chooses.

use mathlib.Core.Bool.{false≢true}
use mama_gift.Api.Leases.{comes_before, get_job, is_runnable, next_runnable}
use mama_gift.Api.Models.{Job}
use mama_gift.Api.StateMachine.{document_status_eq, job_status_eq, queued}
use mama_gift.Base.{
  All, Bool-cases, List, Option, String, [], arith, beq_refl, contains, distinct, eq_iff, false,
  if◌then◌else◌, inl, inr, list_eq, map, nat_eq, none, option_eq, some, string_eq, sym, true, ℕ,
  ◌∙◌, ◌∷◌, ◌≡◌, ◌≤◌,
}

abbrev pub job_ids : List Job → List String
job_ids = map (λ j. j.id)

-- A job is chosen only if it may run, and then no job that may run was created earlier; none is
-- chosen only if none may run.
abbrev pub Chosen : ℕ → List Job → Option Job → Type 0
Chosen moment jobs none = All (λ i. is_runnable moment i ≡ false) jobs
Chosen moment jobs (some j) =
    (is_runnable moment j ≡ true)
    × All (λ i. is_runnable moment i ≡ true → j.created_at ≤ i.created_at) jobs

before_created : (a b : Job) → comes_before a b ≡ true → a.created_at ≤ b.created_at
unfolding comes_before
before_created a b h = ground arith

not_before_created : (a b : Job) → comes_before a b ≡ false → b.created_at ≤ a.created_at
unfolding comes_before
not_before_created a b h = ground arith

All-map {ℓ} :
    {A : Type ℓ} {P Q : A → Type 0} (xs : List A) → ((x : A) → P x → Q x) → All P xs → All Q xs
All-map [] f h = tt
All-map (x ∷ xs) f h = (f x h.0, All-map xs f h.1)

choose :
    (moment : ℕ) (job : Job) (jobs : List Job) (rest : Option Job)
    → Chosen moment jobs rest
    → Chosen moment (job ∷ jobs) (
        if is_runnable moment job
        then elim rest [
          | none ↦ some job
          | some other ↦ if comes_before other job then some other else some job
        ]
        else rest)
choose moment job jobs none c = elim (Bool-cases (is_runnable moment job)) [
  | inl run ↦
      rw run
        (run, ((λ r. omega arith), All-map jobs (λ i idle r. absurd (false≢true (sym idle ∙ r))) c))
  | inr idle ↦ rw idle (idle, c)
]
choose moment job jobs (some other) c = elim (Bool-cases (is_runnable moment job)) [
  | inl run ↦ elim (Bool-cases (comes_before other job)) [
    | inl before ↦ rw (run, before) (c.0, ((λ r. before_created other job before), c.1))
    | inr after ↦
        rw (run, after)
          (
            run,
            (
              (λ r. omega arith),
              All-map jobs (λ i le r. omega (arith, le r, not_before_created other job after)) c.1,
            ),
          )
  ]
  | inr idle ↦ rw idle (c.0, ((λ r. absurd (false≢true (sym idle ∙ r))), c.1))
]

pub next_runnable-Chosen :
    (moment : ℕ) (jobs : List Job) → Chosen moment jobs (next_runnable moment jobs)
unfolding next_runnable
next_runnable-Chosen moment [] = tt
next_runnable-Chosen moment (job ∷ jobs) =
    choose moment job jobs (next_runnable moment jobs) (next_runnable-Chosen moment jobs)

pub chosen_waits :
    (moment : ℕ) (jobs : List Job) (j : Job)
    → distinct (job_ids jobs) ≡ true
    → next_runnable moment jobs ≡ some j
    → (get_job j.id jobs ≡ some j) × (contains j.id (job_ids jobs) ≡ true)
unfolding next_runnable get_job
chosen_waits moment [] j d h = cc
chosen_waits moment (job ∷ jobs) j d h =
    ground
      (arith, chosen_waits moment jobs j, eq_iff job.id j.id, eq_iff j.id job.id, beq_refl j.id)

pub runnable_queued : (moment : ℕ) (j : Job) → is_runnable moment j ≡ true → j.status ≡ queued
unfolding is_runnable
runnable_queued moment j h = ground arith
