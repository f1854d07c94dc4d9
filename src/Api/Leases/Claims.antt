-- ===== src/Api/Leases/Claims.antt =====
-- The compare-and-swap of `_claim_job`: no two workers win the same queued job.
use mama_gift.Api.Leases.{claim_row, get_job}
use mama_gift.Api.Models.{Job}
use mama_gift.Api.StateMachine.{document_status_eq, job_status_eq, queued}
use mama_gift.Base.{
  Bool, Bool-cases, List, String, [], ap, arith, eq_iff, false, if◌then◌else◌, inl, inr, list_eq,
  nat_eq, none, option_eq, refl, some, string_eq, subst, suc, true, ℕ, ◌&&◌, ◌==◌, ◌∷◌, ◌≡◌, ◌≤◌,
}

-- A claim by a worker: the job's identifier, the worker, the end of the lease.
abbrev pub Claim : Type 0
Claim = String × String × ℕ

-- The claims of any number of sessions, in the order in which the database serialises them, with the
-- answer that each gets.
pub run_claims : List Claim → List Job → List Job × List (String × Bool)
run_claims [] jobs = (jobs, [])
run_claims ((id, worker, expires) ∷ claims) jobs =
    let (jobs', won) = claim_row id worker expires jobs in
    let (final, answers) = run_claims claims jobs' in (final, (id, won) ∷ answers)

-- How many of the answers are a win of the job.
pub wins : String → List (String × Bool) → ℕ
wins id [] = 0
wins id ((j, won) ∷ answers) =
    let rest = wins id answers in if j == id && won then suc rest else rest

-- 1 while the job waits in the queue, else 0.
pub waiting : String → List Job → ℕ
waiting id jobs = elim (get_job id jobs) [ none ↦ 0 | some j ↦ if j.status == queued then 1 else 0 ]

claim_row_other :
    (id other worker : String) (expires : ℕ) (jobs : List Job)
    → (other == id) ≡ false
    → get_job id (claim_row other worker expires jobs).0 ≡ get_job id jobs
unfolding claim_row get_job
claim_row_other id other worker expires [] h = refl
claim_row_other id other worker expires (job ∷ jobs) h = ground (
  arith,
  claim_row_other id other worker expires jobs,
  eq_iff job.id id,
  eq_iff job.id other,
  eq_iff other id,
)

claim_row_won :
    (id worker : String) (expires : ℕ) (jobs : List Job)
    → (claim_row id worker expires jobs).1 ≡ true
    → waiting id jobs ≡ 1
unfolding claim_row waiting get_job
claim_row_won id worker expires [] h = cc
claim_row_won id worker expires (job ∷ jobs) h =
    ground (arith, claim_row_won id worker expires jobs)

claim_row_after :
    (id worker : String) (expires : ℕ) (jobs : List Job)
    → (claim_row id worker expires jobs).1 ≡ true
    → waiting id (claim_row id worker expires jobs).0 ≡ 0
unfolding claim_row waiting get_job
claim_row_after id worker expires [] h = cc
claim_row_after id worker expires (job ∷ jobs) h =
    ground (arith, claim_row_after id worker expires jobs)

claim_row_lost :
    (id worker : String) (expires : ℕ) (jobs : List Job)
    → (claim_row id worker expires jobs).1 ≡ false
    → (claim_row id worker expires jobs).0 ≡ jobs
unfolding claim_row
claim_row_lost id worker expires [] h = refl
claim_row_lost id worker expires (job ∷ jobs) h =
    ground (arith, claim_row_lost id worker expires jobs)

waiting_other :
    (id other worker : String) (expires : ℕ) (jobs : List Job)
    → (other == id) ≡ false
    → waiting id (claim_row other worker expires jobs).0 ≡ waiting id jobs
unfolding waiting
waiting_other id other worker expires jobs h =
    ground (arith, claim_row_other id other worker expires jobs h)

wins-le-waiting :
    (id : String) (claims : List Claim) (jobs : List Job)
    → wins id (run_claims claims jobs).1 ≤ waiting id jobs
unfolding run_claims wins
wins-le-waiting id [] jobs = omega arith
wins-le-waiting id ((j, worker, expires) ∷ claims) jobs =
    let ih = wins-le-waiting id claims (claim_row j worker expires jobs).0 in
    elim (Bool-cases (j == id)) [
      | inr other ↦ rw other (omega (arith, ih, waiting_other id j worker expires jobs other))
      | inl self ↦
          let e = (eq_iff j id).0 self in
          elim (Bool-cases (claim_row j worker expires jobs).1) [
            | inl won ↦
                rw (self, won)
                  (omega (
                    arith,
                    ih,
                    subst (λ k. waiting k jobs ≡ 1) e (claim_row_won j worker expires jobs won),
                    subst (λ k. waiting k (claim_row j worker expires jobs).0 ≡ 0) e
                        (claim_row_after j worker expires jobs won),
                  ))
            | inr lost ↦
                rw (self, lost)
                  (omega (arith, ih, ap (waiting id) (claim_row_lost j worker expires jobs lost)))
          ]
    ]

-- However the claims of the workers interleave, a job is won at most once, and only if it was queued.
pub claims_exclusive :
    (id : String) (claims : List Claim) (jobs : List Job)
    → (wins id (run_claims claims jobs).1 ≤ waiting id jobs) × (waiting id jobs ≤ 1)
unfolding waiting
claims_exclusive id claims jobs = (wins-le-waiting id claims jobs, ground arith)
