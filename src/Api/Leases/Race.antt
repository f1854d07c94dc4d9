-- ===== src/Api/Leases/Race.antt =====
-- The loop of `lease_next_job` of ingestion.py against other sessions, which may win the race for a job.
use mama_gift.Api.Leases.{claim_job, claim_row, count_queued, get_job, lease_loop, next_runnable}
use mama_gift.Api.Leases.Choice.{
  Chosen, chosen_waits, job_ids, next_runnable-Chosen, runnable_queued,
}
use mama_gift.Api.Models.{Db, Job, Settings}
use mama_gift.Api.StateMachine.{document_status_eq, job_status_eq, leased, queued}
use mama_gift.Base.{
  Bool, Bool-cases, List, Option, Option-cases, String, [], ap, arith, distinct, false, inl, inr,
  list_eq, nat_eq, none, option_eq, refl, some, string_eq, suc, true, zero, ℕ, ◌+◌, ◌<◌, ◌==◌, ◌∙◌,
  ◌∷◌, ◌≡◌, ◌≢◌, ◌≤◌, ◌⊎◌,
}

-- What other sessions may do to the table while a worker leases: any row but that of a waiting job may
-- change, a waiting job may be taken, and no job is queued or added.
abbrev pub OnlyTakes : List Job → List Job → Type 0
OnlyTakes [] [] = Unit
OnlyTakes (j ∷ js) (k ∷ ks) = (k.id ≡ j.id) × ((k ≡ j) ⊎ (k.status ≢ queued)) × OnlyTakes js ks
OnlyTakes [] (k ∷ ks) = ⊥
OnlyTakes (j ∷ js) [] = ⊥

OnlyTakes-refl : (js : List Job) → OnlyTakes js js
OnlyTakes-refl [] = tt
OnlyTakes-refl (j ∷ js) = (refl, inl refl, OnlyTakes-refl js)

row_trans :
    (j k l : Job)
    → (k ≡ j) ⊎ (k.status ≢ queued)
    → (l ≡ k) ⊎ (l.status ≢ queued)
    → (l ≡ j) ⊎ (l.status ≢ queued)
row_trans j k l (inl e) (inl f) = inl (f ∙ e)
row_trans j k l (inr n) (inl f) = inr (rw f n)
row_trans j k l s (inr n) = inr n

OnlyTakes-trans : (js ks ls : List Job) → OnlyTakes js ks → OnlyTakes ks ls → OnlyTakes js ls
OnlyTakes-trans [] [] ls a b = b
OnlyTakes-trans [] (k ∷ ks) ls a b = absurd a
OnlyTakes-trans (j ∷ js) [] ls a b = absurd a
OnlyTakes-trans (j ∷ js) (k ∷ ks) [] a b = absurd b
OnlyTakes-trans (j ∷ js) (k ∷ ks) (l ∷ ls) (i, s, r) (i', s', r') =
    (i' ∙ i, row_trans j k l s s', OnlyTakes-trans js ks ls r r')

OnlyTakes-job_ids : (js ks : List Job) → OnlyTakes js ks → job_ids ks ≡ job_ids js
OnlyTakes-job_ids [] [] a = refl
OnlyTakes-job_ids [] (k ∷ ks) a = absurd a
OnlyTakes-job_ids (j ∷ js) [] a = absurd a
OnlyTakes-job_ids (j ∷ js) (k ∷ ks) (i, s, r) = rw (i, OnlyTakes-job_ids js ks r) refl

OnlyTakes-count : (js ks : List Job) → OnlyTakes js ks → count_queued ks ≤ count_queued js
unfolding count_queued
OnlyTakes-count [] [] a = omega arith
OnlyTakes-count [] (k ∷ ks) a = absurd a
OnlyTakes-count (j ∷ js) [] a = absurd a
OnlyTakes-count (j ∷ js) (k ∷ ks) (i, inl e, r) = rw e (ground (arith, OnlyTakes-count js ks r))
OnlyTakes-count (j ∷ js) (k ∷ ks) (i, inr n, r) = ground (arith, OnlyTakes-count js ks r)

abbrev claimed : String → ℕ → Job → Job
claimed worker expires j = record j {
  status = leased;
  leased_by = some worker;
  lease_expires_at = some expires;
}

-- A claim of a job that waited either wins it or finds that another session took it.
abbrev Raced : String → String → ℕ → List Job → List Job → Job → Type 0
Raced id worker expires js ks i =
    (((claim_row id worker expires ks).1 ≡ true)
      × (get_job id (claim_row id worker expires ks).0 ≡ some (claimed worker expires i)))
    ⊎ (((claim_row id worker expires ks).1 ≡ false)
        × ((claim_row id worker expires ks).0 ≡ ks)
        × (count_queued ks < count_queued js))

claim_row-Raced :
    (id worker : String) (expires : ℕ) (js ks : List Job) (i : Job)
    → OnlyTakes js ks
    → get_job id js ≡ some i
    → i.status ≡ queued
    → Raced id worker expires js ks i
unfolding claim_row get_job count_queued
claim_row-Raced id worker expires [] ks i a h q = absurd (ground arith)
claim_row-Raced id worker expires (j ∷ js) [] i a h q = absurd a
claim_row-Raced id worker expires (j ∷ js) (k ∷ ks) i (e, s, r) h q =
    elim (Bool-cases (k.id == id)) [
      | inl here ↦ elim s [
        | inl same ↦ inl (ground arith, ground arith)
        | inr taken ↦ inr (ground arith, ground arith, ground (arith, OnlyTakes-count js ks r))
      ]
      | inr elsewhere ↦ elim (claim_row-Raced id worker expires js ks i r (ground arith) q) [
        | inl won ↦ inl (ground arith, ground arith)
        | inr lost ↦ inr (ground arith, ground arith, ground arith)
      ]
    ]

-- What the loop returns, by a table `seen` that the other sessions made of the one at its start: no job
-- of it may run, or the job chosen of it is now leased to the worker until the end of the lease.
abbrev pub Leases : ℕ → ℕ → String → Db → Db × Option Job → Type 0
Leases moment expires worker db (db', none) =
    OnlyTakes db.jobs db'.jobs × (db'.documents ≡ db.documents) × Chosen moment db'.jobs none
Leases moment expires worker db (db', some j) =
    (seen : List Job) × (i : Job) × OnlyTakes db.jobs seen
    × (db'.documents ≡ db.documents)
    × Chosen moment seen (some i)
    × (j ≡ claimed worker expires i)
    × (get_job j.id db'.jobs ≡ some j)

later_round :
    (moment expires : ℕ) (worker : String) (db : Db) (ks : List Job) (r : Db × Option Job)
    → OnlyTakes db.jobs ks
    → Leases moment expires worker (record db { jobs = ks }) r
    → Leases moment expires worker db r
later_round moment expires worker db ks (db', none) a (b, d, c) =
    (OnlyTakes-trans db.jobs ks db'.jobs a b, d, c)
later_round moment expires worker db ks (db', some j) a (seen, i, b, d, c, e, g) =
    (seen, i, OnlyTakes-trans db.jobs ks seen a b, d, c, e, g)

module _ (others : ℕ → List Job → List Job) (worker : String) (moment : ℕ)
    (settings : Settings) where
  loop_idle :
      (fuel : ℕ) (db : Db)
      → next_runnable moment db.jobs ≡ none
      → lease_loop (suc fuel) others db worker moment settings ≡ some (db, none)
  unfolding lease_loop
  loop_idle fuel db e = ground arith

  abbrev claim : ℕ → Db → Job → List Job × Bool
  claim fuel db j =
      claim_row j.id worker (moment + settings.job_lease_seconds) (others fuel db.jobs)

  loop_won :
      (fuel : ℕ) (db : Db) (j : Job)
      → next_runnable moment db.jobs ≡ some j
      → (claim fuel db j).1 ≡ true
      → lease_loop (suc fuel) others db worker moment settings
        ≡ some (record db { jobs = (claim fuel db j).0 }, get_job j.id (claim fuel db j).0)
  unfolding lease_loop claim_job
  loop_won fuel db j e w = ground arith

  loop_lost :
      (fuel : ℕ) (db : Db) (j : Job)
      → next_runnable moment db.jobs ≡ some j
      → (claim fuel db j).1 ≡ false
      → (claim fuel db j).0 ≡ others fuel db.jobs
      → lease_loop (suc fuel) others db worker moment settings
        ≡ lease_loop fuel others (record db { jobs = others fuel db.jobs }) worker moment settings
  unfolding lease_loop claim_job
  loop_lost fuel db j e w k = ground arith

  abbrev Ends : ℕ → Db → Type 0
  Ends fuel db =
      (r : Db × Option Job) × (lease_loop fuel others db worker moment settings ≡ some r)
      × Leases moment (moment + settings.job_lease_seconds) worker db r

  round :
      (fuel : ℕ) (db : Db) (j : Job)
      → distinct (job_ids db.jobs) ≡ true
      → OnlyTakes db.jobs (others fuel db.jobs)
      → next_runnable moment db.jobs ≡ some j
      → Chosen moment db.jobs (some j)
      → ((count_queued (others fuel db.jobs) < count_queued db.jobs)
          → Ends fuel (record db { jobs = others fuel db.jobs }))
      → Ends (suc fuel) db
  round fuel db j d takes e best next =
      let expires = moment + settings.job_lease_seconds in
      let (row, member) = chosen_waits moment db.jobs j d e in
      elim (claim_row-Raced j.id worker expires db.jobs (others fuel db.jobs) j takes row
        (runnable_queued moment j best.0)) [
          | inl (won, now) ↦ (
            (record db { jobs = (claim fuel db j).0 }, some (claimed worker expires j)),
            loop_won fuel db j e won
                ∙ ap (λ o. some (record db { jobs = (claim fuel db j).0 }, o)) now,
            (db.jobs, j, OnlyTakes-refl db.jobs, refl, best, refl, now),
          )
          | inr (lost, kept, fewer) ↦
              let (r, run, l) = next fewer in
              (
                r,
                loop_lost fuel db j e lost kept ∙ run,
                later_round moment expires worker db (others fuel db.jobs) r takes l,
              )
        ]

  by_choice :
      (fuel : ℕ) (db : Db)
      → distinct (job_ids db.jobs) ≡ true
      → OnlyTakes db.jobs (others fuel db.jobs)
      → ((count_queued (others fuel db.jobs) < count_queued db.jobs)
          → Ends fuel (record db { jobs = others fuel db.jobs }))
      → Ends (suc fuel) db
  by_choice fuel db d takes next =
      let chosen = next_runnable-Chosen moment db.jobs in
      elim (Option-cases (next_runnable moment db.jobs)) [
        | inl e ↦ ((db, none), loop_idle fuel db e, (OnlyTakes-refl db.jobs, refl, rw e at chosen))
        | inr (j, e) ↦ round fuel db j d takes e (rw e at chosen) next
      ]

  -- Where the other sessions only take jobs, on a table with distinct identifiers, the loop ends after at
  -- most one round more than there are jobs in the queue, however many races it loses: with a job that
  -- might run and that no job that might run was older than in the table that it saw, which was still
  -- waiting and is now leased to the worker; or with none, where in the table at the end no job may run.
  pub lease_loop_total :
      (fuel : ℕ) (db : Db)
      → distinct (job_ids db.jobs) ≡ true
      → ((n : ℕ) (jobs : List Job) → OnlyTakes jobs (others n jobs))
      → count_queued db.jobs ≤ fuel
      → (r : Db × Option Job) × (lease_loop (suc fuel) others db worker moment settings ≡ some r)
        × Leases moment (moment + settings.job_lease_seconds) worker db r
  lease_loop_total zero db d takes enough =
      by_choice zero db d (takes zero db.jobs) (λ fewer. absurd (omega arith))
  lease_loop_total (suc fuel) db d takes enough =
      let ids = OnlyTakes-job_ids db.jobs (others (suc fuel) db.jobs) (takes (suc fuel) db.jobs) in
      by_choice (suc fuel) db d (takes (suc fuel) db.jobs) (λ fewer.
        lease_loop_total fuel (record db { jobs = others (suc fuel) db.jobs }) (rw ids d) takes
          (omega arith))
