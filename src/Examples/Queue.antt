-- ===== src/Examples/Queue.antt =====
-- Instances of the queue and the leases of ingestion.py.
use mama_gift.Api.Jobs.{ApiFailure, add_job, enqueue_parse_job, key_of, search_for, search_key}
use mama_gift.Api.Jobs.Answers.{Enqueued, enqueue_parse_job_total}
use mama_gift.Api.Jobs.Enqueue.{enqueue_parse_job_idempotent, enqueue_parse_job_unique, keys_of}
use mama_gift.Api.Leases.{
  claim_job, claim_row, count_queued, is_expirable, is_runnable, lease_holds, lease_loop,
  next_runnable, release_expired_leases, requeue, requeue_document, sweep,
}
use mama_gift.Api.Leases.Claims.{Claim, claims_exclusive, run_claims, waiting, wins}
use mama_gift.Api.Leases.Race.{Leases, OnlyTakes, lease_loop_total}
use mama_gift.Api.Leases.Sweep.{count_stale, is_stale, release_expired_leases_lem, swept_rows}
use mama_gift.Api.Models.{Db, Document, Job, get_document, put_document}
use mama_gift.Api.StateMachine.{
  can_transition_document, document_status_eq, job_status_eq, leased, queued, queued_for_parse,
  uploaded,
}
use mama_gift.Base.{
  All, List, Option, Result, [], arith, decimal, distinct, err, false, inr, list_eq, map, nat_eq,
  none, ok, option_eq, refl, some, string_eq, true, ℕ, ◌+◌, ◌∷◌, ◌≡◌, ◌≤◌,
}
use mama_gift.Examples.Samples.{
  busy_db, empty_db, sample_document, sample_job, sample_settings, waiting_db,
}

abbrev or_same : Result ApiFailure (Db × Document × Job) → Db × Document × Job
or_same (ok r) = r
or_same (err x) = (empty_db, sample_document uploaded, sample_job queued)

abbrev first : Db × Document × Job
first = or_same (enqueue_parse_job empty_db (sample_document uploaded) "upload" 3 "j1" 5)

first_ok :
    enqueue_parse_job empty_db (sample_document uploaded) "upload" 3 "j1" 5
    ≡ ok (first.0, first.1, first.2)
unfolding enqueue_parse_job search_for search_key add_job key_of decimal put_document
first_ok = refl

enqueue_parse_job_total_example :
    (r : Db × Document × Job) × (enqueue_parse_job empty_db
        (sample_document uploaded)
        "upload"
        3
        "j1"
        5
      ≡ ok r)
    × Enqueued empty_db (sample_document uploaded) 3 r
unfolding can_transition_document get_document
enqueue_parse_job_total_example =
    enqueue_parse_job_total empty_db (sample_document uploaded) "upload" 3 "j1" 5 (inr refl) refl

enqueue_parse_job_idempotent_example :
    enqueue_parse_job first.0 first.1 "again" 5 "j2" 9 ≡ ok (first.0, first.1, first.2)
enqueue_parse_job_idempotent_example =
    enqueue_parse_job_idempotent empty_db (sample_document uploaded) "upload" 3 "j1" 5 "again" 5
      "j2" 9 first_ok

enqueue_parse_job_unique_example : distinct (keys_of first.0.jobs) ≡ true
enqueue_parse_job_unique_example =
    enqueue_parse_job_unique empty_db (sample_document uploaded) "upload" 3 "j1" 5 refl first_ok

abbrev two_workers : List Claim
two_workers = ("job", "w1", 300) ∷ ("job", "w2", 300) ∷ []

claims_exclusive_example :
    (wins "job" (run_claims two_workers waiting_db.jobs).1 ≤ waiting "job" waiting_db.jobs)
    × (waiting "job" waiting_db.jobs ≤ 1)
claims_exclusive_example = claims_exclusive "job" two_workers waiting_db.jobs

-- a rival that takes every job in front of each claim
abbrev taken : Job → Job
taken j = record j { status = leased; leased_by = some "w2" }

abbrev rival : ℕ → List Job → List Job
rival n jobs = map taken jobs

rival-OnlyTakes : (n : ℕ) (jobs : List Job) → OnlyTakes jobs (rival n jobs)
rival-OnlyTakes n [] = tt
rival-OnlyTakes n (j ∷ js) = (refl, inr (λ e. ground arith), rival-OnlyTakes n js)

-- The worker loses the race for the only job, and its next round finds none.
race_lost :
    lease_loop 2 rival waiting_db "w1" 7 sample_settings
    ≡ some (record waiting_db { jobs = taken (sample_job queued) ∷ [] }, none)
unfolding lease_loop claim_job claim_row next_runnable is_runnable
race_lost = refl

lease_loop_total_example :
    (r : Db × Option Job) × (lease_loop 2 rival waiting_db "w1" 7 sample_settings ≡ some r)
    × Leases 7 (7 + 300) "w1" waiting_db r
unfolding count_queued
lease_loop_total_example =
    lease_loop_total rival "w1" 7 sample_settings 1 waiting_db refl rival-OnlyTakes (omega arith)

abbrev swept_db : Db
swept_db = record {
  documents = sample_document queued_for_parse ∷ [];
  jobs = record (sample_job queued) { available_at = some 9 } ∷ [];
  parse_runs = [];
}

busy_swept : release_expired_leases busy_db 9 ≡ ok (swept_db, 1)
unfolding release_expired_leases sweep requeue requeue_document is_expirable lease_holds
    get_document put_document
busy_swept = refl

release_expired_leases_lem_example :
    (swept_db.jobs ≡ swept_rows 9 busy_db.jobs)
    × (1 ≡ count_stale 9 busy_db.jobs)
    × All (λ j. is_stale 9 j ≡ false) swept_db.jobs
    × (swept_db.parse_runs ≡ busy_db.parse_runs)
release_expired_leases_lem_example = release_expired_leases_lem busy_db 9 busy_swept
