-- ===== src/Api/Leases/Sweep.antt =====
-- `release_expired_leases` of ingestion.py against its specification, and when it cannot raise.
use mama_gift.Api.Jobs.{set_document_status}
use mama_gift.Api.Jobs.Enqueue.{MayQueue}
use mama_gift.Api.Leases.{
  is_expirable, lease_holds, release_expired_leases, requeue, requeue_document, sweep,
}
use mama_gift.Api.Models.{Db, Document, Job, get_document, put_document}
use mama_gift.Api.StateMachine.{document_status_eq, job_status_eq, queued, queued_for_parse}
use mama_gift.Base.{
  All, Bool, Bool-cases, List, Option, Option-cases, Result-cases, String, [], arith, eq_iff, false,
  if◌then◌else◌, inl, inr, list_eq, map, nat_eq, none, not, ok, option_eq, refl, some, string_eq,
  suc, true, ℕ, ◌&&◌, ◌+◌, ◌==◌, ◌>>=◌, ◌∷◌, ◌≡◌,
}

-- LEASED or RUNNING, with no lease that still holds.
abbrev pub is_stale : ℕ → Job → Bool
is_stale moment job = is_expirable job.status && not (lease_holds moment job.lease_expires_at)

-- What the sweep makes of one row: a stale job is back in the queue, with no holder.
abbrev pub swept_row : ℕ → Job → Job
swept_row moment job =
    if is_stale moment job
    then record job {
      status = queued;
      leased_by = none;
      lease_expires_at = none;
      available_at = some moment;
    }
    else job

abbrev pub swept_rows : ℕ → List Job → List Job
swept_rows moment = map (swept_row moment)

pub count_stale : ℕ → List Job → ℕ
count_stale moment [] = 0
count_stale moment (job ∷ jobs) =
    let rest = count_stale moment jobs in if is_stale moment job then suc rest else rest

requeue_row :
    (moment : ℕ) (job : Job)
    → is_stale moment job ≡ true
    → requeue moment job ≡ ok (swept_row moment job)
unfolding requeue is_expirable
requeue_row moment job h = ground arith

sweep-eq :
    (moment : ℕ) (jobs : List Job) (documents : List Document) {r : List Job × List Document × ℕ}
    → sweep moment jobs documents ≡ ok r
    → (r.0 ≡ swept_rows moment jobs) × (r.2 ≡ count_stale moment jobs)
unfolding sweep count_stale
sweep-eq moment [] documents h = ground arith
sweep-eq moment (job ∷ jobs) documents h = elim (Bool-cases (is_stale moment job)) [
  | inl stale ↦ elim (Result-cases (requeue_document job.document_id documents)) [
    | inl (ds, put) ↦ elim (Result-cases (sweep moment jobs ds)) [
      | inl (r, run) ↦ ground (arith, sweep-eq moment jobs ds run, requeue_row moment job stale)
      | inr (x, run) ↦ ground (arith, requeue_row moment job stale)
    ]
    | inr (x, put) ↦ ground (arith, requeue_row moment job stale)
  ]
  | inr fresh ↦ elim (Result-cases (sweep moment jobs documents)) [
    | inl (r, run) ↦ ground (arith, sweep-eq moment jobs documents run)
    | inr (x, run) ↦ ground arith
  ]
]

-- After a sweep the table holds no stale job: every job that a worker may hold has a lease that runs
-- past the moment of the sweep.
no_stale :
    (moment : ℕ) (jobs : List Job) → All (λ j. is_stale moment j ≡ false) (swept_rows moment jobs)
unfolding is_expirable lease_holds
no_stale moment [] = tt
no_stale moment (job ∷ jobs) = (ground arith, no_stale moment jobs)

-- A sweep that does not raise puts exactly the stale jobs back in the queue, leaves every other row
-- as it is, counts what it requeued, and no stale job is left.
pub release_expired_leases_lem :
    (db : Db) (moment : ℕ) {db' : Db} {requeued : ℕ}
    → release_expired_leases db moment ≡ ok (db', requeued)
    → (db'.jobs ≡ swept_rows moment db.jobs)
      × (requeued ≡ count_stale moment db.jobs)
      × All (λ j. is_stale moment j ≡ false) db'.jobs
      × (db'.parse_runs ≡ db.parse_runs)
unfolding release_expired_leases
release_expired_leases_lem db moment {db'} h =
    elim (Result-cases (sweep moment db.jobs db.documents)) [
      | inl (r, run) ↦
          let (rows, count) = sweep-eq moment db.jobs db.documents run in
          let e : db'.jobs ≡ swept_rows moment db.jobs = ground arith in
          (e, ground arith, rw e (no_stale moment db.jobs), ground arith)
      | inr (x, run) ↦ ground arith
    ]

-- The document of a stale job, if there is one, may go back to the queue.
abbrev pub MayFollow : Option Document → Type 0
MayFollow none = Unit
MayFollow (some d) = MayQueue d.status

abbrev pub Followable : ℕ → List Document → List Job → Type 0
Followable moment documents =
    All (λ j. is_stale moment j ≡ true → MayFollow (get_document j.document_id documents))

requeue_one :
    (d : Document) (ds : List Document)
    → MayQueue d.status
    → (do d' ← set_document_status d queued_for_parse; ok (put_document d' ds))
      ≡ ok (put_document (record d { status = queued_for_parse }) ds)
unfolding set_document_status
requeue_one d ds m = ground arith

get-put :
    (id : String) (d : Document) (ds : List Document)
    → MayQueue d.status
    → MayFollow (get_document id ds)
    → MayFollow (get_document id (put_document d ds))
unfolding get_document put_document
get-put id d [] m h = tt
get-put id d (e ∷ ds) m h = elim (Bool-cases (e.id == d.id)) [
  | inl same ↦ elim (Bool-cases (d.id == id)) [
    | inl mine ↦ rw same (rw (mine, get_document) m)
    | inr not_mine ↦
        let not_e : (e.id == id) ≡ false = ground (arith, eq_iff e.id d.id) in
        rw same (rw (not_mine, get_document) (rw (not_e, get_document) at h))
  ]
  | inr other ↦ elim (Bool-cases (e.id == id)) [
    | inl mine ↦ rw other (rw (mine, get_document) (rw (mine, get_document) at h))
    | inr not_mine ↦
        rw other
          (rw (not_mine, get_document) (get-put id d ds m (rw (not_mine, get_document) at h)))
  ]
]

Followable-put :
    (moment : ℕ) (d : Document) (ds : List Document) (jobs : List Job)
    → MayQueue d.status
    → Followable moment ds jobs
    → Followable moment (put_document d ds) jobs
Followable-put moment d ds [] m h = tt
Followable-put moment d ds (job ∷ jobs) m h =
    ((λ stale. get-put job.document_id d ds m (h.0 stale)), Followable-put moment d ds jobs m h.1)

requeue_document_total :
    (moment : ℕ) (id : String) (ds : List Document) (jobs : List Job)
    → MayFollow (get_document id ds)
    → Followable moment ds jobs
    → (ds' : List Document) × (requeue_document id ds ≡ ok ds') × Followable moment ds' jobs
unfolding requeue_document
requeue_document_total moment id ds jobs m h = elim (Option-cases (get_document id ds)) [
  | inl e ↦ (ds, rw (e, requeue_document), h)
  | inr (d, e) ↦
      let d' = record d { status = queued_for_parse } in
      (
        put_document d' ds,
        rw (e, requeue_document) (requeue_one d ds (rw e at m)),
        Followable-put moment d' ds jobs (inl refl) h,
      )
]

sweep-stale :
    (moment : ℕ) (job : Job) (jobs : List Job) (documents ds : List Document)
    (r : List Job × List Document × ℕ)
    → is_stale moment job ≡ true
    → requeue_document job.document_id documents ≡ ok ds
    → sweep moment jobs ds ≡ ok r
    → sweep moment (job ∷ jobs) documents ≡ ok (swept_row moment job ∷ r.0, r.1, r.2 + 1)
unfolding sweep
sweep-stale moment job jobs documents ds r stale put run =
    ground (arith, requeue_row moment job stale)

sweep_total :
    (moment : ℕ) (jobs : List Job) (documents : List Document)
    → Followable moment documents jobs
    → (r : List Job × List Document × ℕ) × (sweep moment jobs documents ≡ ok r)
unfolding sweep
sweep_total moment [] documents h = (_, refl)
sweep_total moment (job ∷ jobs) documents h = elim (Bool-cases (is_stale moment job)) [
  | inl stale ↦
      let (ds, put, follow) =
        requeue_document_total moment job.document_id documents jobs (h.0 stale) h.1 in
      let (r, run) = sweep_total moment jobs ds follow in
      (_, sweep-stale moment job jobs documents ds r stale put run)
  | inr fresh ↦
      let (r, run) = sweep_total moment jobs documents h.1 in
      ((job ∷ r.0, r.1, r.2), rw fresh (rw run))
]

-- The sweep raises nothing when the document of every stale job may go back to the queue.
pub release_expired_leases_total :
    (db : Db) (moment : ℕ)
    → Followable moment db.documents db.jobs
    → (r : Db × ℕ) × (release_expired_leases db moment ≡ ok r)
unfolding release_expired_leases
release_expired_leases_total db moment h =
    let (r, run) = sweep_total moment db.jobs db.documents h in
    ((record db { jobs = r.0; documents = r.1 }, r.2), rw run)
