-- ===== src/Api/Leases.antt =====
-- ingestion.py, the leases: the sweep of expired ones, the choice of the next job, and the
-- compare-and-swap that claims it.
pub mod Sweep
pub mod Claims
pub mod Choice
pub mod Race
use Prim.Native.Nat.{Ordering, compare as nat_compare}
use Prim.Native.String.{compare}
use mama_gift.Api.Jobs.{ApiFailure, set_document_status, set_job_status}
use mama_gift.Api.Models.{Db, Document, Job, Settings, get_document, put_document}
use mama_gift.Api.StateMachine.{
  JobStatus, document_status_eq, job_status_eq, leased, queued, queued_for_parse, running,
}
use mama_gift.Base.{
  Bool, List, Option, Result, String, [], false, if◌then◌else◌, leb, list_eq, ltb, nat_eq, none,
  not, ok, option_eq, some, string_eq, suc, true, zero, ℕ, ◌&&◌, ◌+◌, ◌==◌, ◌>>=◌, ◌>>◌, ◌∷◌,
}

-- `expires_at is not None and expires_at > moment`
unfoldable pub lease_holds : ℕ → Option ℕ → Bool
lease_holds moment none = false
lease_holds moment (some expires_at) = ltb moment expires_at

-- Job.status.in_(EXPIRABLE_JOB_STATUSES)
unfoldable pub is_expirable : JobStatus → Bool
is_expirable leased = true
is_expirable running = true
is_expirable _ = false

unfoldable pub requeue : ℕ → Job → Result ApiFailure Job
unfolding set_job_status
requeue moment job = do
  job' ← set_job_status job queued
  ok (record job' { leased_by = none; lease_expires_at = none; available_at = some moment })

-- the document follows its job back, if there is one
unfoldable pub requeue_document : String → List Document → Result ApiFailure (List Document)
unfolding set_document_status
requeue_document document_id documents = elim (get_document document_id documents) [
  | none ↦ ok documents
  | some document ↦ (do
    document' ← set_document_status document queued_for_parse
    ok (put_document document' documents))
]

-- The loop over the rows of the table: the swept rows, the documents, and `requeued`.
unfoldable pub sweep :
    ℕ → List Job → List Document → Result ApiFailure (List Job × List Document × ℕ)
sweep moment [] documents = ok ([], documents, 0)
sweep moment (job ∷ jobs) documents =
    let swept : Result ApiFailure (List Job × List Document × ℕ) = do
      job' ← requeue moment job
      documents' ← requeue_document job.document_id documents
      rest ← sweep moment jobs documents'
      ok (job' ∷ rest.0, rest.1, rest.2 + 1)
    in let kept : Result ApiFailure (List Job × List Document × ℕ) = do
      rest ← sweep moment jobs documents
      ok (job ∷ rest.0, rest.1, rest.2)
      in if is_expirable job.status && not (lease_holds moment job.lease_expires_at)
        then swept
        else kept

unfoldable pub release_expired_leases : Db → ℕ → Result ApiFailure (Db × ℕ)
release_expired_leases db moment = do
  swept ← sweep moment db.jobs db.documents
  ok (record db { jobs = swept.0; documents = swept.1 }, swept.2)

-- the `where` of `_runnable_job_query`
unfoldable pub is_runnable : ℕ → Job → Bool
is_runnable moment job =
    (job.status == queued) && (elim job.available_at [ none ↦ true | some t ↦ leb t moment ])

-- the `order_by`: by creation, then by identifier
unfoldable pub comes_before : Job → Job → Bool
comes_before a b = elim (nat_compare a.created_at b.created_at) [
  | Ordering.lt ↦ true
  | Ordering.gt ↦ false
  | Ordering.eq ↦ elim (compare a.id b.id) [ Ordering.lt ↦ true | _ ↦ false ]
]

-- `.limit(1)` of the ordered rows
unfoldable pub next_runnable : ℕ → List Job → Option Job
unfolding is_runnable comes_before
next_runnable moment [] = none
next_runnable moment (job ∷ jobs) =
    let rest = next_runnable moment jobs in
    if is_runnable moment job
    then elim rest [
      | none ↦ some job
      | some other ↦ if comes_before other job then some other else some job
    ]
    else rest

-- UPDATE ... WHERE id = job.id AND status = QUEUED; whether a row was changed
unfoldable pub claim_row : String → String → ℕ → List Job → List Job × Bool
claim_row id worker_id expires_at [] = ([], false)
claim_row id worker_id expires_at (job ∷ jobs) =
    if job.id == id
    then if job.status == queued
      then (
        record job {
          status = leased;
          leased_by = some worker_id;
          lease_expires_at = some expires_at;
        }
            ∷ jobs,
        true,
      )
      else (job ∷ jobs, false)
    else (let (rest, won) = claim_row id worker_id expires_at jobs in (job ∷ rest, won))

unfoldable pub claim_job : Db → Job → String → ℕ → Settings → Db × Bool
unfolding claim_row
claim_job db job worker_id moment settings =
    let (jobs, won) = claim_row job.id worker_id (moment + settings.job_lease_seconds) db.jobs in
    (record db { jobs = jobs }, won)

-- session.refresh(job)
unfoldable pub get_job : String → List Job → Option Job
get_job id [] = none
get_job id (j ∷ js) = if j.id == id then some j else get_job id js

-- how many jobs wait in the queue
unfoldable pub count_queued : List Job → ℕ
count_queued [] = 0
count_queued (job ∷ jobs) =
    let rest = count_queued jobs in if job.status == queued then suc rest else rest

-- The `while True` loop on fuel; `none` means that the fuel ran out. `others` is what the other sessions
-- do to the table of jobs between the query and the update of a round.
unfoldable pub lease_loop :
    ℕ → (ℕ → List Job → List Job) → Db → String → ℕ → Settings → Option (Db × Option Job)
unfolding claim_job next_runnable get_job
lease_loop zero others db worker_id moment settings = none
lease_loop (suc fuel) others db worker_id moment settings = elim (next_runnable moment db.jobs) [
  | none ↦ some (db, none)
  | some job ↦
      let (db', won) =
        claim_job (record db { jobs = others fuel db.jobs }) job worker_id moment settings in
      elim won [
        | true ↦ some (db', get_job job.id db'.jobs)
        | false ↦ lease_loop fuel others db' worker_id moment settings
      ]
]

-- Each lost round leaves fewer jobs in the queue, so this fuel is enough: `lease_loop_total`.
unfoldable pub lease_next_job :
    (ℕ → List Job → List Job)
    → Db
    → String
    → Settings
    → ℕ
    → Result ApiFailure (Option (Db × Option Job))
unfolding release_expired_leases count_queued
lease_next_job others db worker_id settings moment = do
  released ← release_expired_leases db moment
  ok (lease_loop (suc (count_queued released.0.jobs)) others released.0 worker_id moment settings)
