-- ===== src/Api/Jobs/Enqueue.antt =====
-- `enqueue_parse_job` of ingestion.py always ends, repeats itself without a second job, and keeps the
-- idempotency keys unique.
mod Keys
use Keys.{search_key_total, search_key_after, key_of-injective}
use mama_gift.Api.Jobs.{
  KeySearch, add_job, enqueue_parse_job, find_key, free, key_of, next_parse_run_version, reuse,
  search_for,
}
use mama_gift.Api.Leases.Claims.{waiting}
use mama_gift.Api.Models.{Db, Document, Job}
use mama_gift.Api.StateMachine.{
  DocumentStatus, can_transition_document, document_status_eq, job_status_eq, queued,
  queued_for_parse,
}
use mama_gift.Base.{
  List, String, Text, [], ap, arith, contains, distinct, distinct-snoc, false, length,
  length-append, list_beq_iff, list_eq, map, nat_eq, none, ok, option_eq, refl, some, string_eq,
  subst, suc, true, ℕ, ◌++◌, ◌∷◌, ◌≡◌, ◌⊎◌,
}

abbrev pub keys_of : List Job → List Text
keys_of = map (λ j. j.idempotency_key)

-- The status of a document from which it may go back to the queue.
abbrev pub MayQueue : DocumentStatus → Type 0
MayQueue s = (s ≡ queued_for_parse) ⊎ (can_transition_document s queued_for_parse ≡ true)

pub search_for_total :
    (db : Db) (document : Document) → (r : KeySearch) × (search_for db document ≡ some r)
unfolding search_for
search_for_total db document =
    search_key_total (key_of document.id (next_parse_run_version db.parse_runs document.id))
      (key_of-injective document.id (next_parse_run_version db.parse_runs document.id)) db.jobs

-- What is known of the new row.
record Added (db : Db) (document : Document) (key : Text) (db' : Db) (document' : Document)
    (job : Job) : Type 0 where
  pub jobs : db'.jobs ≡ db.jobs ++ (job ∷ [])
  pub runs : db'.parse_runs ≡ db.parse_runs
  pub id : document'.id ≡ document.id
  key_of_job : job.idempotency_key ≡ key
  pub waiting : job.status ≡ queued
  pub status : document'.status ≡ queued_for_parse

add_job-Added :
    (db : Db) (document : Document) (why : String) (m : ℕ) (id : String) (now : ℕ) (key : Text)
    {db' : Db} {document' : Document} {job : Job}
    → add_job db document why m id now key ≡ ok (db', document', job)
    → Added db document key db' document' job
unfolding add_job
add_job-Added db document why m id now key h = ground arith

search_after :
    (db : Db) (document : Document) (db' : Db) (document' : Document) (key : Text) (job : Job)
    → search_for db document ≡ some (free key)
    → Added db document key db' document' job
    → (search_for db' document' ≡ some (reuse job)) × (find_key key db.jobs ≡ none)
unfolding search_for
search_after db document db' document' key job found a =
    let (again, fresh) =
      search_key_after (key_of document.id (next_parse_run_version db.parse_runs document.id))
        db.jobs job (suc (length db.jobs)) (suc (length (db.jobs ++ (job ∷ [])))) 0
        (omega (arith, length-append db.jobs (job ∷ []))) (rw (a.key_of_job) found)
        (rw a.waiting refl) in
    (rw (a.runs, a.id, a.jobs) again, rw a.key_of_job at fresh)

-- Queueing again, for any reason, right after a successful call gives the same job and changes
-- nothing.
pub enqueue_parse_job_idempotent :
    (db : Db) (document : Document) (why : String) (max_attempts : ℕ) (id : String) (now : ℕ)
    (why' : String) (max_attempts' : ℕ) (id' : String) (now' : ℕ) {db' : Db} {document' : Document}
    {job : Job}
    → enqueue_parse_job db document why max_attempts id now ≡ ok (db', document', job)
    → enqueue_parse_job db' document' why' max_attempts' id' now' ≡ ok (db', document', job)
unfolding enqueue_parse_job
enqueue_parse_job_idempotent db document why m id now why' m' id' now' {db'} {document'} {job} h =
    let (r, e) = search_for_total db document in again r e
  where
    again :
        (r : KeySearch)
        → search_for db document ≡ some r
        → enqueue_parse_job db' document' why' m' id' now' ≡ ok (db', document', job)
    again (reuse j) e =
        let same : (db, document, j) ≡ (db', document', job) = ground arith in
        subst (λ t. enqueue_parse_job t.0 t.1 why' m' id' now' ≡ ok t) same (ground arith)
    again (free key) e =
        let a = add_job-Added db document why m id now key (ground arith) in
        let found = (search_after db document db' document' key job e a).0 in ground arith

pub find_key-none :
    (k : Text) (js : List Job) → find_key k js ≡ none → contains k (keys_of js) ≡ false
unfolding find_key
find_key-none k [] h = refl
find_key-none k (j ∷ js) h =
    ground (
      arith,
      find_key-none k js,
      list_beq_iff k j.idempotency_key,
      list_beq_iff j.idempotency_key k,
    )

keys_of-append : (js ks : List Job) → keys_of (js ++ ks) ≡ keys_of js ++ keys_of ks
keys_of-append [] ks = refl
keys_of-append (j ∷ js) ks = ap (λ t. j.idempotency_key ∷ t) (keys_of-append js ks)

-- The unique constraint on the idempotency keys holds after a successful call if it held before.
pub enqueue_parse_job_unique :
    (db : Db) (document : Document) (why : String) (max_attempts : ℕ) (id : String) (now : ℕ)
    {db' : Db} {document' : Document} {job : Job}
    → distinct (keys_of db.jobs) ≡ true
    → enqueue_parse_job db document why max_attempts id now ≡ ok (db', document', job)
    → (distinct (keys_of db'.jobs) ≡ true)
unfolding enqueue_parse_job
enqueue_parse_job_unique db document why m id now {db'} {document'} {job} d h =
    let (r, e) = search_for_total db document in keeps r e
  where
    keeps : (r : KeySearch) → search_for db document ≡ some r → distinct (keys_of db'.jobs) ≡ true
    keeps (reuse j) e = let same : db ≡ db' = ground arith in rw (← same) d
    keeps (free key) e =
        let a = add_job-Added db document why m id now key (ground arith) in
        let fresh = (search_after db document db' document' key job e a).1 in
        rw (a.jobs, keys_of-append)
          (distinct-snoc (keys_of db.jobs) job.idempotency_key d
            (rw a.key_of_job (find_key-none key db.jobs fresh)))
