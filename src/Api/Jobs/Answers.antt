-- ===== src/Api/Jobs/Answers.antt =====
-- What `enqueue_parse_job` of ingestion.py answers.
use mama_gift.Api.Jobs.{
  KeySearch, add_job, enqueue_parse_job, find_key, free, key_of, new_job, next_parse_run_version,
  reuse, search_for, search_key,
}
use mama_gift.Api.Jobs.Enqueue.{MayQueue, find_key-none, keys_of, search_for_total}
use mama_gift.Api.Models.{Db, Document, Job, get_document, put_document}
use mama_gift.Api.StateMachine.{
  document_status_eq, job_status_eq, queued, queued_for_parse, terminal_job_statuses,
}
use mama_gift.Base.{
  Bool-cases, In, List, Option-cases, String, Text, [], ap, arith, at_head, beq_refl, contains,
  false, in_tail, inl, inr, length, list_beq_iff, list_eq, nat_eq, none, ok, option_eq, refl, some,
  string_eq, subst, suc, zero, ℕ, ◌++◌, ◌+◌, ◌==◌, ◌∷◌, ◌≡◌, ◌⊎◌,
}

-- What a call answers: an unfinished job of the document's next version that is there, with nothing
-- changed; or a new job behind the others, queued, untried and under a key that none of them has, with
-- the document in the queue, in the session and in the table.
pub record Appended (db : Db) (document : Document) (max_attempts : ℕ) (db' : Db)
    (document' : Document) (job : Job) : Type 0 where
  pub jobs : db'.jobs ≡ db.jobs ++ (job ∷ [])
  pub runs : db'.parse_runs ≡ db.parse_runs
  pub for_document : job.document_id ≡ document.id
  pub waiting : job.status ≡ queued
  pub untried : (job.attempt ≡ 0) × (job.max_attempts ≡ max_attempts)
  pub fresh_key : contains job.idempotency_key (keys_of db.jobs) ≡ false
  pub in_queue : document' ≡ record document { status = queued_for_parse }
  pub stored : get_document document.id db'.documents ≡ some document'

abbrev pub Unfinished : Db → Document → Job → Type 0
Unfinished db document job =
    In job db.jobs
    × (contains job.status terminal_job_statuses ≡ false)
    × ((generation : ℕ) × (job.idempotency_key
          ≡ key_of document.id (next_parse_run_version db.parse_runs document.id) generation))

abbrev pub Enqueued : Db → Document → ℕ → Db × Document × Job → Type 0
Enqueued db document max_attempts (db', document', job) =
    ((db' ≡ db) × (document' ≡ document) × Unfinished db document job)
    ⊎ Appended db document max_attempts db' document' job

find_key-In :
    (key : Text) (jobs : List Job) {j : Job}
    → find_key key jobs ≡ some j
    → In j jobs × (j.idempotency_key ≡ key)
unfolding find_key
find_key-In key [] h = absurd (ground arith)
find_key-In key (k ∷ ks) {j} h = elim (Bool-cases (k.idempotency_key == key)) [
  | inl here ↦
      let same : k ≡ j = ground arith in
      (
        subst (λ x. In x (k ∷ ks)) same (at_head ks),
        rw (← same) ((list_beq_iff k.idempotency_key key).0 here),
      )
  | inr elsewhere ↦ let (i, e) = find_key-In key ks {j = j} (ground arith) in (in_tail k i, e)
]

search_key-reuse :
    (fuel : ℕ) (key : ℕ → Text) (jobs : List Job) (generation : ℕ) {j : Job}
    → search_key fuel key jobs generation ≡ some (reuse j)
    → In j jobs
      × (contains j.status terminal_job_statuses ≡ false)
      × ((g : ℕ) × (j.idempotency_key ≡ key g))
unfolding search_key
search_key-reuse zero key jobs generation h = absurd (ground arith)
search_key-reuse (suc fuel) key jobs generation {j} h =
    elim (Option-cases (find_key (key generation) jobs)) [
      | inl e ↦ absurd (ground arith)
      | inr (k, e) ↦ elim (Bool-cases (contains k.status terminal_job_statuses)) [
        | inl over ↦ search_key-reuse fuel key jobs (generation + 1) {j = j} (ground arith)
        | inr runs ↦
            let same : k ≡ j = ground arith in
            let (i, same_key) = find_key-In (key generation) jobs e in
            (
              subst (λ x. In x jobs) same i,
              subst (λ x. contains x.status terminal_job_statuses ≡ false) same runs,
              (generation, subst (λ x. x.idempotency_key ≡ key generation) same same_key),
            )
      ]
    ]

get_document-put_document :
    (d : Document) (documents : List Document) {found : Document}
    → get_document d.id documents ≡ some found
    → get_document d.id (put_document d documents) ≡ some d
unfolding get_document put_document
get_document-put_document d [] h = absurd (ground arith)
get_document-put_document d (e ∷ es) {found} h = elim (Bool-cases (e.id == d.id)) [
  | inl here ↦ ground (arith, beq_refl d.id)
  | inr elsewhere ↦
      let rest = get_document-put_document d es {found = found} (ground arith) in ground arith
]

add_job-Appended :
    (db : Db) (document : Document) (why : String) (m : ℕ) (id : String) (now : ℕ) (key : Text)
    → MayQueue document.status
    → contains key (keys_of db.jobs) ≡ false
    → get_document document.id db.documents ≡ some document
    → (r : Db × Document × Job) × (add_job db document why m id now key ≡ ok r)
      × Appended db document m r.0 r.1 r.2
unfolding add_job new_job
add_job-Appended db document why m id now key may fresh stored =
    let job = new_job id document.id why m key now in
    let queued_document = record document { status = queued_for_parse } in
    let jobs = db.jobs ++ (job ∷ []) in
    elim (Bool-cases (document.status == queued_for_parse)) [
      | inl already ↦
          let e = (document_status_eq.beq_iff document.status queued_for_parse).0 already in
          (
            (record db { jobs = jobs }, document, job),
            ground arith,
            record {
              jobs = refl;
              runs = refl;
              for_document = refl;
              waiting = refl;
              untried = (refl, refl);
              fresh_key = fresh;
              in_queue = ap (λ s. record document { status = s }) e;
              stored = stored;
            },
          )
      | inr moves ↦ (
        (
          record db { jobs = jobs; documents = put_document queued_document db.documents },
          queued_document,
          job,
        ),
        ground arith,
        record {
          jobs = refl;
          runs = refl;
          for_document = refl;
          waiting = refl;
          untried = (refl, refl);
          fresh_key = fresh;
          in_queue = refl;
          stored = get_document-put_document queued_document db.documents stored;
        },
      )
    ]

search_fresh :
    (fuel : ℕ) (key : ℕ → Text) (jobs : List Job) (generation : ℕ) {k : Text}
    → search_key fuel key jobs generation ≡ some (free k)
    → find_key k jobs ≡ none
unfolding search_key
search_fresh zero key jobs generation h = absurd (ground arith)
search_fresh (suc fuel) key jobs generation {k} h =
    ground (arith, search_fresh fuel key jobs (generation + 1) {k = k})

pub search_for_reuse :
    (db : Db) (document : Document) {job : Job}
    → search_for db document ≡ some (reuse job)
    → Unfinished db document job
unfolding search_for
search_for_reuse db document h =
    search_key-reuse (suc (length db.jobs))
      (key_of document.id (next_parse_run_version db.parse_runs document.id)) db.jobs 0 h

search_for_fresh :
    (db : Db) (document : Document) {key : Text}
    → search_for db document ≡ some (free key)
    → find_key key db.jobs ≡ none
unfolding search_for
search_for_fresh db document h =
    search_fresh (suc (length db.jobs))
      (key_of document.id (next_parse_run_version db.parse_runs document.id)) db.jobs 0 h

-- A call for a stored document that may be queued succeeds: the search for a key ends and no transition
-- is refused. It gives back an unfinished job of the document's next version and changes nothing, or
-- appends a new job under a key that no job has and leaves the document QUEUED_FOR_PARSE.
pub enqueue_parse_job_total :
    (db : Db) (document : Document) (why : String) (max_attempts : ℕ) (id : String) (now : ℕ)
    → MayQueue document.status
    → get_document document.id db.documents ≡ some document
    → (r : Db × Document × Job) × (enqueue_parse_job db document why max_attempts id now ≡ ok r)
      × Enqueued db document max_attempts r
unfolding enqueue_parse_job
enqueue_parse_job_total db document why m id now may stored =
    let (r, e) = search_for_total db document in answers r e
  where
    answers :
        (s : KeySearch)
        → search_for db document ≡ some s
        → (r : Db × Document × Job) × (enqueue_parse_job db document why m id now ≡ ok r)
          × Enqueued db document m r
    answers (reuse job) e =
        ((db, document, job), ground arith, inl (refl, refl, search_for_reuse db document e))
    answers (free key) e =
        let (r, run, a) =
          add_job-Appended db document why m id now key may
            (find_key-none key db.jobs (search_for_fresh db document e)) stored in
        (r, ground arith, inr a)
