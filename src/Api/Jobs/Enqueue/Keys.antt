-- ===== src/Api/Jobs/Enqueue/Keys.antt =====
-- The search over the generations of an idempotency key.
use mama_gift.Api.Jobs.{KeySearch, find_key, free, key_of, reuse, search_key}
use mama_gift.Api.Models.{Job}
use mama_gift.Api.StateMachine.{document_status_eq, job_status_eq, terminal_job_statuses}
use mama_gift.Base.{
  Bool-cases, List, Option-cases, String, Text, [], ap, arith, beq_of_ne, codes, contains, decimal,
  decimal-injective, false, if◌then◌else◌, inl, inr, length, length-append, list_beq_iff, list_eq,
  nat_eq, none, option_eq, refl, some, string_eq, suc, sym, zero, ℕ, ◌++◌, ◌+◌, ◌<◌, ◌==◌, ◌∙◌, ◌∷◌,
  ◌≡◌, ◌≤◌,
}

without_key : Text → List Job → List Job
without_key k [] = []
without_key k (j ∷ js) =
    let rest = without_key k js in if j.idempotency_key == k then rest else j ∷ rest

find-without_key :
    (k q : Text) (js : List Job)
    → find_key q (without_key k js) ≡ (if q == k then none else find_key q js)
unfolding find_key without_key
find-without_key k q [] = ground arith
find-without_key k q (j ∷ js) = ground (
  arith,
  find-without_key k q js,
  list_beq_iff j.idempotency_key k,
  list_beq_iff j.idempotency_key q,
  list_beq_iff q k,
)

length-without_key-le : (k : Text) (js : List Job) → length (without_key k js) ≤ length js
unfolding without_key
length-without_key-le k [] = omega arith
length-without_key-le k (j ∷ js) = ground (arith, length-without_key-le k js)

length-without_key-lt :
    (k : Text) (js : List Job) (j : Job)
    → find_key k js ≡ some j
    → length (without_key k js) < length js
unfolding find_key without_key
length-without_key-lt k [] j h = cc
length-without_key-lt k (i ∷ js) j h =
    ground (arith, length-without_key-le k js, length-without_key-lt k js j)

module _ (key : ℕ → Text) (injective : (m n : ℕ) → key m ≡ key n → m ≡ n) (jobs : List Job) where
  -- `left` are the jobs whose key may still be met.
  search_within :
      (fuel generation : ℕ) (left : List Job)
      → ((n : ℕ) → generation ≤ n → find_key (key n) jobs ≡ find_key (key n) left)
      → length left < fuel
      → (r : KeySearch) × (search_key fuel key jobs generation ≡ some r)
  unfolding search_key
  search_within zero g left same h = absurd (omega arith)
  search_within (suc fuel) g left same h = elim (Option-cases (find_key (key g) jobs)) [
    | inl e ↦ (free (key g), rw (e, search_key))
    | inr (j, e) ↦ elim (Bool-cases (contains j.status terminal_job_statuses)) [
      | inr live ↦ (reuse j, rw (e, search_key) (rw live))
      | inl dead ↦
          let shorter = length-without_key-lt (key g) left j (sym (same g (omega arith)) ∙ e) in
          let (r, found) =
            search_within fuel (g + 1) (without_key (key g) left)
              (λ n later.
                same n (omega arith)
                ∙ sym (
                    find-without_key (key g) (key n) left
                    ∙ rw (beq_of_ne (key n) (key g) (λ p. omega (arith, injective n g p)))))
              (omega arith) in
          (r, rw (e, search_key) (rw dead found))
    ]
  ]

  -- One try more than there are jobs ends the loop.
  pub search_key_total : (r : KeySearch) × (search_key (suc (length jobs)) key jobs 0 ≡ some r)
  search_key_total = search_within (suc (length jobs)) 0 jobs (λ n h. refl) (omega arith)

append_left_cancel : (xs ys zs : Text) → xs ++ ys ≡ xs ++ zs → ys ≡ zs
append_left_cancel [] ys zs h = h
append_left_cancel (x ∷ xs) ys zs h = append_left_cancel xs ys zs (cc)

hash-injective : (xs ys : Text) → b'#' ∷ xs ≡ b'#' ∷ ys → xs ≡ ys
hash-injective xs ys h = cc

append-ne_self : (xs : Text) (y : ℕ) (ys : Text) → xs ≡ xs ++ (y ∷ ys) → ⊥
append-ne_self xs y ys h = omega (arith, ap length h, length-append xs (y ∷ ys))

abbrev base_key : String → ℕ → Text
base_key document_id version = codes document_id ++ (codes ":parse:v" ++ decimal version)

key_of-suc :
    (document_id : String) (version n : ℕ)
    → key_of document_id version (suc n) ≡ base_key document_id version ++ (b'#' ∷ decimal (suc n))
unfolding key_of
key_of-suc document_id version n = ground arith

-- The keys of two generations differ.
pub key_of-injective :
    (document_id : String) (version m n : ℕ)
    → key_of document_id version m ≡ key_of document_id version n
    → m ≡ n
key_of-injective document_id version zero zero h = refl
key_of-injective document_id version zero (suc n) h =
    let e : base_key document_id version ≡ key_of document_id version (suc n) =
      unfold key_of in h in
    absurd (
      append-ne_self (base_key document_id version) b'#' (decimal (suc n))
        (e ∙ key_of-suc document_id version n))
key_of-injective document_id version (suc m) zero h =
    let e : base_key document_id version ≡ key_of document_id version (suc m) =
      unfold key_of in sym h in
    absurd (
      append-ne_self (base_key document_id version) b'#' (decimal (suc m))
        (e ∙ key_of-suc document_id version m))
key_of-injective document_id version (suc m) (suc n) h = decimal-injective (suc m) (suc n) (
    hash-injective (decimal (suc m)) (decimal (suc n)) (
      append_left_cancel (base_key document_id version) (b'#' ∷ decimal (suc m))
        (b'#' ∷ decimal (suc n))
        (sym (key_of-suc document_id version m) ∙ h ∙ key_of-suc document_id version n)))

pub find_key-append :
    (k : Text) (js : List Job) (j : Job)
    → find_key k (js ++ (j ∷ [])) ≡ elim (find_key k js) [
      | none ↦ if j.idempotency_key == k then some j else none
      | some i ↦ some i
    ]
unfolding find_key
find_key-append k [] j = ground arith
find_key-append k (i ∷ js) j = ground (arith, find_key-append k js j)

-- A search that found a free key finds the job that was then given that key.
pub search_key_after :
    (key : ℕ → Text) (jobs : List Job) (j : Job) (fuel more generation : ℕ)
    → fuel ≤ more
    → search_key fuel key jobs generation ≡ some (free j.idempotency_key)
    → contains j.status terminal_job_statuses ≡ false
    → (search_key more key (jobs ++ (j ∷ [])) generation ≡ some (reuse j))
      × (find_key j.idempotency_key jobs ≡ none)
unfolding search_key
search_key_after key jobs j zero more g le h live = cc
search_key_after key jobs j (suc fuel) zero g le h live = absurd (omega arith)
search_key_after key jobs j (suc fuel) (suc more) g le h live = ground (
  arith,
  find_key-append (key g) jobs j,
  list_beq_iff j.idempotency_key (key g),
  search_key_after key jobs j fuel more (g + 1),
)
