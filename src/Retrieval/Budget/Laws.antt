-- ===== src/Retrieval/Budget/Laws.antt =====
-- What `assemble_bounded_context` of budget.py returns, and that it stays within the budget.
use mama_gift.Base.{
  All, List, Option, Result-cases, String, Text, [], ap, arith, inl, inr, length-take, list_eq,
  lookup, nat_eq, none, ok, option_eq, refl, some, string_eq, take, ℕ, ◌+◌, ◌∷◌, ◌≡◌, ◌≢◌, ◌≤◌, ◌⊎◌,
}
use mama_gift.Retrieval.Budget.{
  Bounded, BudgetBreakdown, BudgetCategoryUsage, EvidenceBudget, Offer, assemble_bounded_context,
  bound_categories, budget_categories, limits, not_a_text, nothing_offered, offer, sum_used,
  total_chars, total_used_chars, unknown_keys, usage_of,
}

-- The text that a category offers, empty where it offers none.
abbrev pub text_or_empty : Option Offer → Text
text_or_empty none = []
text_or_empty (some nothing_offered) = []
text_or_empty (some (offer text)) = text
text_or_empty (some not_a_text) = []

abbrev pub limit_or_zero : Option ℕ → ℕ
limit_or_zero none = 0
limit_or_zero (some n) = n

-- The category with the left part of its text that its budget has room for.
abbrev pub cut : List (String × ℕ) → List (String × Offer) → String → String × Text
cut m offered c = (c, take (limit_or_zero (lookup c m)) (text_or_empty (lookup c offered)))

abbrev pub usage_for : List (String × ℕ) → List (String × Offer) → String → BudgetCategoryUsage
usage_for m offered c = usage_of c (limit_or_zero (lookup c m)) (text_or_empty (lookup c offered))

-- The result that the budget promises for a list of categories.
abbrev pub cuts : List (String × ℕ) → List (String × Offer) → List String → Bounded
cuts m offered [] = ([], [])
cuts m offered (c ∷ cs) =
    let rest = cuts m offered cs in (cut m offered c ∷ rest.0, usage_for m offered c ∷ rest.1)

abbrev pub IsText : Option Offer → Type 0
IsText o = o ≢ some not_a_text

abbrev pub HasLimit : Option ℕ → Type 0
HasLimit o = o ≢ none

bound_categories-eq-cuts :
    (m : List (String × ℕ)) (offered : List (String × Offer)) (cs : List String) {r : Bounded}
    → bound_categories m offered cs ≡ ok r
    → r ≡ cuts m offered cs
unfolding bound_categories
bound_categories-eq-cuts m offered [] h = ground arith
bound_categories-eq-cuts m offered (c ∷ cs) {r} h =
    elim (Result-cases (bound_categories m offered cs)) [
      | inl (rest, e) ↦ ground (arith, bound_categories-eq-cuts m offered cs e)
      | inr (x, e) ↦ ground arith
    ]

bound_categories_total :
    (m : List (String × ℕ)) (offered : List (String × Offer)) (cs : List String)
    → All (λ c. HasLimit (lookup c m)) cs
    → All (λ c. IsText (lookup c offered)) cs
    → bound_categories m offered cs ≡ ok (cuts m offered cs)
unfolding bound_categories
bound_categories_total m offered [] h t = refl
bound_categories_total m offered (c ∷ cs) h t =
    ground (arith, bound_categories_total m offered cs h.1 t.1, h.0, t.0)

abbrev pub sum_limits : List (String × ℕ) → List String → ℕ
sum_limits m [] = 0
sum_limits m (c ∷ cs) = limit_or_zero (lookup c m) + sum_limits m cs

sum_used-cuts :
    (m : List (String × ℕ)) (offered : List (String × Offer)) (cs : List String)
    → sum_used (cuts m offered cs).1 ≤ sum_limits m cs
unfolding sum_used usage_of
sum_used-cuts m offered [] = omega arith
sum_used-cuts m offered (c ∷ cs) = omega (
  arith,
  sum_used-cuts m offered cs,
  length-take (limit_or_zero (lookup c m)) (text_or_empty (lookup c offered)),
)

limits-HasLimit : (b : EvidenceBudget) → All (λ c. HasLimit (lookup c (limits b))) budget_categories
limits-HasLimit b = ground arith

-- For known categories that each offer a text or nothing, every category keeps the left part of its
-- text that its own budget has room for, with the usage record of that cut.
pub assemble_bounded_context_total :
    (b : EvidenceBudget) (offered : List (String × Offer))
    → unknown_keys offered ≡ []
    → All (λ c. IsText (lookup c offered)) budget_categories
    → assemble_bounded_context b offered
      ≡ ok (
        (cuts (limits b) offered budget_categories).0,
        record { categories = (cuts (limits b) offered budget_categories).1 },
      )
unfolding assemble_bounded_context
assemble_bounded_context_total b offered k t =
    rw (k, bound_categories_total (limits b) offered budget_categories (limits-HasLimit b) t)

List-cases {ℓ} : {A : Type ℓ} (xs : List A) → (xs ≡ []) ⊎ ((x : A) × (r : List A) × (xs ≡ x ∷ r))
List-cases [] = inl refl
List-cases (x ∷ r) = inr (x, r, refl)

assemble_inversion :
    (b : EvidenceBudget) (offered : List (String × Offer)) {bounded : List (String × Text)}
    {breakdown : BudgetBreakdown}
    → assemble_bounded_context b offered ≡ ok (bounded, breakdown)
    → (unknown_keys offered ≡ [])
      × (bound_categories (limits b) offered budget_categories ≡ ok (bounded, breakdown.categories))
unfolding assemble_bounded_context
assemble_inversion b offered h = elim (List-cases (unknown_keys offered)) [
  | inl e ↦ elim (Result-cases (bound_categories (limits b) offered budget_categories)) [
    | inl (r, f) ↦ ground arith
    | inr (x, f) ↦ ground arith
  ]
  | inr (k, r, e) ↦ ground arith
]

-- A successful call was given known categories only; what it returns is that cut, and the characters
-- it uses never exceed the budget's total.
pub assemble_bounded_context_bounded :
    (b : EvidenceBudget) (offered : List (String × Offer)) {bounded : List (String × Text)}
    {breakdown : BudgetBreakdown}
    → assemble_bounded_context b offered ≡ ok (bounded, breakdown)
    → (unknown_keys offered ≡ [])
      × (bounded ≡ (cuts (limits b) offered budget_categories).0)
      × (total_used_chars breakdown ≤ total_chars b)
unfolding total_used_chars total_chars
assemble_bounded_context_bounded b offered {bounded} {breakdown} h =
    let (known, run) = assemble_inversion b offered h in
    let e = bound_categories-eq-cuts (limits b) offered budget_categories run in
    (
      known,
      ground (arith, e),
      ground (
        arith,
        ap (λ (r : Bounded). sum_used r.1) e,
        sum_used-cuts (limits b) offered budget_categories,
      ),
    )
