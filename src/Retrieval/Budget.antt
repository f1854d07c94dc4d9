-- ===== src/Retrieval/Budget.antt =====
-- budget.py: one character budget per category of context, and the record of what was cut.
pub mod Laws
use mama_gift.Base.{
  Bool, List, Option, Result, String, Text, [], contains, err, if◌then◌else◌, length, list_eq,
  lookup, ltb, nat_eq, none, ok, option_eq, some, string_eq, take, ℕ, ◌+◌, ◌>>=◌, ◌>>◌, ◌∷◌,
}
use mama_gift.Retrieval.Errors.{RetrievalError, missing_limit, not_text, unknown_categories}

pub record EvidenceBudget : Type 0 where
  pub selected_document_chars : ℕ
  pub conversation_short_term_chars : ℕ
  pub user_long_term_memory_chars : ℕ
  pub episodic_memory_chars : ℕ
  pub archive_semantic_chars : ℕ

unfoldable pub total_chars : EvidenceBudget → ℕ
total_chars b =
    b.selected_document_chars + b.conversation_short_term_chars + b.user_long_term_memory_chars
    + b.episodic_memory_chars + b.archive_semantic_chars

pub record BudgetCategoryUsage : Type 0 where
  pub category : String
  pub budget_chars : ℕ
  pub offered_chars : ℕ
  pub used_chars : ℕ
  pub truncated : Bool

pub record BudgetBreakdown : Type 0 where
  pub categories : List BudgetCategoryUsage

unfoldable pub sum_used : List BudgetCategoryUsage → ℕ
sum_used [] = 0
sum_used (u ∷ us) = u.used_chars + sum_used us

unfoldable pub total_used_chars : BudgetBreakdown → ℕ
unfolding sum_used
total_used_chars b = sum_used b.categories

-- A value of the `offered` dictionary: `None`, a text, or something else.
pub data Offer : Type 0 where
  nothing_offered : Offer
  offer : Text → Offer
  not_a_text : Offer

abbrev pub budget_categories : List String
budget_categories =
    "selected_document" ∷ "conversation_short_term" ∷ "user_long_term_memory" ∷ "episodic_memory"
    ∷ "archive_semantic" ∷ []

abbrev pub limits : EvidenceBudget → List (String × ℕ)
limits b =
    ("selected_document", b.selected_document_chars)
    ∷ ("conversation_short_term", b.conversation_short_term_chars)
    ∷ ("user_long_term_memory", b.user_long_term_memory_chars)
    ∷ ("episodic_memory", b.episodic_memory_chars)
    ∷ ("archive_semantic", b.archive_semantic_chars)
    ∷ []

-- `set(offered) - set(limits)`
unfoldable pub unknown_keys : List (String × Offer) → List String
unknown_keys [] = []
unknown_keys ((k, v) ∷ m) =
    let rest = unknown_keys m in if contains k budget_categories then rest else k ∷ rest

-- the tests on `raw_text`
unfoldable pub offered_text : String → Option Offer → Result RetrievalError Text
offered_text category none = ok []
offered_text category (some nothing_offered) = ok []
offered_text category (some (offer text)) = ok text
offered_text category (some not_a_text) = err (not_text category)

unfoldable pub usage_of : String → ℕ → Text → BudgetCategoryUsage
usage_of category limit text = record {
  category = category;
  budget_chars = limit;
  offered_chars = length text;
  used_chars = length (take limit text);
  truncated = ltb (length (take limit text)) (length text);
}

-- `limits[category]`
unfoldable pub limit_for : String → List (String × ℕ) → Result RetrievalError ℕ
limit_for category m = elim (lookup category m) [
  | none ↦ err (missing_limit category)
  | some n ↦ ok n
]

abbrev pub Bounded : Type 0
Bounded = List (String × Text) × List BudgetCategoryUsage

-- the loop over `_CATEGORIES`
unfoldable pub bound_categories :
    List (String × ℕ) → List (String × Offer) → List String → Result RetrievalError Bounded
unfolding offered_text usage_of limit_for
bound_categories m offered [] = ok ([], [])
bound_categories m offered (c ∷ cs) = do
  limit ← limit_for c m
  text ← offered_text c (lookup c offered)
  rest ← bound_categories m offered cs
  ok ((c, take limit text) ∷ rest.0, usage_of c limit text ∷ rest.1)

abbrev pub raise_unknown : List String → Result RetrievalError (Unit {0})
raise_unknown [] = ok tt
raise_unknown (k ∷ ks) = err (unknown_categories (k ∷ ks))

unfoldable pub assemble_bounded_context :
    EvidenceBudget
    → List (String × Offer)
    → Result RetrievalError (List (String × Text) × BudgetBreakdown)
unfolding bound_categories unknown_keys
assemble_bounded_context budget offered = do
  raise_unknown (unknown_keys offered)
  done ← bound_categories (limits budget) offered budget_categories
  ok (done.0, record { categories = done.1 })
