-- ===== src/Rag/Validation/Quotes.antt =====
-- Quotes and source blocks: what the tests of the validation find.
use mama_gift.Base.{
  All, Bool-cases, List, String, Text, [], ap, arith, contains, inl, inr, list_eq, nat_eq,
  option_eq, refl, string_eq, true, ◌++◌, ◌∷◌, ◌≡◌,
}
use mama_gift.Rag.Validation.{all_within, is_within, starts_with}

-- The text holds the quote, between something before it and something after it.
pub record Occurs (quote text : Text) : Type 0 where
  pub before : Text
  pub after : Text
  pub parts : text ≡ before ++ (quote ++ after)

starts_with_lem :
    (quote text : Text) → starts_with quote text ≡ true → (after : Text) × (text ≡ quote ++ after)
unfolding starts_with
starts_with_lem [] text h = (text, refl)
starts_with_lem (c ∷ cs) [] h = absurd (ground arith)
starts_with_lem (c ∷ cs) (d ∷ ds) h =
    let (after, e) = starts_with_lem cs ds (ground arith) in
    let head : c ≡ d = ground arith in (after, ground (arith, e, head))

pub is_within-Occurs : (quote text : Text) → is_within quote text ≡ true → Occurs quote text
unfolding is_within
is_within-Occurs quote [] h =
    let (after, e) = starts_with_lem quote [] h in record { before = []; after = after; parts = e }
is_within-Occurs quote (c ∷ cs) h = elim (Bool-cases (starts_with quote (c ∷ cs))) [
  | inl s ↦
      let (after, e) = starts_with_lem quote (c ∷ cs) s in
      record { before = []; after = after; parts = e }
  | inr n ↦
      let q = is_within-Occurs quote cs (ground arith) in
      record { before = c ∷ q.before; after = q.after; parts = ap (λ t. c ∷ t) q.parts }
]

pub all_within-All :
    (bs allowed : List String)
    → all_within bs allowed ≡ true
    → All (λ b. contains b allowed ≡ true) bs
unfolding all_within
all_within-All [] allowed h = tt
all_within-All (b ∷ bs) allowed h = (ground arith, all_within-All bs allowed (ground arith))
