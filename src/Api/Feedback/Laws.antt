-- ===== src/Api/Feedback/Laws.antt =====
-- What corrections do to a served document.
use mama_gift.Api.Feedback.{
  FeedbackEvent, FieldEntry, correct_field, correction_for, corrections_of, is_correction, latest,
  sort_events,
}
use mama_gift.Api.Feedback.Latest.{
  NotAfter, latest-All, latest-NotAfter, latest-field, latest-none, sort-All, sort-Ascending,
}
use mama_gift.Base.{
  All, All-map, Bool-cases, In, List, Option, Option-cases, String, [], arith, at_head, in_tail,
  inl, inr, list_eq, nat_eq, none, option_beq_iff, option_eq, refl, some, string_eq, sym, true, ◌∙◌,
  ◌∷◌, ◌≡◌, ◌≢◌, ◌≤◌, ◌⊎◌,
}

-- A field as it is served: laid over with the latest correction of the document for it, if there is one.
pub record Served (events : List FeedbackEvent) (document_id : String) (before after : FieldEntry)
    : Type 0 where
  pub same_id : after.id ≡ before.id
  pub same_raw : after.raw_value ≡ before.raw_value
  pub same_normalized : after.normalized_value ≡ before.normalized_value
  pub verdict :
      ((after ≡ before)
        × All (λ e. is_correction document_id e ≡ true → e.field_id ≢ before.id) events)
      ⊎ ((r : FeedbackEvent) × In r events
          × (is_correction document_id r ≡ true)
          × (r.field_id ≡ before.id)
          × (after.review_status ≡ "corrected")
          × (after.corrected_value ≡ r.corrected_value)
          × All
              (λ e.
                is_correction document_id e ≡ true
                → e.field_id ≡ before.id
                → e.created_at ≤ r.created_at)
              events)

abbrev pub ServedAll : List FeedbackEvent → String → List FieldEntry → List FieldEntry → Type 0
ServedAll events document_id [] [] = Unit
ServedAll events document_id [] (g ∷ gs) = ⊥
ServedAll events document_id (f ∷ fs) [] = ⊥
ServedAll events document_id (f ∷ fs) (g ∷ gs) =
    Served events document_id f g × ServedAll events document_id fs gs

abbrev pub corrected : List FeedbackEvent → FieldEntry → FieldEntry
corrected rows f = correct_field (correction_for f.id rows) f

corrections_of-All :
    (P : FeedbackEvent → Type 0) (document_id : String) (es : List FeedbackEvent)
    → All P (corrections_of document_id es)
    → All (λ e. is_correction document_id e ≡ true → P e) es
unfolding corrections_of
corrections_of-All P document_id [] a = tt
corrections_of-All P document_id (e ∷ es) a = elim (Bool-cases (is_correction document_id e)) [
  | inl y ↦ let b = rw y at a in (λ c. b.0, corrections_of-All P document_id es b.1)
  | inr n ↦
      let b = rw n at a in
      (λ c. absurd (ground (arith, n, c)), corrections_of-All P document_id es b)
]

All-corrections_of :
    (P : FeedbackEvent → Type 0) (document_id : String) (es : List FeedbackEvent)
    → All (λ e. is_correction document_id e ≡ true → P e) es
    → All P (corrections_of document_id es)
unfolding corrections_of
All-corrections_of P document_id [] a = tt
All-corrections_of P document_id (e ∷ es) a = elim (Bool-cases (is_correction document_id e)) [
  | inl y ↦ rw y (a.0 y, All-corrections_of P document_id es a.1)
  | inr n ↦ rw n (All-corrections_of P document_id es a.1)
]

All-In {ℓ} : {A : Type ℓ} (xs : List A) → All (λ x. In x xs) xs
All-In [] = tt
All-In (x ∷ xs) =
    (at_head xs, All-map (λ y. In y xs) (λ y. In y (x ∷ xs)) xs (λ y i. in_tail x i) (All-In xs))

abbrev IsRow : List FeedbackEvent → String → FeedbackEvent → Type 0
IsRow events document_id e = In e events × (is_correction document_id e ≡ true)

rows-IsRow :
    (events : List FeedbackEvent) (document_id : String)
    → All (IsRow events document_id) (sort_events (corrections_of document_id events))
rows-IsRow events document_id =
    (sort-All (IsRow events document_id) (corrections_of document_id events)).1 (
      All-corrections_of (IsRow events document_id) document_id events (
        All-map (λ e. In e events)
          (λ e. is_correction document_id e ≡ true → IsRow events document_id e) events
          (λ e i c. (i, c)) (All-In events)))

-- what holds of every row holds of every correction of the document
rows-All :
    (P : FeedbackEvent → Type 0) (events : List FeedbackEvent) (document_id : String)
    → All P (sort_events (corrections_of document_id events))
    → All (λ e. is_correction document_id e ≡ true → P e) events
rows-All P events document_id a =
    corrections_of-All P document_id events ((sort-All P (corrections_of document_id events)).0 a)

is_correction-field :
    (document_id : String) (e : FeedbackEvent)
    → is_correction document_id e ≡ true
    → e.field_id ≢ none
unfolding is_correction
is_correction-field document_id e h q = ground (arith, option_beq_iff e.field_id none)

unchanged-Served :
    (events : List FeedbackEvent) (document_id : String) (f : FieldEntry)
    → All (λ e. is_correction document_id e ≡ true → e.field_id ≢ f.id) events
    → Served events document_id f f
unchanged-Served events document_id f a = record {
  same_id = refl;
  same_raw = refl;
  same_normalized = refl;
  verdict = inl (refl, a);
}

pub corrected-Served :
    (events : List FeedbackEvent) (document_id : String) (f : FieldEntry) (id : Option String)
    → f.id ≡ id
    → Served events document_id f
        (correct_field (correction_for id (sort_events (corrections_of document_id events))) f)
unfolding correction_for correct_field
corrected-Served events document_id f none e = unchanged-Served events document_id f (
    All-map (λ x. In x events) (λ x. is_correction document_id x ≡ true → x.field_id ≢ f.id) events
      (λ x u c q. is_correction-field document_id x c (q ∙ e)) (All-In events))
corrected-Served events document_id f (some id) e =
    let rows = sort_events (corrections_of document_id events) in
    elim (Option-cases (latest id rows)) [
      | inl n ↦ rw n (
          unchanged-Served events document_id f (
            All-map (λ x. is_correction document_id x ≡ true → x.field_id ≢ some id)
              (λ x. is_correction document_id x ≡ true → x.field_id ≢ f.id) events
              (λ x m c q. m c (q ∙ e))
              (rows-All (λ x. x.field_id ≢ some id) events document_id (latest-none id rows n))))
      | inr (r, h) ↦
          let row =
            latest-All (IsRow events document_id) id rows h (rows-IsRow events document_id) in
          rw h (record {
            same_id = refl;
            same_raw = refl;
            same_normalized = refl;
            verdict = inr (
              r,
              row.0,
              row.1,
              latest-field id rows h ∙ sym e,
              refl,
              refl,
              All-map (λ x. is_correction document_id x ≡ true → NotAfter id r x)
                  (λ x.
                    is_correction document_id x ≡ true
                    → x.field_id ≡ f.id
                    → x.created_at ≤ r.created_at)
                  events (λ x m c q. m c (q ∙ e))
                  (rows-All (NotAfter id r) events document_id (
                    latest-NotAfter id rows (sort-Ascending (corrections_of document_id events))
                      h)),
            );
          })
    ]
