-- ===== src/Api/Feedback/Latest.antt =====
-- The latest correction of a field.
use mama_gift.Api.Feedback.{FeedbackEvent, insert_event, latest, sort_events}
use mama_gift.Base.{
  All, All-map, Bool-cases, List, Option-cases, String, [], ap, arith, inl, inr, leb, leb→le,
  leb→lt, list_eq, nat_eq, none, option_beq_iff, option_eq, some, string_eq, subst, ◌↔◌, ◌∷◌, ◌≡◌,
  ◌≢◌, ◌≤◌,
}

abbrev NotBefore : FeedbackEvent → FeedbackEvent → Type 0
NotBefore e f = e.created_at ≤ f.created_at

-- the rows come in the order of their creation
abbrev Ascending : List FeedbackEvent → Type 0
Ascending [] = Unit
Ascending (e ∷ es) = All (NotBefore e) es × Ascending es

insert-All :
    (P : FeedbackEvent → Type 0) (e : FeedbackEvent) (es : List FeedbackEvent)
    → All P (insert_event e es) ↔ (P e × All P es)
unfolding insert_event
insert-All P e [] = (λ h. (h.0, tt), λ h. (h.0, tt))
insert-All P e (x ∷ xs) =
    let ih = insert-All P e xs in
    elim (Bool-cases (leb e.created_at x.created_at)) [
      | inl y ↦ rw y ((λ h. h), (λ h. h))
      | inr n ↦
          rw n ((λ h. let (p, q) = ih.0 h.1 in (p, (h.0, q))), (λ h. (h.1.0, ih.1 (h.0, h.1.1))))
    ]

pub sort-All :
    (P : FeedbackEvent → Type 0) (es : List FeedbackEvent) → All P (sort_events es) ↔ All P es
unfolding sort_events
sort-All P [] = (λ h. h, λ h. h)
sort-All P (e ∷ es) =
    let ih = sort-All P es in
    let ins = insert-All P e (sort_events es) in
    (λ h. let (p, q) = ins.0 h in (p, ih.0 q), λ h. ins.1 (h.0, ih.1 h.1))

insert-Ascending :
    (e : FeedbackEvent) (es : List FeedbackEvent) → Ascending es → Ascending (insert_event e es)
unfolding insert_event
insert-Ascending e [] a = (tt, tt)
insert-Ascending e (x ∷ xs) a = elim (Bool-cases (leb e.created_at x.created_at)) [
  | inl y ↦
      let le : e.created_at ≤ x.created_at = leb→le _ _ y in
      let above = All-map (NotBefore x) (NotBefore e) xs (λ z h. omega (arith, h, le)) a.0 in
      rw y ((le, above), a)
  | inr n ↦
      let lt = leb→lt _ _ n in
      let le : x.created_at ≤ e.created_at = omega (arith, lt) in
      rw n ((insert-All (NotBefore x) e xs).1 (le, a.0), insert-Ascending e xs a.1)
]

pub sort-Ascending : (es : List FeedbackEvent) → Ascending (sort_events es)
unfolding sort_events
sort-Ascending [] = tt
sort-Ascending (e ∷ es) = insert-Ascending e (sort_events es) (sort-Ascending es)

-- a field's event is not after the latest of the field
abbrev pub NotAfter : String → FeedbackEvent → FeedbackEvent → Type 0
NotAfter field_id r e = e.field_id ≡ some field_id → e.created_at ≤ r.created_at

pub latest-field :
    (field_id : String) (es : List FeedbackEvent) {r : FeedbackEvent}
    → latest field_id es ≡ some r
    → r.field_id ≡ some field_id
unfolding latest
latest-field field_id [] h = absurd (ground arith)
latest-field field_id (e ∷ es) {r} h = elim (Option-cases (latest field_id es)) [
  | inr (later, f) ↦ latest-field field_id es {r = r} (ground arith)
  | inl n ↦ ground (arith, option_beq_iff e.field_id (some field_id))
]

pub latest-All :
    (P : FeedbackEvent → Type 0) (field_id : String) (es : List FeedbackEvent) {r : FeedbackEvent}
    → latest field_id es ≡ some r
    → All P es
    → P r
unfolding latest
latest-All P field_id [] h a = absurd (ground arith)
latest-All P field_id (e ∷ es) {r} h a = elim (Option-cases (latest field_id es)) [
  | inr (later, f) ↦ latest-All P field_id es {r = r} (ground arith) a.1
  | inl n ↦ subst P (ground (arith, option_beq_iff e.field_id (some field_id))) a.0
]

pub latest-none :
    (field_id : String) (es : List FeedbackEvent)
    → latest field_id es ≡ none
    → All (λ e. e.field_id ≢ some field_id) es
unfolding latest
latest-none field_id [] h = tt
latest-none field_id (e ∷ es) h = elim (Option-cases (latest field_id es)) [
  | inr (later, f) ↦ absurd (ground arith)
  | inl n ↦ (
    λ q. ground (arith, (option_beq_iff e.field_id (some field_id)).1 q),
    latest-none field_id es n,
  )
]

pub latest-NotAfter :
    (field_id : String) (es : List FeedbackEvent) {r : FeedbackEvent}
    → Ascending es
    → latest field_id es ≡ some r
    → All (NotAfter field_id r) es
unfolding latest
latest-NotAfter field_id [] a h = tt
latest-NotAfter field_id (e ∷ es) {r} a h = elim (Option-cases (latest field_id es)) [
  | inr (later, f) ↦
      let g : latest field_id es ≡ some r = ground arith in
      (λ q. latest-All (NotBefore e) field_id es g a.0, latest-NotAfter field_id es a.1 g)
  | inl n ↦
      let same : e ≡ r = ground (arith, option_beq_iff e.field_id (some field_id)) in
      (
        λ q. ground (arith, ap (λ (x : FeedbackEvent). x.created_at) same),
        All-map (λ e. e.field_id ≢ some field_id) (NotAfter field_id r) es (λ x m q. absurd (m q))
            (latest-none field_id es n),
      )
]
