-- ===== src/Retrieval/Freshness/Laws.antt =====
-- The order by date, and the newest document.
use mathlib.Core.List.{Perm, perm_middle}
use mathlib.Core.List.Perm
use mama_gift.Base.{
  All, All-append, All-map, Bool, Bool-cases, List, Option, Option-cases, String, Text, [], arith,
  false, inl, inr, list_eq, nat_eq, none, option_eq, refl, some, string_eq, true, ℕ, ◌++◌, ◌∷◌, ◌≡◌,
  ◌≢◌,
}
use mama_gift.Retrieval.ArchiveRetriever.{ArchiveDocumentRef}
use mama_gift.Retrieval.Freshness.{
  FreshnessIntent, date_window, dated, detect_freshness_intent, first_dated, freshness_answer,
  is_dated, newest, newest_of, oldest, order_by_freshness, resolve_freshness, sort_documents,
  undated, undecided,
}
use mama_gift.Retrieval.Freshness.Order.{
  DateOrder, Sorted, sort_documents-All, sort_documents-Perm, sort_documents-Sorted,
}

-- In the direction asked for, a date comes before another; a document without a date comes last.
abbrev pub Undated : ArchiveDocumentRef → Type 0
Undated d = d.issued_date ≡ none

not_dated-Undated : (d : ArchiveDocumentRef) → is_dated d ≡ false → Undated d
unfolding is_dated
not_dated-Undated d h = elim (Option-cases d.issued_date) [
  | inl e ↦ e
  | inr (n, e) ↦ absurd (ground arith)
]

undated-All : (ds : List ArchiveDocumentRef) → All Undated (undated ds)
unfolding undated
undated-All [] = tt
undated-All (d ∷ ds) = elim (Bool-cases (is_dated d)) [
  | inl e ↦ rw e (undated-All ds)
  | inr e ↦ rw e (not_dated-Undated d e, undated-All ds)
]

last_of :
    (intent : FreshnessIntent) (x : Option ℕ) (d : ArchiveDocumentRef)
    → Undated d
    → DateOrder intent x d.issued_date
last_of intent x d u = rw u (no_date_last intent x)
  where
    no_date_last : (intent : FreshnessIntent) (x : Option ℕ) → DateOrder intent x none
    no_date_last intent none = tt
    no_date_last intent (some x) = tt

no_dates-Sorted :
    (intent : FreshnessIntent) (ds : List ArchiveDocumentRef) → All Undated ds → Sorted intent ds
no_dates-Sorted intent [] u = tt
no_dates-Sorted intent (d ∷ ds) u = (
  All-map Undated _ ds (λ e v. last_of intent d.issued_date e v) u.1,
  no_dates-Sorted intent ds u.1,
)

Sorted-append :
    (intent : FreshnessIntent) (xs ys : List ArchiveDocumentRef)
    → Sorted intent xs
    → All Undated ys
    → Sorted intent (xs ++ ys)
Sorted-append intent [] ys s u = no_dates-Sorted intent ys u
Sorted-append intent (x ∷ xs) ys s u = (
  All-append _ xs ys s.0 (All-map Undated _ ys (λ e v. last_of intent x.issued_date e v) u),
  Sorted-append intent xs ys s.1 u,
)

split-Perm : (ds : List ArchiveDocumentRef) → Perm (dated ds ++ undated ds) ds
unfolding dated undated
split-Perm [] = Perm.refl []
split-Perm (d ∷ ds) = elim (Bool-cases (is_dated d)) [
  | inl e ↦ rw e (Perm.cons d (split-Perm ds))
  | inr e ↦
      rw e (Perm.trans (perm_middle {a = d} (dated ds) (undated ds)) (Perm.cons d (split-Perm ds)))
]

by_date_lem :
    (intent : FreshnessIntent) (ds : List ArchiveDocumentRef)
    → Perm (sort_documents intent (dated ds) ++ sort_documents intent (undated ds)) ds
      × Sorted intent (sort_documents intent (dated ds) ++ sort_documents intent (undated ds))
by_date_lem intent ds = (
  Perm.trans
      (Perm.append (sort_documents-Perm intent (dated ds))
        (sort_documents-Perm intent (undated ds)))
      (split-Perm ds),
  Sorted-append intent (sort_documents intent (dated ds)) (sort_documents intent (undated ds))
      (sort_documents-Sorted intent (dated ds))
      (sort_documents-All intent Undated (undated ds) (undated-All ds)),
)

-- The order for an intent: by date, newest or oldest first, or the order that was given.
abbrev pub OrderedFor : FreshnessIntent → List ArchiveDocumentRef → List ArchiveDocumentRef → Type 0
OrderedFor newest ordered documents = Sorted newest ordered
OrderedFor oldest ordered documents = Sorted oldest ordered
OrderedFor intent ordered documents = ordered ≡ documents

-- The newest document, for that intent: one with a date, which no other date is after; none only
-- where no document has a date.
abbrev pub NewestOk : FreshnessIntent → Option ArchiveDocumentRef → List ArchiveDocumentRef → Type 0
NewestOk newest none ordered = All Undated ordered
NewestOk newest (some d) ordered =
    (d.issued_date ≢ none) × All (λ e. DateOrder newest d.issued_date e.issued_date) ordered
NewestOk intent found ordered = found ≡ none

dated_of : (d : ArchiveDocumentRef) → is_dated d ≡ true → d.issued_date ≢ none
unfolding is_dated
dated_of d e h = ground arith

same_date : (x : Option ℕ) → DateOrder newest x x
same_date none = tt
same_date (some x) = omega arith

first_dated-NewestOk :
    (ds : List ArchiveDocumentRef) → Sorted newest ds → NewestOk newest (first_dated ds) ds
unfolding first_dated
first_dated-NewestOk [] s = tt
first_dated-NewestOk (d ∷ ds) s = elim (Bool-cases (is_dated d)) [
  | inl e ↦ rw e (dated_of d e, (same_date d.issued_date, s.0))
  | inr e ↦ rw e (later d (first_dated ds) ds (not_dated-Undated d e) (first_dated-NewestOk ds s.1))
]
  where
    later :
        (d : ArchiveDocumentRef) (found : Option ArchiveDocumentRef) (ds : List ArchiveDocumentRef)
        → Undated d
        → NewestOk newest found ds
        → NewestOk newest found (d ∷ ds)
    later d none ds u a = (u, a)
    later d (some f) ds u a = (a.0, (last_of newest f.issued_date d u, a.1))

order_by_freshness_lem :
    (documents : List ArchiveDocumentRef) (intent : FreshnessIntent)
    → Perm (order_by_freshness documents intent) documents
      × OrderedFor intent (order_by_freshness documents intent) documents
unfolding order_by_freshness
order_by_freshness_lem documents newest = by_date_lem newest documents
order_by_freshness_lem documents oldest = by_date_lem oldest documents
order_by_freshness_lem documents undecided = (Perm.refl documents, refl)
order_by_freshness_lem documents date_window = (Perm.refl documents, refl)

newest_of-NewestOk :
    (intent : FreshnessIntent) (ordered documents : List ArchiveDocumentRef)
    → OrderedFor intent ordered documents
    → NewestOk intent (newest_of intent ordered) ordered
unfolding newest_of
newest_of-NewestOk newest ordered documents o = first_dated-NewestOk ordered o
newest_of-NewestOk oldest ordered documents o = refl
newest_of-NewestOk undecided ordered documents o = refl
newest_of-NewestOk date_window ordered documents o = refl

-- The answer on freshness holds the given documents, none lost and none added: by date in the
-- direction asked for with those without a date last, or in the given order where the question asks
-- for neither the newest nor the oldest. The document it calls the newest has a date that no other is
-- after; it is missing only where no document has a date or the question does not ask for the newest.
pub resolve_freshness_lem :
    (contains_phrase : Text → String → Bool) (documents : List ArchiveDocumentRef) (query : Text)
    → let r = resolve_freshness contains_phrase documents query in
      Perm r.ordered documents
      × OrderedFor r.intent r.ordered documents
      × NewestOk r.intent r.newest_document r.ordered
unfolding resolve_freshness freshness_answer
resolve_freshness_lem contains_phrase documents query =
    let intent = detect_freshness_intent contains_phrase query in
    let (p, o) = order_by_freshness_lem documents intent in
    (p, o, newest_of-NewestOk intent (order_by_freshness documents intent) documents o)
