-- ===== src/Retrieval/Freshness/Order.antt =====
-- The sort of documents by their date.
use mathlib.Core.List.{Perm}
use mathlib.Core.List.Perm
use mama_gift.Base.{
  All, All-map, Bool, Bool-cases, List, Option, [], arith, false, inl, inr, list_eq, nat_eq, none,
  option_eq, refl, some, string_eq, true, ℕ, ◌∷◌, ◌≡◌, ◌≤◌,
}
use mama_gift.Retrieval.ArchiveRetriever.{ArchiveDocumentRef}
use mama_gift.Retrieval.Freshness.{
  FreshnessIntent, date_window, insert_document, keys_before, newest, oldest, sort_documents,
  sorts_before, undecided,
}

abbrev pub DateOrder : FreshnessIntent → Option ℕ → Option ℕ → Type 0
DateOrder newest (some x) (some y) = y ≤ x
DateOrder oldest (some x) (some y) = x ≤ y
DateOrder undecided (some x) (some y) = x ≤ y
DateOrder date_window (some x) (some y) = x ≤ y
DateOrder intent none (some y) = ⊥
DateOrder intent o none = Unit

abbrev pub Sorted : FreshnessIntent → List ArchiveDocumentRef → Type 0
Sorted intent [] = Unit
Sorted intent (d ∷ ds) =
    All (λ e. DateOrder intent d.issued_date e.issued_date) ds × Sorted intent ds

DateOrder-trans :
    (intent : FreshnessIntent) (x y z : Option ℕ)
    → DateOrder intent x y
    → DateOrder intent y z
    → DateOrder intent x z
DateOrder-trans newest (some x) (some y) (some z) h k = omega arith
DateOrder-trans oldest (some x) (some y) (some z) h k = omega arith
DateOrder-trans undecided (some x) (some y) (some z) h k = omega arith
DateOrder-trans date_window (some x) (some y) (some z) h k = omega arith
DateOrder-trans intent none (some y) z h k = absurd h
DateOrder-trans intent x none (some z) h k = absurd k
DateOrder-trans intent x y none h k = tt

keys_before-DateOrder :
    (intent : FreshnessIntent) (x y : Option ℕ) (ids : Bool)
    → keys_before intent x y ids ≡ true
    → DateOrder intent x y
unfolding keys_before
keys_before-DateOrder newest (some x) (some y) ids h = ground arith
keys_before-DateOrder oldest (some x) (some y) ids h = ground arith
keys_before-DateOrder undecided (some x) (some y) ids h = ground arith
keys_before-DateOrder date_window (some x) (some y) ids h = ground arith
keys_before-DateOrder intent none (some y) ids h = absurd (ground arith)
keys_before-DateOrder intent (some x) none ids h = tt
keys_before-DateOrder intent none none ids h = tt

not_keys_before-DateOrder :
    (intent : FreshnessIntent) (x y : Option ℕ) (ids : Bool)
    → keys_before intent x y ids ≡ false
    → DateOrder intent y x
unfolding keys_before
not_keys_before-DateOrder newest (some x) (some y) ids h = ground arith
not_keys_before-DateOrder oldest (some x) (some y) ids h = ground arith
not_keys_before-DateOrder undecided (some x) (some y) ids h = ground arith
not_keys_before-DateOrder date_window (some x) (some y) ids h = ground arith
not_keys_before-DateOrder intent (some x) none ids h = absurd (ground arith)
not_keys_before-DateOrder intent none (some y) ids h = tt
not_keys_before-DateOrder intent none none ids h = tt

module _ (intent : FreshnessIntent) where
  insert_here :
      (a b : ArchiveDocumentRef) (bs : List ArchiveDocumentRef)
      → sorts_before intent b a ≡ false
      → insert_document intent a (b ∷ bs) ≡ a ∷ b ∷ bs
  unfolding insert_document
  insert_here a b bs e = rw e refl

  insert_later :
      (a b : ArchiveDocumentRef) (bs : List ArchiveDocumentRef)
      → sorts_before intent b a ≡ true
      → insert_document intent a (b ∷ bs) ≡ b ∷ insert_document intent a bs
  unfolding insert_document
  insert_later a b bs e = rw e refl

  insert_document-Perm :
      (a : ArchiveDocumentRef) (bs : List ArchiveDocumentRef)
      → Perm (insert_document intent a bs) (a ∷ bs)
  unfolding insert_document
  insert_document-Perm a [] = Perm.refl (a ∷ [])
  insert_document-Perm a (b ∷ bs) = elim (Bool-cases (sorts_before intent b a)) [
    | inl e ↦ rw e (Perm.trans (Perm.cons b (insert_document-Perm a bs)) (Perm.swap a b bs))
    | inr e ↦ rw e (Perm.refl (a ∷ b ∷ bs))
  ]

  pub sort_documents-Perm : (ds : List ArchiveDocumentRef) → Perm (sort_documents intent ds) ds
  unfolding sort_documents
  sort_documents-Perm [] = Perm.refl []
  sort_documents-Perm (d ∷ ds) =
      Perm.trans (insert_document-Perm d (sort_documents intent ds))
        (Perm.cons d (sort_documents-Perm ds))

  insert_document-All {ℓ} :
      (P : ArchiveDocumentRef → Type ℓ) (a : ArchiveDocumentRef) (bs : List ArchiveDocumentRef)
      → P a
      → All P bs
      → All P (insert_document intent a bs)
  unfolding insert_document
  insert_document-All P a [] p q = (p, tt)
  insert_document-All P a (b ∷ bs) p q = elim (Bool-cases (sorts_before intent b a)) [
    | inl e ↦ rw e (q.0, insert_document-All P a bs p q.1)
    | inr e ↦ rw e (p, q)
  ]

  pub sort_documents-All {ℓ} :
      (P : ArchiveDocumentRef → Type ℓ) (ds : List ArchiveDocumentRef)
      → All P ds
      → All P (sort_documents intent ds)
  unfolding sort_documents
  sort_documents-All P [] a = tt
  sort_documents-All P (d ∷ ds) a =
      insert_document-All P d (sort_documents intent ds) a.0 (sort_documents-All P ds a.1)

  insert_document-Sorted :
      (a : ArchiveDocumentRef) (bs : List ArchiveDocumentRef)
      → Sorted intent bs
      → Sorted intent (insert_document intent a bs)
  unfolding insert_document sorts_before
  insert_document-Sorted a [] s = (tt, tt)
  insert_document-Sorted a (b ∷ bs) s = elim (Bool-cases (sorts_before intent b a)) [
    | inl e ↦ rw e (
      insert_document-All (λ d. DateOrder intent b.issued_date d.issued_date) a bs
          (keys_before-DateOrder intent b.issued_date a.issued_date _ e) s.0,
      insert_document-Sorted a bs s.1,
    )
    | inr e ↦
        let ab = not_keys_before-DateOrder intent b.issued_date a.issued_date _ e in
        rw e (
          (
            ab,
            All-map _ _ bs
                (λ d bd. DateOrder-trans intent a.issued_date b.issued_date d.issued_date ab bd)
                s.0,
          ),
          s,
        )
  ]

  pub sort_documents-Sorted :
      (ds : List ArchiveDocumentRef) → Sorted intent (sort_documents intent ds)
  unfolding sort_documents
  sort_documents-Sorted [] = tt
  sort_documents-Sorted (d ∷ ds) =
      insert_document-Sorted d (sort_documents intent ds) (sort_documents-Sorted ds)
