-- ===== src/Retrieval/ArchiveEvidence/Groups.antt =====
-- The grouping of evidence by document.
use mama_gift.Base.{
  >>=-eq-ok, List, String, [], ap, arith, beq_sym, contains, distinct, eq_iff, false, guard,
  if◌then◌else◌, list_eq, nat_eq, not, ok, ok-injective, option_eq, refl, string_eq, subst, sym,
  true, ◌++◌, ◌==◌, ◌||◌, ◌∙◌, ◌∷◌, ◌≡◌,
}
use mama_gift.Retrieval.ArchiveEvidence.{
  add_to_group, group_evidence_by_document, group_items, is_blank,
}
use mama_gift.Retrieval.Evidence.{Evidence, EvidenceSet}

-- the items of one document, in order
abbrev pub items_of : String → List Evidence → List Evidence
items_of doc_id [] = []
items_of doc_id (e ∷ es) =
    let rest = items_of doc_id es in if doc_id == e.document_id then e ∷ rest else rest

-- the items that a dictionary of groups holds for a document
abbrev pub group_of : String → List (String × List Evidence) → List Evidence
group_of doc_id [] = []
group_of doc_id ((key, items) ∷ groups) = if doc_id == key then items else group_of doc_id groups

abbrev pub keys : List (String × List Evidence) → List String
keys [] = []
keys ((key, items) ∷ groups) = key ∷ keys groups

-- no document has an item more that the groups do not know
abbrev Keyed : List (String × List Evidence) → Type 0
Keyed groups =
    (doc_id : String) → contains doc_id (keys groups) ≡ false → group_of doc_id groups ≡ []

append_nil {ℓ} : {A : Type ℓ} (xs : List A) → xs ++ [] ≡ xs
append_nil [] = refl
append_nil (x ∷ xs) = ap (λ t. x ∷ t) (append_nil xs)

append_assoc {ℓ} : {A : Type ℓ} (xs ys zs : List A) → (xs ++ ys) ++ zs ≡ xs ++ (ys ++ zs)
append_assoc [] ys zs = refl
append_assoc (x ∷ xs) ys zs = ap (λ t. x ∷ t) (append_assoc xs ys zs)

group_of-add :
    (doc_id : String) (item : Evidence) (groups : List (String × List Evidence))
    → group_of doc_id (add_to_group item groups) ≡ (
        if doc_id == item.document_id
        then group_of doc_id groups ++ (item ∷ [])
        else group_of doc_id groups)
unfolding add_to_group
group_of-add doc_id item [] = ground arith
group_of-add doc_id item ((key, items) ∷ groups) = ground (
  arith,
  eq_iff doc_id key,
  eq_iff doc_id item.document_id,
  eq_iff item.document_id key,
  group_of-add doc_id item groups,
)

contains-keys-add :
    (doc_id : String) (item : Evidence) (groups : List (String × List Evidence))
    → contains doc_id (keys (add_to_group item groups))
      ≡ (contains doc_id (keys groups) || doc_id == item.document_id)
unfolding add_to_group
contains-keys-add doc_id item [] = ground arith
contains-keys-add doc_id item ((key, items) ∷ groups) = ground (
  arith,
  eq_iff doc_id key,
  eq_iff doc_id item.document_id,
  eq_iff item.document_id key,
  contains-keys-add doc_id item groups,
)

distinct-keys-add :
    (item : Evidence) (groups : List (String × List Evidence))
    → distinct (keys groups) ≡ true
    → distinct (keys (add_to_group item groups)) ≡ true
unfolding add_to_group
distinct-keys-add item [] d = refl
distinct-keys-add item ((key, items) ∷ groups) d = ground (
  arith,
  beq_sym item.document_id key,
  contains-keys-add key item groups,
  distinct-keys-add item groups,
)

-- the item is the last of its group before the rest comes, or the first of the rest
regroup :
    (doc_id : String) (i : Evidence) (is : List Evidence) (grouped : List (String × List Evidence))
    → group_of doc_id (add_to_group i grouped) ++ items_of doc_id is
      ≡ group_of doc_id grouped ++ items_of doc_id (i ∷ is)
regroup doc_id i is grouped = ground (
  arith,
  group_of-add doc_id i grouped,
  append_assoc (group_of doc_id grouped) (i ∷ []) (items_of doc_id is),
)

group_items_lem :
    (items : List Evidence) (grouped : List (String × List Evidence))
    {result : List (String × List Evidence)}
    → distinct (keys grouped) ≡ true
    → group_items items grouped ≡ ok result
    → (distinct (keys result) ≡ true)
      × ((doc_id : String)
          → group_of doc_id result ≡ group_of doc_id grouped ++ items_of doc_id items)
unfolding group_items
group_items_lem [] grouped d h =
    subst
      (λ r. (distinct (keys r) ≡ true) × ((k : String) → group_of k r ≡ group_of k grouped ++ []))
      (ok-injective h) (d, λ k. sym (append_nil (group_of k grouped)))
group_items_lem (i ∷ is) grouped d h =
    let (u, g, h') = >>=-eq-ok (guard (not (is_blank i.document_id)) _) _ h in
    let (d', all) =
      group_items_lem is (add_to_group i grouped) (distinct-keys-add i grouped d) h' in
    (d', λ k. all k ∙ regroup k i is grouped)

-- A successful grouping lists each document once, and holds for every document exactly the items of
-- the evidence set with that document, in their order.
pub group_evidence_by_document_lem :
    (evidence : EvidenceSet) {grouped : List (String × List Evidence)}
    → group_evidence_by_document evidence ≡ ok grouped
    → (distinct (keys grouped) ≡ true)
      × ((doc_id : String) → group_of doc_id grouped ≡ items_of doc_id evidence.evidence)
unfolding group_evidence_by_document
group_evidence_by_document_lem evidence h = group_items_lem evidence.evidence [] refl h
