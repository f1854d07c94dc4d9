-- ===== src/Rag/ArchiveService/Groups/Maps.antt =====
-- The map from a document to its citations, as it is filled and emptied.
use mama_gift.Base.{
  Bool, Bool-cases, List, Option, String, Text, [], ap, append_assoc, append_nil, arith, beq_sym,
  contains, eq_iff, false, if◌then◌else◌, inl, inr, list_eq, nat_eq, none, option_eq, refl, some,
  some-injective, string_eq, sym, true, ◌++◌, ◌==◌, ◌∙◌, ◌∷◌, ◌≡◌,
}
use mama_gift.Rag.ArchiveService.Grouping.{
  add_citation, find_document, group_citations, ids_at, without_key,
}
use mama_gift.Rag.ArchiveService.Groups.{cited_in}
use mama_gift.Rag.Validation.{Citation}
use mama_gift.Retrieval.ArchiveRetriever.{ArchiveDocumentRef, allowed_ids}
use mama_gift.Retrieval.Chunking.Legal.Paths.{later_or-cases}

-- one citation more
one : String → String → Text → List Text
one key doc id = if key == doc then id ∷ [] else []

one_here : (key doc : String) (id : Text) → (key == doc) ≡ true → one key doc id ≡ id ∷ []
unfolding one
one_here key doc id e = rw e refl

one_elsewhere : (key doc : String) (id : Text) → (key == doc) ≡ false → one key doc id ≡ []
unfolding one
one_elsewhere key doc id e = rw e refl

ids_at-add_citation :
    (key doc : String) (id : Text) (m : List (String × List Text))
    → ids_at key (add_citation doc id m) ≡ ids_at key m ++ one key doc id
unfolding ids_at add_citation one
ids_at-add_citation key doc id [] = ground arith
ids_at-add_citation key doc id ((k, ids) ∷ rest) = elim (Bool-cases (doc == k)) [
  | inl e ↦ elim (Bool-cases (key == k)) [
    | inl f ↦
        rw (e, f)
          (ap (λ t. ids ++ t)
            (sym
              (one_here key doc id (ground (arith, eq_iff doc k, eq_iff key k, eq_iff key doc)))))
    | inr f ↦
        rw (e, f)
          (sym (
            ap (λ t. ids_at key rest ++ t)
              (one_elsewhere key doc id
                (ground (arith, eq_iff doc k, eq_iff key k, eq_iff key doc)))
            ∙ append_nil (ids_at key rest)))
  ]
  | inr e ↦ elim (Bool-cases (key == k)) [
    | inl f ↦
        rw (e, f)
          (sym (
            ap (λ t. ids ++ t)
              (one_elsewhere key doc id
                (ground (arith, eq_iff doc k, eq_iff key k, eq_iff key doc)))
            ∙ append_nil ids))
    | inr f ↦ rw (e, f) (ids_at-add_citation key doc id rest)
  ]
]

cited_in-cons :
    (key : String) (c : Citation) (cs : List Citation)
    → cited_in key (c ∷ cs) ≡ one key c.document_id c.citation_id ++ cited_in key cs
unfolding cited_in one
cited_in-cons key c cs = ground arith

pub group_citations_lem :
    (cited_ids : List Text) (cs : List Citation) (m : List (String × List Text))
    {out : List (String × List Text)} (key : String)
    → group_citations cited_ids cs m ≡ some out
    → ids_at key out ≡ ids_at key m ++ cited_in key cs
unfolding group_citations cited_in
group_citations_lem cited_ids [] m key h =
    ap (ids_at key) (sym (some-injective h)) ∙ sym (append_nil (ids_at key m))
group_citations_lem cited_ids (c ∷ cs) m {out} key h =
    elim (Bool-cases (contains c.citation_id cited_ids)) [
      | inl e ↦
          group_citations_lem cited_ids cs (add_citation c.document_id c.citation_id m) {out = out}
            key (ground arith)
          ∙ ap (λ t. t ++ cited_in key cs) (ids_at-add_citation key c.document_id c.citation_id m)
          ∙ append_assoc (ids_at key m) (one key c.document_id c.citation_id) (cited_in key cs)
          ∙ ap (λ t. ids_at key m ++ t) (sym (cited_in-cons key c cs))
      | inr e ↦ absurd (ground arith)
    ]

pub ids_at-without_key :
    (key other : String) (m : List (String × List Text))
    → ids_at key (without_key other m) ≡ (if key == other then [] else ids_at key m)
unfolding ids_at without_key
ids_at-without_key key other [] = ground arith
ids_at-without_key key other ((k, ids) ∷ rest) =
    ground
      (arith, eq_iff key k, eq_iff other k, eq_iff key other, ids_at-without_key key other rest)

if_some :
    (b : Bool) (x : ArchiveDocumentRef) {d : ArchiveDocumentRef}
    → ◌≡◌ {A = Option ArchiveDocumentRef} (if b then some x else none) (some d)
    → (b ≡ true) × (x ≡ d)
if_some true x h = (refl, cc)
if_some false x h = absurd (ground arith)

pub find_document-id :
    (id : String) (ds : List ArchiveDocumentRef) {d : ArchiveDocumentRef}
    → find_document id ds ≡ some d
    → (d.document_id ≡ id) × (contains id (allowed_ids ds) ≡ true)
unfolding find_document
find_document-id id [] h = absurd (ground arith)
find_document-id id (x ∷ xs) {d} h = elim (later_or-cases (find_document id xs) _ h) [
  | inl later ↦ let (same, known) = find_document-id id xs {d = d} later in (same, ground arith)
  | inr this ↦
      let (same, found) = if_some (x.document_id == id) x {d = d} this in
      (
        ap (λ r. r.document_id) (sym found) ∙ (eq_iff x.document_id id).0 same,
        ground (arith, beq_sym x.document_id id),
      )
]
