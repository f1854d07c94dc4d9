-- ===== src/Rag/ArchiveService/Groups/Sound.antt =====
-- The groups that the service builds hold the citations.
use mama_gift.Base.{
  All, Bool-cases, List, Option, Result, String, Text, [], ap, arith, beq_refl, contains, distinct,
  eq_iff, err, false, inl, inr, list_eq, map, nat_eq, none, ok, option_eq, refl, some,
  some-injective, string_eq, subst, sym, true, ◌==◌, ◌∙◌, ◌∷◌, ◌≡◌, ◌≢◌, ◌⊎◌,
}
use mama_gift.Rag.ArchiveService.Grouping.{
  ArchiveDocumentGroup, add_group, build_groups, find_document, gather_groups, group_citations,
  group_for, groups_in_order, ids_at, without_key,
}
use mama_gift.Rag.ArchiveService.Groups.{Grouped, group_documents, ids_in}
use mama_gift.Rag.ArchiveService.Groups.Maps.{
  find_document-id, group_citations_lem, ids_at-without_key,
}
use mama_gift.Rag.Validation.{Citation}
use mama_gift.Retrieval.ArchiveEvidence.{group_evidence_by_document}
use mama_gift.Retrieval.ArchiveRetriever.{ArchiveDocumentRef, allowed_ids}
use mama_gift.Retrieval.Errors.{RetrievalError}
use mama_gift.Retrieval.Evidence.{Evidence, EvidenceSet}

-- a group that is there holds identifiers
Filled : List ArchiveDocumentGroup → Type 0
Filled groups = All (λ g. g.citation_ids ≢ []) groups

ids_in-Filled :
    (key : String) (groups : List ArchiveDocumentGroup)
    → Filled groups
    → ids_in key groups ≡ []
    → contains key (group_documents groups) ≡ false
unfolding ids_in Filled
ids_in-Filled key [] f h = refl
ids_in-Filled key (g ∷ gs) f h = elim (Bool-cases (key == g.document_id)) [
  | inl e ↦ absurd (f.0 (ground arith))
  | inr e ↦ ground (arith, ids_in-Filled key gs f.1)
]

-- A group more, for a document that is known and has citations; or the later groups alone.
AddsGroup :
    String
    → List ArchiveDocumentRef
    → List Text
    → List ArchiveDocumentGroup
    → List ArchiveDocumentGroup
    → Type 0
AddsGroup key documents ids gs groups =
    ((ids ≡ []) × (gs ≡ groups))
    ⊎ ((g : ArchiveDocumentGroup) × (groups ≡ g ∷ gs)
        × (g.document_id ≡ key)
        × (g.citation_ids ≡ ids)
        × (ids ≢ [])
        × (contains key (allowed_ids documents) ≡ true))

add_group_lem :
    (key : String) (documents : List ArchiveDocumentRef) (ids : List Text)
    (found : Option ArchiveDocumentRef) (later : Option (List ArchiveDocumentGroup))
    {groups : List ArchiveDocumentGroup}
    → find_document key documents ≡ found
    → add_group ids found later ≡ some groups
    → (gs : List ArchiveDocumentGroup) × (later ≡ some gs) × AddsGroup key documents ids gs groups
unfolding add_group group_for AddsGroup
add_group_lem key documents [] found later {groups} e h = (groups, h, inl (refl, refl))
add_group_lem key documents (id ∷ ids) none later e h = absurd (ground arith)
add_group_lem key documents (id ∷ ids) (some d) none e h = absurd (ground arith)
add_group_lem key documents (id ∷ ids) (some d) (some gs) e h =
    let (same, known) = find_document-id key documents e in
    (
      gs,
      refl,
      inr (group_for d (id ∷ ids), sym (some-injective h), same, refl, (λ n. ground arith), known),
    )

-- What the loop promises of the map that it empties.
record Gathered (documents : List ArchiveDocumentRef) (m : List (String × List Text))
    (groups : List ArchiveDocumentGroup) : Type 0 where
  held : (key : String) → ids_in key groups ≡ ids_at key m
  filled : Filled groups
  pub once : distinct (group_documents groups) ≡ true
  pub known : All (λ g. contains g.document_id (allowed_ids documents) ≡ true) groups

gather_none :
    (documents : List ArchiveDocumentRef) (m : List (String × List Text)) (key : String)
    (gs : List ArchiveDocumentGroup)
    → ids_at key m ≡ []
    → Gathered documents (without_key key m) gs
    → Gathered documents m gs
gather_none documents m key gs e g = record {
  held = λ k. g.held k ∙ ids_at-without_key k key m ∙ elim (Bool-cases (k == key)) [
    | inl s ↦ rw s (sym e ∙ ap (λ j. ids_at j m) (sym ((eq_iff k key).0 s)))
    | inr s ↦ rw s refl
  ];
  filled = g.filled;
  once = g.once;
  known = g.known;
}

gather_some :
    (documents : List ArchiveDocumentRef) (m : List (String × List Text)) (g : ArchiveDocumentGroup)
    (gs : List ArchiveDocumentGroup)
    → g.citation_ids ≡ ids_at g.document_id m
    → ids_at g.document_id m ≢ []
    → contains g.document_id (allowed_ids documents) ≡ true
    → Gathered documents (without_key g.document_id m) gs
    → Gathered documents m (g ∷ gs)
unfolding ids_in Filled
gather_some documents m g gs e n k r = record {
  held = λ key. elim (Bool-cases (key == g.document_id)) [
    | inl s ↦ rw s (e ∙ ap (λ j. ids_at j m) (sym ((eq_iff key g.document_id).0 s)))
    | inr s ↦ rw s (r.held key ∙ ids_at-without_key key g.document_id m ∙ rw s refl)
  ];
  filled = ((λ h. n (sym e ∙ h)), r.filled);
  once = ground (
    arith,
    r.once,
    ids_in-Filled g.document_id gs r.filled (
        r.held g.document_id
        ∙ ids_at-without_key g.document_id g.document_id m
        ∙ rw (beq_refl g.document_id) refl),
  );
  known = (k, r.known);
}

extend :
    (documents : List ArchiveDocumentRef) (m : List (String × List Text)) (key : String)
    (gs groups : List ArchiveDocumentGroup)
    → AddsGroup key documents (ids_at key m) gs groups
    → Gathered documents (without_key key m) gs
    → Gathered documents m groups
unfolding AddsGroup
extend documents m key gs groups (inl (e, s)) g =
    subst (Gathered documents m) s (gather_none documents m key gs e g)
extend documents m key gs groups (inr (g, s, same, ids, n, known)) r =
    subst (Gathered documents m) (sym s) (
      gather_some documents m g gs (ids ∙ ap (λ j. ids_at j m) (sym same))
        (λ e. n (ap (λ j. ids_at j m) (sym same) ∙ e))
        (ap (λ j. contains j (allowed_ids documents)) same ∙ known)
        (subst (λ j. Gathered documents (without_key j m) gs) (sym same) r))

gather_groups_lem :
    (documents : List ArchiveDocumentRef) (order : List String) (m : List (String × List Text))
    {groups : List ArchiveDocumentGroup}
    → gather_groups documents order m ≡ some groups
    → Gathered documents m groups
unfolding gather_groups ids_at ids_in Filled
gather_groups_lem documents [] [] h =
    subst (Gathered documents []) (some-injective h)
      (record { held = λ k. refl; filled = tt; once = refl; known = tt })
gather_groups_lem documents [] (entry ∷ rest) h = absurd (ground arith)
gather_groups_lem documents (key ∷ order) m {groups} h =
    let (gs, later, added) =
      add_group_lem key documents (ids_at key m) (find_document key documents)
        (gather_groups documents order (without_key key m)) {groups = groups} refl h in
    let ih = gather_groups_lem documents order (without_key key m) later in
    extend documents m key gs groups added ih

groups_in_order-Grouped :
    (citations : List Citation) (documents : List ArchiveDocumentRef) (cited_ids : List Text)
    (order : Result RetrievalError (List (String × List Evidence)))
    (m : Option (List (String × List Text))) {groups : List ArchiveDocumentGroup}
    → group_citations cited_ids citations [] ≡ m
    → groups_in_order documents order m ≡ some groups
    → Grouped citations documents groups
unfolding groups_in_order ids_at
groups_in_order-Grouped citations documents cited_ids (err e) m g h = absurd (ground arith)
groups_in_order-Grouped citations documents cited_ids (ok grouped) none g h = absurd (ground arith)
groups_in_order-Grouped citations documents cited_ids (ok grouped) (some by_document) g h =
    let r = gather_groups_lem documents (map (λ e. e.0) grouped) by_document h in
    record {
      regrouped = λ key. r.held key ∙ group_citations_lem cited_ids citations [] key g;
      once = r.once;
      known = r.known;
    }

-- Where the citations of an answer are grouped, the group of a document holds exactly the citations
-- of that document, in their order, so that every citation is in one group and no group holds another;
-- no document has two groups, and each group is of one of the documents given.
pub build_groups-Grouped :
    (citations : List Citation) (evidence : EvidenceSet) (documents : List ArchiveDocumentRef)
    (groups : List ArchiveDocumentGroup)
    → build_groups citations evidence documents ≡ some groups
    → Grouped citations documents groups
unfolding build_groups
build_groups-Grouped citations evidence documents groups h =
    groups_in_order-Grouped citations documents (map (λ e. e.citation_id) evidence.evidence)
      (group_evidence_by_document evidence) _ refl h
