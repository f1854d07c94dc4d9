-- ===== src/Rag/ArchiveService/Grouping.antt =====
-- archive_service.py: the grouping of citations by their document, and the relations that an answer
-- may show.
use mama_gift.Base.{
  Bool, List, Option, Result, String, Text, [], contains, err, false, if◌then◌else◌, list_eq, map,
  nat_eq, none, not, ok, option_eq, some, string_eq, true, ℕ, ◌&&◌, ◌++◌, ◌==◌, ◌||◌, ◌∷◌,
}
use mama_gift.Rag.Validation.{Citation}
use mama_gift.Retrieval.ArchiveEvidence.{group_evidence_by_document}
use mama_gift.Retrieval.ArchiveRetriever.{ArchiveDocumentRef}
use mama_gift.Retrieval.Chunking.Legal.{later_or}
use mama_gift.Retrieval.Errors.{RetrievalError}
use mama_gift.Retrieval.Evidence.{Evidence, EvidenceSet}

pub record ArchiveDocumentGroup : Type 0 where
  pub document_id : String
  pub document_number : Option String
  pub title : Option String
  pub document_type : Option String
  pub issuer : Option String
  pub issued_date : Option ℕ
  pub document_version : ℕ
  pub parse_run_id : String
  pub citation_ids : List Text

pub record ArchiveRelationRef : Type 0 where
  pub relation_type : String
  pub review_state : String
  pub source_document_id : String
  pub target_document_id : Option String
  pub target_document_number : Option String
  pub citation_ids : List Text

-- the entry of a key in `by_document`; without one, no identifiers
unfoldable pub ids_at : String → List (String × List Text) → List Text
ids_at key [] = []
ids_at key ((k, ids) ∷ rest) = if key == k then ids else ids_at key rest

-- by_document.setdefault(document_id, []).append(citation_id)
unfoldable pub add_citation : String → Text → List (String × List Text) → List (String × List Text)
add_citation key id [] = (key, id ∷ []) ∷ []
add_citation key id ((k, ids) ∷ rest) =
    let others = add_citation key id rest in
    if key == k then (k, ids ++ (id ∷ [])) ∷ rest else (k, ids) ∷ others

-- what by_document.pop(key, None) leaves
unfoldable pub without_key : String → List (String × List Text) → List (String × List Text)
without_key key [] = []
without_key key ((k, ids) ∷ rest) =
    let others = without_key key rest in if key == k then others else (k, ids) ∷ others

-- the loop over the citations; `none` is the ValueError
unfoldable pub group_citations :
    List Text → List Citation → List (String × List Text) → Option (List (String × List Text))
unfolding add_citation
group_citations cited_ids [] by_document = some by_document
group_citations cited_ids (c ∷ cs) by_document =
    let rest =
      group_citations cited_ids cs (add_citation c.document_id c.citation_id by_document) in
    if contains c.citation_id cited_ids then rest else none

-- meta.get(document_id)
unfoldable pub find_document : String → List ArchiveDocumentRef → Option ArchiveDocumentRef
unfolding later_or
find_document id [] = none
find_document id (d ∷ ds) =
    later_or (find_document id ds) (if d.document_id == id then some d else none)

unfoldable pub group_for : ArchiveDocumentRef → List Text → ArchiveDocumentGroup
group_for document citation_ids = record {
  document_id = document.document_id;
  document_number = document.document_number;
  title = document.title;
  document_type = document.document_type;
  issuer = document.issuer;
  issued_date = document.issued_date;
  document_version = document.document_version;
  parse_run_id = document.parse_run_id;
  citation_ids = citation_ids;
}

-- the body of the loop over the documents of the evidence, in front of the later groups
unfoldable pub add_group :
    List Text
    → Option ArchiveDocumentRef
    → Option (List ArchiveDocumentGroup)
    → Option (List ArchiveDocumentGroup)
unfolding group_for
add_group [] found later = later
add_group (id ∷ ids) none later = none
add_group (id ∷ ids) (some document) none = none
add_group (id ∷ ids) (some document) (some groups) = some (group_for document (id ∷ ids) ∷ groups)

-- the loop, and the test that nothing is left over
unfoldable pub gather_groups :
    List ArchiveDocumentRef
    → List String
    → List (String × List Text)
    → Option (List ArchiveDocumentGroup)
unfolding add_group ids_at find_document without_key
gather_groups documents [] [] = some []
gather_groups documents [] (entry ∷ rest) = none
gather_groups documents (key ∷ order) by_document =
    add_group (ids_at key by_document) (find_document key documents)
      (gather_groups documents order (without_key key by_document))

-- `none` is a ValueError, also of the two groupings that it is built on
unfoldable pub groups_in_order :
    List ArchiveDocumentRef
    → Result RetrievalError (List (String × List Evidence))
    → Option (List (String × List Text))
    → Option (List ArchiveDocumentGroup)
unfolding gather_groups
groups_in_order documents (err e) by_document = none
groups_in_order documents (ok grouped) none = none
groups_in_order documents (ok grouped) (some by_document) =
    gather_groups documents (map (λ g. g.0) grouped) by_document

unfoldable pub build_groups :
    List Citation → EvidenceSet → List ArchiveDocumentRef → Option (List ArchiveDocumentGroup)
unfolding groups_in_order group_evidence_by_document group_citations
build_groups citations evidence documents =
    groups_in_order documents (group_evidence_by_document evidence)
      (group_citations (map (λ e. e.citation_id) evidence.evidence) citations [])

-- set(xs) <= set(ys)
unfoldable pub is_subset : List Text → List Text → Bool
is_subset [] ys = true
is_subset (x ∷ xs) ys = contains x ys && is_subset xs ys

unfoldable pub touches_any : ArchiveRelationRef → List String → Bool
touches_any relation documents =
    contains relation.source_document_id documents
    || (elim relation.target_document_id [ none ↦ false | some t ↦ contains t documents ])

unfoldable pub is_kept : List Text → List String → ArchiveRelationRef → Bool
unfolding is_subset touches_any
is_kept citation_ids cited_documents relation =
    not (relation.citation_ids == [])
    && (is_subset relation.citation_ids citation_ids && touches_any relation cited_documents)

unfoldable pub keep_relations :
    List Text → List String → List ArchiveRelationRef → List ArchiveRelationRef
unfolding is_kept
keep_relations citation_ids cited_documents [] = []
keep_relations citation_ids cited_documents (r ∷ rs) =
    let rest = keep_relations citation_ids cited_documents rs in
    if is_kept citation_ids cited_documents r then r ∷ rest else rest

-- no relations (`None`) are the empty list
unfoldable pub filter_relations :
    List ArchiveRelationRef → List Citation → List ArchiveDocumentGroup → List ArchiveRelationRef
unfolding keep_relations
filter_relations relations citations groups =
    keep_relations (map (λ c. c.citation_id) citations) (map (λ g. g.document_id) groups) relations
