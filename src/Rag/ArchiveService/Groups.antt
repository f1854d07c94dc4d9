-- ===== src/Rag/ArchiveService/Groups.antt =====
-- The grouping of an answer's citations, and the relations that it keeps.
pub mod Maps
pub mod Sound
use mama_gift.Base.{
  All, List, String, Text, [], contains, distinct, if◌then◌else◌, list_eq, map, nat_eq, option_eq,
  refl, string_eq, true, ◌==◌, ◌∷◌, ◌≡◌,
}
use mama_gift.Rag.ArchiveService.Grouping.{ArchiveDocumentGroup}
use mama_gift.Rag.Validation.{Citation}
use mama_gift.Retrieval.ArchiveRetriever.{ArchiveDocumentRef, allowed_ids}

-- The identifiers of the citations of one document, in their order.
pub cited_in : String → List Citation → List Text
cited_in key [] = []
cited_in key (c ∷ cs) =
    let rest = cited_in key cs in if key == c.document_id then c.citation_id ∷ rest else rest

-- The identifiers in the group of one document; none without a group.
pub ids_in : String → List ArchiveDocumentGroup → List Text
ids_in key [] = []
ids_in key (g ∷ gs) =
    let rest = ids_in key gs in if key == g.document_id then g.citation_ids else rest

abbrev pub group_documents : List ArchiveDocumentGroup → List String
group_documents groups = map (λ g. g.document_id) groups

-- What the groups promise of the citations: the group of a document holds exactly the citations of
-- that document, in their order, no document has two groups, and each is one of the documents.
pub record Grouped (citations : List Citation) (documents : List ArchiveDocumentRef)
    (groups : List ArchiveDocumentGroup) : Type 0 where
  pub regrouped : (key : String) → ids_in key groups ≡ cited_in key citations
  pub once : distinct (group_documents groups) ≡ true
  pub known : All (λ g. contains g.document_id (allowed_ids documents) ≡ true) groups

pub nothing-Grouped : (documents : List ArchiveDocumentRef) → Grouped [] documents []
unfolding ids_in cited_in
nothing-Grouped documents = record { regrouped = λ key. refl; once = refl; known = tt }
