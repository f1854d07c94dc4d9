-- ===== src/Rag/ArchiveService/Relations.antt =====
-- The relations that an answer keeps.
use mama_gift.Base.{
  All, Bool-cases, In, List, String, Text, [], arith, at_head, contains, in_tail, inl, inr,
  list_beq_iff, list_eq, map, nat_eq, option_eq, string_eq, true, ◌∷◌, ◌≡◌, ◌≢◌,
}
use mama_gift.Rag.ArchiveService.Grouping.{
  ArchiveDocumentGroup, ArchiveRelationRef, filter_relations, is_kept, is_subset, keep_relations,
  touches_any,
}
use mama_gift.Rag.ArchiveService.Groups.{group_documents}
use mama_gift.Rag.Validation.{Citation}

-- A relation that an answer may show: one of those given, with citations, all of the answer, and of a
-- document that the answer cites.
pub record Related (given : List ArchiveRelationRef) (citations : List Text)
    (documents : List String) (r : ArchiveRelationRef) : Type 0 where
  pub is_given : In r given
  pub cites : r.citation_ids ≢ []
  pub supported : All (λ id. contains id citations ≡ true) r.citation_ids
  pub touches : touches_any r documents ≡ true

is_subset-All : (xs ys : List Text) → is_subset xs ys ≡ true → All (λ x. contains x ys ≡ true) xs
unfolding is_subset
is_subset-All [] ys h = tt
is_subset-All (x ∷ xs) ys h = (ground arith, is_subset-All xs ys (ground arith))

kept-Related :
    (given : List ArchiveRelationRef) (citations : List Text) (documents : List String)
    (r : ArchiveRelationRef)
    → In r given
    → is_kept citations documents r ≡ true
    → Related given citations documents r
unfolding is_kept
kept-Related given citations documents r i h = record {
  is_given = i;
  cites = λ e. ground (arith, list_beq_iff r.citation_ids []);
  supported = is_subset-All r.citation_ids citations (ground arith);
  touches = ground arith;
}

keep_relations-Related :
    (given : List ArchiveRelationRef) (citations : List Text) (documents : List String)
    (rs : List ArchiveRelationRef)
    → ((r : ArchiveRelationRef) → In r rs → In r given)
    → All (Related given citations documents) (keep_relations citations documents rs)
unfolding keep_relations
keep_relations-Related given citations documents [] f = tt
keep_relations-Related given citations documents (r ∷ rs) f =
    elim (Bool-cases (is_kept citations documents r)) [
      | inl e ↦ rw e (
        kept-Related given citations documents r (f r (at_head rs)) e,
        keep_relations-Related given citations documents rs (λ q i. f q (in_tail r i)),
      )
      | inr e ↦
          rw e (keep_relations-Related given citations documents rs (λ q i. f q (in_tail r i)))
    ]

pub filter_relations-Related :
    (relations : List ArchiveRelationRef) (citations : List Citation)
    (groups : List ArchiveDocumentGroup)
    → All
        (Related relations (map (λ c. c.citation_id) citations) (group_documents groups))
        (filter_relations relations citations groups)
unfolding filter_relations
filter_relations-Related relations citations groups =
    keep_relations-Related relations (map (λ c. c.citation_id) citations) (group_documents groups)
      relations (λ r i. i)
