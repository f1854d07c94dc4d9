-- ===== src/Rag/Validation/Refusals.antt =====
-- Answers that cite what the request did not find.
use mama_gift.Base.{
  In, List, Option, Result-cases, Text, [], arith, at_head, contains, err, false, in_tail, inl, inr,
  list_eq, nat_eq, none, option_eq, refl, some, string_eq, ◌∷◌, ◌≡◌,
}
use mama_gift.Rag.Validation.{
  CitationError, ModelRef, QaAnswer, RawAnswer, RawCitation, answer_of, checked_citation, failed,
  failed_answer, failed_validation_message, find_item, parse_and_validate_answer, unknown_citation,
  validate_citations,
}
use mama_gift.Retrieval.Evidence.{Evidence, EvidenceSet}
use mama_gift.Retrieval.Evidence.Slices.{citation_ids}

find_item-none :
    (id : Text) (es : List Evidence)
    → contains id (citation_ids es) ≡ false
    → find_item id es ≡ none
unfolding find_item
find_item-none id [] h = refl
find_item-none id (e ∷ es) h = rw (find_item-none id es (ground arith)) (ground arith)

checked_citation-none :
    (evidence : EvidenceSet) (raw : RawCitation) (o : Option Evidence)
    → o ≡ none
    → (x : CitationError) × (checked_citation evidence raw o ≡ err x)
unfolding checked_citation
checked_citation-none evidence raw none h = (unknown_citation raw.citation_id, refl)
checked_citation-none evidence raw (some item) h = absurd (ground arith)

validate_citations-unknown :
    (evidence : EvidenceSet) (raw : RawCitation) {raws : List RawCitation}
    → In raw raws
    → find_item raw.citation_id evidence.evidence ≡ none
    → (x : CitationError) × (validate_citations evidence raws ≡ err x)
unfolding validate_citations
validate_citations-unknown evidence raw (at_head xs) n =
    let (x, e) = checked_citation-none evidence raw _ n in (x, rw e refl)
validate_citations-unknown evidence raw (in_tail y {xs} i) n =
    elim (Result-cases (checked_citation evidence y (find_item y.citation_id evidence.evidence))) [
      | inl (c, e) ↦ let (x, f) = validate_citations-unknown evidence raw i n in (x, rw (e, f) refl)
      | inr (x, e) ↦ (x, rw e refl)
    ]

abbrev pub Refused : QaAnswer → Type 0
Refused r = (r.status ≡ failed) × (r.answer ≡ failed_validation_message) × (r.citations ≡ [])

-- An answer that cites one identifier outside the evidence is refused as a whole: the failed message,
-- with no citation.
pub unknown_citation-Refused :
    (raw : RawAnswer) (c : RawCitation) (evidence : EvidenceSet) (model : ModelRef)
    → In c raw.citations
    → contains c.citation_id (citation_ids evidence.evidence) ≡ false
    → Refused (parse_and_validate_answer (some raw) evidence model)
unfolding parse_and_validate_answer answer_of failed_answer
unknown_citation-Refused raw c evidence model i n =
    let (x, e) =
      validate_citations-unknown evidence c i (find_item-none c.citation_id evidence.evidence n) in
    rw e (refl, refl, refl)
