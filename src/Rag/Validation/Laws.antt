-- ===== src/Rag/Validation/Laws.antt =====
-- What a validated answer can cite.
use mama_gift.Base.{
  >>=-eq-ok, All, Bool-cases, In, List, Option, Option-cases, Result, Text, [], arith, at_head,
  contains, eq_iff, err, guard, guard-eq-ok, in_tail, inl, inr, list_beq_iff, list_eq, nat_eq, none,
  ok, ok-injective, option_eq, refl, some, string_eq, subst, true, ◌==◌, ◌∷◌, ◌≡◌, ◌≢◌,
}
use mama_gift.Rag.Validation.{
  AnswerStatus, Citation, CitationError, ModelRef, QaAnswer, RawAnswer, RawCitation,
  abstention_answer, ai_worker_unavailable, all_within, answer_of, answered, checked_citation,
  complete_citation, failed, failed_answer, find_item, insufficient_evidence,
  insufficient_evidence_message, parse_and_validate_answer, quote_found, scope_for_evidence,
  settle_answer, validate_citation, validate_citations,
}
use mama_gift.Rag.Validation.Quotes.{Occurs, all_within-All, is_within-Occurs}
use mama_gift.Retrieval.Evidence.{Evidence, EvidenceSet}
use mama_gift.Retrieval.Scope.{scope_matches}
use mama_gift.Retrieval.Scope.Laws.{InScope, scope_matches-InScope}

-- `none` quotes nothing.
abbrev pub QuotesFrom : Option Text → Text → Type 0
QuotesFrom none text = Unit
QuotesFrom (some quote) text = Occurs quote text

-- A citation that the evidence of the request supports.
pub record Supported (evidence : EvidenceSet) (c : Citation) : Type 0 where
  pub item : Evidence
  pub in_evidence : In item evidence.evidence
  pub same_id : c.citation_id ≡ item.citation_id
  pub same_document : c.document_id ≡ item.document_id
  pub in_scope : InScope (scope_for_evidence item evidence.scope) evidence.scope
  pub page : contains c.page_number item.page_numbers ≡ true
  pub blocks_known : All (λ b. contains b item.source_block_ids ≡ true) c.block_ids
  pub quoted : QuotesFrom c.quote item.text

quote_found-QuotesFrom :
    (quote : Option Text) (text : Text) → quote_found quote text ≡ true → QuotesFrom quote text
unfolding quote_found
quote_found-QuotesFrom none text h = tt
quote_found-QuotesFrom (some q) text h = is_within-Occurs q text h

find_item-In :
    (id : Text) (es : List Evidence) {e : Evidence}
    → find_item id es ≡ some e
    → In e es × (id ≡ e.citation_id)
unfolding find_item
find_item-In id [] h = absurd (ground arith)
find_item-In id (x ∷ xs) {e} h = elim (Option-cases (find_item id xs)) [
  | inr (later, f) ↦ let (i, q) = find_item-In id xs {e = e} (ground arith) in (in_tail x i, q)
  | inl n ↦ elim (Bool-cases (id == x.citation_id)) [
    | inl y ↦
        subst (λ z. In z (x ∷ xs) × (id ≡ z.citation_id)) (ground arith)
          (at_head xs, (list_beq_iff id x.citation_id).0 y)
    | inr y ↦ absurd (ground arith)
  ]
]

validate_citation-Supported :
    (c : Citation) (item : Evidence) (evidence : EvidenceSet)
    → In item evidence.evidence
    → c.citation_id ≡ item.citation_id
    → validate_citation c item evidence ≡ ok tt
    → Supported evidence c
unfolding validate_citation
validate_citation-Supported c item evidence i e h =
    let (u1, g1, h1) = >>=-eq-ok (guard (c.document_id == item.document_id) _) _ h in
    let (u2, g2, h2) =
      >>=-eq-ok (guard (scope_matches (scope_for_evidence item evidence.scope) evidence.scope) _) _
        h1 in
    let (u3, g3, h3) = >>=-eq-ok (guard (contains c.page_number item.page_numbers) _) _ h2 in
    let (u4, g4, h4) = >>=-eq-ok (guard (all_within c.block_ids item.source_block_ids) _) _ h3 in
    record {
      item = item;
      in_evidence = i;
      same_id = e;
      same_document = (eq_iff _ _).0 (guard-eq-ok _ _ g1);
      in_scope = (scope_matches-InScope _ _).0 (guard-eq-ok _ _ g2);
      page = guard-eq-ok _ _ g3;
      blocks_known = all_within-All c.block_ids item.source_block_ids (guard-eq-ok _ _ g4);
      quoted = quote_found-QuotesFrom c.quote item.text (guard-eq-ok _ _ h4);
    }

checked_citation-Supported :
    (evidence : EvidenceSet) (raw : RawCitation) (o : Option Evidence) {c : Citation}
    → find_item raw.citation_id evidence.evidence ≡ o
    → checked_citation evidence raw o ≡ ok c
    → Supported evidence c
unfolding checked_citation complete_citation
checked_citation-Supported evidence raw none f h = absurd (ground arith)
checked_citation-Supported evidence raw (some item) f h =
    let (u, v, e) = >>=-eq-ok (validate_citation (complete_citation raw item) item evidence) _ h in
    let (i, same) = find_item-In raw.citation_id evidence.evidence f in
    subst (Supported evidence) (ok-injective e)
      (validate_citation-Supported (complete_citation raw item) item evidence i same v)

validate_citations-Supported :
    (evidence : EvidenceSet) (raws : List RawCitation) {cs : List Citation}
    → validate_citations evidence raws ≡ ok cs
    → All (Supported evidence) cs
unfolding validate_citations
validate_citations-Supported evidence [] h = subst (All (Supported evidence)) (ok-injective h) tt
validate_citations-Supported evidence (raw ∷ raws) h =
    let (c, v, h1) =
      >>=-eq-ok (checked_citation evidence raw (find_item raw.citation_id evidence.evidence)) _ h in
    let (cs, vs, e) = >>=-eq-ok (validate_citations evidence raws) _ h1 in
    subst (All (Supported evidence)) (ok-injective e) (
      checked_citation-Supported evidence raw _ refl v,
      validate_citations-Supported evidence raws vs,
    )

-- What every answer promises, however the model's text was read.
pub record Validated (evidence : EvidenceSet) (model : ModelRef) (r : QaAnswer) : Type 0 where
  pub supported : All (Supported evidence) r.citations
  pub answered_cites : r.status ≡ answered → r.citations ≢ []
  pub abstains :
      r.status ≡ insufficient_evidence
      → (r.citations ≡ []) × (r.answer ≡ insufficient_evidence_message)
  pub same_query : r.query_id ≡ evidence.query_id
  pub same_model : r.model ≡ model

failed_answer-Validated :
    (evidence : EvidenceSet) (model : ModelRef)
    → Validated evidence model (failed_answer evidence model)
unfolding failed_answer
failed_answer-Validated evidence model = record {
  supported = tt;
  answered_cites = λ h. ground arith;
  abstains = λ h. ground arith;
  same_query = refl;
  same_model = refl;
}

settle_answer-Validated :
    (evidence : EvidenceSet) (model : ModelRef) (raw : RawAnswer) (status : AnswerStatus)
    (cs : List Citation)
    → raw.status ≡ status
    → All (Supported evidence) cs
    → Validated evidence model (settle_answer evidence model raw status cs)
unfolding settle_answer abstention_answer
settle_answer-Validated evidence model raw insufficient_evidence cs e a = record {
  supported = tt;
  answered_cites = λ h. ground arith;
  abstains = λ h. (refl, refl);
  same_query = refl;
  same_model = refl;
}
settle_answer-Validated evidence model raw answered [] e a = record {
  supported = tt;
  answered_cites = λ h. ground arith;
  abstains = λ h. (refl, refl);
  same_query = refl;
  same_model = refl;
}
settle_answer-Validated evidence model raw answered (c ∷ cs) e a = record {
  supported = a;
  answered_cites = λ h k. ground arith;
  abstains = λ h. ground arith;
  same_query = refl;
  same_model = refl;
}
settle_answer-Validated evidence model raw ai_worker_unavailable cs e a = record {
  supported = a;
  answered_cites = λ h. ground arith;
  abstains = λ h. ground arith;
  same_query = refl;
  same_model = refl;
}
settle_answer-Validated evidence model raw failed cs e a = record {
  supported = a;
  answered_cites = λ h. ground arith;
  abstains = λ h. ground arith;
  same_query = refl;
  same_model = refl;
}

answer_of-Validated :
    (evidence : EvidenceSet) (model : ModelRef) (raw : RawAnswer)
    (r : Result CitationError (List Citation))
    → validate_citations evidence raw.citations ≡ r
    → Validated evidence model (answer_of evidence model raw r)
unfolding answer_of
answer_of-Validated evidence model raw (err x) e = failed_answer-Validated evidence model
answer_of-Validated evidence model raw (ok cs) e =
    settle_answer-Validated evidence model raw raw.status cs refl
      (validate_citations-Supported evidence raw.citations e)

-- Whatever the model's text was read as, each citation of the answer is supported by an item of the
-- request's evidence: the same identifier and document, an item inside the scope of the request, a page and
-- source blocks of it, and a quote out of its text. An answer with the status answered cites
-- something, one with insufficient evidence has the fixed message and cites nothing, and every answer
-- carries the query and the model of the request.
pub parse_and_validate_answer_sound :
    (payload : Option RawAnswer) (evidence : EvidenceSet) (model : ModelRef)
    → Validated evidence model (parse_and_validate_answer payload evidence model)
unfolding parse_and_validate_answer
parse_and_validate_answer_sound none evidence model = failed_answer-Validated evidence model
parse_and_validate_answer_sound (some raw) evidence model =
    answer_of-Validated evidence model raw (validate_citations evidence raw.citations) refl
