-- ===== src/Retrieval/ArchiveEvidence/Laws.antt =====
-- What `assemble_archive_evidence` accepts, and what the evidence set that it returns holds.
use mama_gift.Base.{
  >>=-eq-ok, All, List, Option, String, Text, [], ap, arith, distinct, guard, guard-eq-ok, length,
  length-take, list_eq, lookup, map, nat_eq, not, ok, ok-injective, option_eq, refl, string_eq,
  subst, sym, take, true, ℕ, ◌+◌, ◌<◌, ◌==◌, ◌∙◌, ◌∷◌, ◌≡◌, ◌≤◌,
}
use mama_gift.Retrieval.ArchiveEvidence.{
  assemble_archive_evidence, count_of, is_allowed_document, render_evidence_text, surviving,
  validate_archive_candidates,
}
use mama_gift.Retrieval.ArchiveEvidence.Admission.{
  AtMost, Sublist, chars_of, new_documents, surviving-Sublist, surviving_chars, surviving_documents,
}
use mama_gift.Retrieval.ArchiveScope.{
  IsArchive, validate_archive_scope, validate_archive_scope-IsArchive,
}
use mama_gift.Retrieval.Budget.{
  BudgetBreakdown, EvidenceBudget, Offer, assemble_bounded_context, budget_categories, offer,
  total_chars, total_used_chars, unknown_keys,
}
use mama_gift.Retrieval.Budget.Laws.{
  IsText, assemble_bounded_context_bounded, assemble_bounded_context_total,
}
use mama_gift.Retrieval.Chunk.{Chunk, ScoredChunk}
use mama_gift.Retrieval.Evidence.{
  Evidence, EvidenceSet, bounded_text, checked_version, join, split_evidence, validate_candidates,
}
use mama_gift.Retrieval.Evidence.Laws.{
  Acceptable, HasVersion, Versioned, Versioned-HasVersion, chunks_of, validate_candidates_sound,
}
use mama_gift.Retrieval.Evidence.Slices.{
  CitesAll, citation_ids, citation_ids-distinct, evidence_texts, join-split_evidence, offered_texts,
  split_evidence-CitesAll,
}
use mama_gift.Retrieval.Scope.{EvidenceScope}

abbrev Allowed : Option (List String) → Chunk → Type 0
Allowed allowed c = is_allowed_document allowed c.document_id ≡ true

abbrev archive_offer : Text → List (String × Offer)
archive_offer t = ("archive_semantic", offer t) ∷ []

archive_offer-IsText : (t : Text) → All (λ c. IsText (lookup c (archive_offer t))) budget_categories
archive_offer-IsText t = ground arith

archive_offer_known : (t : Text) → unknown_keys (archive_offer t) ≡ []
unfolding unknown_keys
archive_offer_known t = refl

bounded_archive :
    (b : EvidenceBudget) (t : Text) {bounded : List (String × Text)} {breakdown : BudgetBreakdown}
    → assemble_bounded_context b (archive_offer t) ≡ ok (bounded, breakdown)
    → bounded_text "archive_semantic" bounded ≡ take b.archive_semantic_chars t
unfolding bounded_text
bounded_archive b t h = ground (arith, (assemble_bounded_context_bounded b (archive_offer t) h).1)

-- The one category that the assembler offers, cut to its budget.
assemble_archive_category :
    (b : EvidenceBudget) (t : Text)
    → (r : List (String × Text) × BudgetBreakdown) × (assemble_bounded_context b (archive_offer t)
        ≡ ok r)
      × (bounded_text "archive_semantic" r.0 ≡ take b.archive_semantic_chars t)
      × (total_used_chars r.1 ≤ total_chars b)
assemble_archive_category b t =
    let run =
      assemble_bounded_context_total b (archive_offer t) (archive_offer_known t)
        (archive_offer-IsText t) in
    (_, run, bounded_archive b t run, (assemble_bounded_context_bounded b (archive_offer t) run).2)

-- The evidence that the archive assembler promises: the chunks that the caps let through, cited in
-- order, their rendered texts cut to the budget.
pub record ArchiveGrounded (budget : EvidenceBudget) (max_documents char_cap : ℕ)
    (vs survivors : List (Chunk × ℕ)) (es : List Evidence) (breakdown : BudgetBreakdown)
    : Type 0 where
  pub chosen : Sublist survivors vs
  pub few_documents : new_documents [] survivors ≤ max_documents
  pub fair :
      (m : ℕ) (doc_id : String) → All (AtMost m) vs → chars_of doc_id survivors < char_cap + m
  pub cited : CitesAll 1 survivors es
  pub distinct_ids : distinct (citation_ids es) ≡ true
  pub texts :
      join (evidence_texts es)
      ≡ take budget.archive_semantic_chars (join (offered_texts render_evidence_text survivors))
  pub within_budget : total_used_chars breakdown ≤ total_chars budget

split-ArchiveGrounded :
    (budget : EvidenceBudget) (max_documents char_cap : ℕ) (vs : List (Chunk × ℕ)) (bounded : Text)
    (breakdown : BudgetBreakdown)
    → 1 ≤ char_cap
    → bounded
      ≡ take budget.archive_semantic_chars
          (join (offered_texts render_evidence_text (surviving max_documents char_cap [] [] vs)))
    → total_used_chars breakdown ≤ total_chars budget
    → ArchiveGrounded budget max_documents char_cap vs
        (surviving max_documents char_cap [] [] vs)
        (split_evidence render_evidence_text bounded 0 1
          (surviving max_documents char_cap [] [] vs))
        breakdown
unfolding count_of
split-ArchiveGrounded budget max_documents char_cap vs bounded breakdown positive trimmed within =
    let survivors = surviving max_documents char_cap [] [] vs in
    let offered = join (offered_texts render_evidence_text survivors) in
    let cites = split_evidence-CitesAll render_evidence_text bounded 0 1 survivors in
    record {
      chosen = surviving-Sublist max_documents char_cap [] [] vs;
      few_documents = ground (arith, surviving_documents max_documents char_cap [] [] vs);
      fair = λ m doc_id a.
          ground (arith, surviving_chars max_documents char_cap m [] [] vs doc_id a, positive);
      cited = cites;
      distinct_ids = citation_ids-distinct 1 survivors _ cites;
      texts =
          join-split_evidence render_evidence_text bounded 0 1 survivors
            (omega (arith, ap length trimmed, length-take budget.archive_semantic_chars offered))
          ∙ trimmed;
      within_budget = within;
    }

module _ {Score : Type 0} where
  validate_archive_candidates_sound :
      (scope : EvidenceScope) (allowed : Option (List String)) (seen : List String)
      (cs : List (ScoredChunk Score)) {vs : List (Chunk × ℕ)}
      → validate_archive_candidates scope allowed seen cs ≡ ok vs
      → (validate_candidates scope seen cs ≡ ok vs) × All (Allowed allowed) (chunks_of cs)
  unfolding validate_archive_candidates validate_candidates
  validate_archive_candidates_sound scope allowed seen [] h = (h, tt)
  validate_archive_candidates_sound scope allowed seen (c ∷ cs) {vs} h =
      let (v, checked, h1) = >>=-eq-ok (checked_version scope seen c) _ h in
      let (u, g, h2) = >>=-eq-ok (guard (is_allowed_document allowed c.chunk.document_id) _) _ h1 in
      let (rest, run, e) =
        >>=-eq-ok (validate_archive_candidates scope allowed (c.chunk.chunk_id ∷ seen) cs) _ h2 in
      let (valid, others) =
        validate_archive_candidates_sound scope allowed (c.chunk.chunk_id ∷ seen) cs run in
      (rw (checked, valid) e, (guard-eq-ok _ _ g, others))

  -- A successful call was given an archive scope, positive caps, and candidates of the request, each
  -- with a version, of an allowed document and none twice. Its evidence cites in order, under distinct
  -- identifiers, chunks left of the candidates: of at most `max_documents` documents, and of one
  -- document fewer characters than its cap and the longest candidate together. The texts put
  -- together are the rendered chunks cut to the archive budget, and the total budget is kept.
  pub assemble_archive_evidence_sound :
      (cs : List (ScoredChunk Score)) (scope : EvidenceScope) (budget : EvidenceBudget)
      (query_id : String) (allowed : Option (List String)) (max_documents char_cap : ℕ)
      {es : EvidenceSet}
      → assemble_archive_evidence cs scope budget query_id allowed max_documents char_cap ≡ ok es
      → IsArchive scope
        × (1 ≤ max_documents)
        × (1 ≤ char_cap)
        × Acceptable scope cs
        × All (λ c. is_allowed_document allowed c.document_id ≡ true) (chunks_of cs)
        × ((vs : List (Chunk × ℕ)) × (survivors : List (Chunk × ℕ)) × (map (λ v. v.0) vs
              ≡ chunks_of cs)
            × All Versioned vs
            × ArchiveGrounded budget max_documents char_cap vs survivors es.evidence es.budget)
  unfolding assemble_archive_evidence
  assemble_archive_evidence_sound cs scope budget query_id allowed max_documents char_cap {es} h =
      let (u1, g1, h1) = >>=-eq-ok (guard (not (max_documents == 0)) _) _ h in
      let (u2, g2, h2) = >>=-eq-ok (guard (not (char_cap == 0)) _) _ h1 in
      let (u3, g3, h3) = >>=-eq-ok (validate_archive_scope scope) _ h2 in
      let (vs, valid, h4) = >>=-eq-ok (validate_archive_candidates scope allowed [] cs) _ h3 in
      let (plain, alloweds) = validate_archive_candidates_sound scope allowed [] cs valid in
      let (fresh, unique, scoped, same, versions) = validate_candidates_sound scope [] cs plain in
      let survivors = surviving max_documents char_cap [] [] vs in
      let (r, run, trimmed, within) =
        assemble_archive_category budget (join (map (λ v. render_evidence_text v.0) survivors)) in
      let e = ok-injective (sym (rw run at h4)) in
      let positive : 1 ≤ char_cap = ground (arith, guard-eq-ok _ _ g2) in
      (
        (validate_archive_scope-IsArchive scope).0 g3,
        ground (arith, guard-eq-ok _ _ g1),
        positive,
        record {
          unique = unique;
          in_request = scoped;
          versioned = subst (All HasVersion) same (Versioned-HasVersion vs versions);
        },
        alloweds,
        (
          vs,
          survivors,
          same,
          versions,
          rw e (
              split-ArchiveGrounded budget max_documents char_cap vs
                (bounded_text "archive_semantic" r.0) r.1 positive trimmed within),
        ),
      )
