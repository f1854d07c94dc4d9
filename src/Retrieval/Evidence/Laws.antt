-- ===== src/Retrieval/Evidence/Laws.antt =====
-- What `assemble_evidence` accepts, and what the evidence set that it returns holds.
use mama_gift.Base.{
  >>=-eq-ok, All, Fresh, Fresh-cons, Fresh-nil, List, Option-cases, Result-cases, String, Text, [],
  ap, arith, contains, distinct, false, inl, inr, length, length-take, list_eq, lookup, map, nat_eq,
  none, ok, ok-injective, option_eq, refl, some, string_eq, subst, sym, take, true, ℕ, ◌+◌, ◌∙◌,
  ◌∷◌, ◌≡◌, ◌≢◌, ◌≤◌,
}
use mama_gift.Retrieval.Budget.{
  BudgetBreakdown, EvidenceBudget, Offer, assemble_bounded_context, budget_categories, offer,
  total_chars, total_used_chars, unknown_keys,
}
use mama_gift.Retrieval.Budget.Laws.{
  IsText, assemble_bounded_context_bounded, assemble_bounded_context_total, cut,
}
use mama_gift.Retrieval.Chunk.{Chunk, ScoredChunk}
use mama_gift.Retrieval.Evidence.{
  Evidence, EvidenceSet, assemble_evidence, bounded_text, checked_version, join, split_evidence,
  validate_candidates,
}
use mama_gift.Retrieval.Evidence.Slices.{
  CitesAll, citation_ids, citation_ids-distinct, evidence_texts, join-split_evidence,
  split_evidence-CitesAll,
}
use mama_gift.Retrieval.Provenance.{InRequest, chunk_scope, chunk_scope-InScope}
use mama_gift.Retrieval.Scope.{EvidenceScope}
use mama_gift.Retrieval.Scope.Laws.{scope_matches-InScope}

abbrev pub HasVersion : Chunk → Type 0
HasVersion c = c.document_version ≢ none

abbrev pub Versioned : Chunk × ℕ → Type 0
Versioned v = v.0.document_version ≡ some v.1

abbrev one_offer : Text → List (String × Offer)
one_offer t = ("selected_document", offer t) ∷ []

one_offer-IsText : (t : Text) → All (λ c. IsText (lookup c (one_offer t))) budget_categories
one_offer-IsText t = ground arith

one_offer_known : (t : Text) → unknown_keys (one_offer t) ≡ []
unfolding unknown_keys
one_offer_known t = refl

bounded_selected :
    (b : EvidenceBudget) (t : Text) {bounded : List (String × Text)} {breakdown : BudgetBreakdown}
    → assemble_bounded_context b (one_offer t) ≡ ok (bounded, breakdown)
    → bounded_text "selected_document" bounded ≡ take b.selected_document_chars t
unfolding bounded_text
bounded_selected b t h = ground (arith, (assemble_bounded_context_bounded b (one_offer t) h).1)

-- The one category that the assembler offers, cut to its budget.
assemble_selected :
    (b : EvidenceBudget) (t : Text)
    → (r : List (String × Text) × BudgetBreakdown) × (assemble_bounded_context b (one_offer t)
        ≡ ok r)
      × (bounded_text "selected_document" r.0 ≡ take b.selected_document_chars t)
      × (total_used_chars r.1 ≤ total_chars b)
assemble_selected b t =
    let run =
      assemble_bounded_context_total b (one_offer t) (one_offer_known t) (one_offer-IsText t) in
    (_, run, bounded_selected b t run, (assemble_bounded_context_bounded b (one_offer t) run).2)

texts_of : (vs : List (Chunk × ℕ)) → map (λ v. v.0.text) vs ≡ map (λ c. c.text) (map (λ v. v.0) vs)
texts_of [] = refl
texts_of (v ∷ vs) = ap (λ t. v.0.text ∷ t) (texts_of vs)

offered_length :
    (budget : EvidenceBudget) (vs : List (Chunk × ℕ)) (bounded : Text)
    → bounded ≡ take budget.selected_document_chars (join (map (λ v. v.0.text) vs))
    → length bounded ≤ 0 + length (join (map (λ v. v.0.text) vs))
offered_length budget vs bounded cut = omega (
  arith,
  ap length cut,
  length-take budget.selected_document_chars (join (map (λ v. v.0.text) vs)),
)

pub Versioned-HasVersion :
    (vs : List (Chunk × ℕ)) → All Versioned vs → All HasVersion (map (λ v. v.0) vs)
Versioned-HasVersion [] h = tt
Versioned-HasVersion (v ∷ vs) h = (ground arith, Versioned-HasVersion vs h.1)

module _ {Score : Type 0} where
  abbrev pub chunks_of : List (ScoredChunk Score) → List Chunk
  chunks_of = map (λ c. c.chunk)

  abbrev pub ids_of : List (ScoredChunk Score) → List String
  ids_of = map (λ c. c.chunk.chunk_id)

  -- What the assembler asks of its candidates.
  pub record Acceptable (scope : EvidenceScope) (cs : List (ScoredChunk Score)) : Type 0 where
    pub unique : distinct (ids_of cs) ≡ true
    pub in_request : All (InRequest scope) (chunks_of cs)
    pub versioned : All HasVersion (chunks_of cs)

  checked_version_inversion :
      (scope : EvidenceScope) (seen : List String) (c : ScoredChunk Score) {v : ℕ}
      → checked_version scope seen c ≡ ok v
      → (contains c.chunk.chunk_id seen ≡ false)
        × InRequest scope c.chunk
        × (c.chunk.document_version ≡ some v)
  unfolding checked_version
  checked_version_inversion scope seen c h =
      (ground arith, chunk_scope-InScope scope c.chunk (ground arith), ground arith)

  abbrev pub CandidatesOk :
      EvidenceScope → List String → List (ScoredChunk Score) → List (Chunk × ℕ) → Type 0
  CandidatesOk scope seen cs vs =
      Fresh seen (ids_of cs)
      × (distinct (ids_of cs) ≡ true)
      × All (InRequest scope) (chunks_of cs)
      × (map (λ v. v.0) vs ≡ chunks_of cs)
      × All Versioned vs

  pub validate_candidates_sound :
      (scope : EvidenceScope) (seen : List String) (cs : List (ScoredChunk Score))
      {vs : List (Chunk × ℕ)}
      → validate_candidates scope seen cs ≡ ok vs
      → CandidatesOk scope seen cs vs
  unfolding validate_candidates
  validate_candidates_sound scope seen [] {vs} h =
      subst (CandidatesOk scope seen []) (ok-injective h) (tt, refl, tt, refl, tt)
  validate_candidates_sound scope seen (c ∷ cs) {vs} h =
      let (v, checked, h') = >>=-eq-ok (checked_version scope seen c) _ h in
      let (rest, run, e) =
        >>=-eq-ok (validate_candidates scope (c.chunk.chunk_id ∷ seen) cs) _ h' in
      let (unseen, allowed, has) = checked_version_inversion scope seen c checked in
      let (fresh, unique, scoped, same, versioned) =
        validate_candidates_sound scope (c.chunk.chunk_id ∷ seen) cs run in
      let (older, new) = (Fresh-cons c.chunk.chunk_id seen (ids_of cs)).0 fresh in
      subst (CandidatesOk scope seen (c ∷ cs)) (ok-injective e) (
        (unseen, older),
        rw (new, unique),
        (allowed, scoped),
        ap (λ t. c.chunk ∷ t) same,
        (has, versioned),
      )

  checked_version_complete :
      (scope : EvidenceScope) (seen : List String) (c : ScoredChunk Score)
      → contains c.chunk.chunk_id seen ≡ false
      → InRequest scope c.chunk
      → HasVersion c.chunk
      → (v : ℕ) × (checked_version scope seen c ≡ ok v)
  unfolding checked_version
  checked_version_complete scope seen c unseen allowed has =
      let passes = (scope_matches-InScope (chunk_scope scope c.chunk) scope).1 allowed in
      elim (Option-cases c.chunk.document_version) [
        | inl e ↦ absurd (has e)
        | inr (v, e) ↦ (v, ground arith)
      ]

  validate_candidates_complete :
      (scope : EvidenceScope) (seen : List String) (cs : List (ScoredChunk Score))
      → Fresh seen (ids_of cs)
      → distinct (ids_of cs) ≡ true
      → All (InRequest scope) (chunks_of cs)
      → All HasVersion (chunks_of cs)
      → (vs : List (Chunk × ℕ)) × (validate_candidates scope seen cs ≡ ok vs)
  unfolding validate_candidates
  validate_candidates_complete scope seen [] f d r v = ([], refl)
  validate_candidates_complete scope seen (c ∷ cs) f d r v =
      let (n, ok_n) = checked_version_complete scope seen c f.0 r.0 v.0 in
      let fresh = (Fresh-cons c.chunk.chunk_id seen (ids_of cs)).1 (f.1, ground arith) in
      let (vs, ok_vs) =
        validate_candidates_complete scope (c.chunk.chunk_id ∷ seen) cs fresh (ground arith) r.1
          v.1 in
      ((c.chunk, n) ∷ vs, rw (ok_n, ok_vs))

  -- The evidence set that the assembler promises for accepted candidates.
  pub record Grounded (cs : List (ScoredChunk Score)) (budget : EvidenceBudget)
      (vs : List (Chunk × ℕ)) (es : List Evidence) (breakdown : BudgetBreakdown) : Type 0 where
    pub same_chunks : map (λ v. v.0) vs ≡ chunks_of cs
    pub versions : All Versioned vs
    pub cited : CitesAll 1 vs es
    pub distinct_ids : distinct (citation_ids es) ≡ true
    pub texts :
        join (evidence_texts es)
        ≡ take budget.selected_document_chars (join (map (λ c. c.text) (chunks_of cs)))
    pub within_budget : total_used_chars breakdown ≤ total_chars budget

  split-Grounded :
      (cs : List (ScoredChunk Score)) (budget : EvidenceBudget) (vs : List (Chunk × ℕ))
      (bounded : Text) (breakdown : BudgetBreakdown)
      → map (λ v. v.0) vs ≡ chunks_of cs
      → All Versioned vs
      → bounded ≡ take budget.selected_document_chars (join (map (λ v. v.0.text) vs))
      → total_used_chars breakdown ≤ total_chars budget
      → Grounded cs budget vs (split_evidence (λ c. c.text) bounded 0 1 vs) breakdown
  split-Grounded cs budget vs bounded breakdown same versions cut within = record {
    same_chunks = same;
    versions = versions;
    cited = split_evidence-CitesAll (λ c. c.text) bounded 0 1 vs;
    distinct_ids =
        citation_ids-distinct 1 vs _ (split_evidence-CitesAll (λ c. c.text) bounded 0 1 vs);
    texts =
        join-split_evidence (λ c. c.text) bounded 0 1 vs (offered_length budget vs bounded cut)
        ∙ cut
        ∙ ap (λ ts. take budget.selected_document_chars (join ts))
            (texts_of vs ∙ ap (map (λ c. c.text)) same);
    within_budget = within;
  }

  -- A successful call of `assemble_evidence` was given candidates of the request, each with a version
  -- and none twice; its evidence is grounded in them, within the budget.
  pub assemble_evidence_sound :
      (cs : List (ScoredChunk Score)) (scope : EvidenceScope) (budget : EvidenceBudget)
      (query_id : String) {es : EvidenceSet}
      → assemble_evidence cs scope budget query_id ≡ ok es
      → Acceptable scope cs
        × ((vs : List (Chunk × ℕ)) × Grounded cs budget vs es.evidence es.budget)
        × (es.scope ≡ scope)
  unfolding assemble_evidence
  assemble_evidence_sound cs scope budget query_id {es} h =
      let (vs, valid, h') = >>=-eq-ok (validate_candidates scope [] cs) _ h in
      let (fresh, unique, scoped, same, versions) = validate_candidates_sound scope [] cs valid in
      let (r, run, cut, within) = assemble_selected budget (join (map (λ v. v.0.text) vs)) in
      let e = ok-injective (sym (rw run at h')) in
      (
        record {
          unique = unique;
          in_request = scoped;
          versioned = subst (All HasVersion) same (Versioned-HasVersion vs versions);
        },
        (
          vs,
          rw e (
              split-Grounded cs budget vs (bounded_text "selected_document" r.0) r.1 same versions
                cut within),
        ),
        rw e,
      )

  -- Every acceptable list of candidates gets an evidence set, whatever the budget.
  pub assemble_evidence_total :
      (cs : List (ScoredChunk Score)) (scope : EvidenceScope) (budget : EvidenceBudget)
      (query_id : String)
      → Acceptable scope cs
      → (es : EvidenceSet) × (assemble_evidence cs scope budget query_id ≡ ok es)
  unfolding assemble_evidence
  assemble_evidence_total cs scope budget query_id a =
      let (vs, valid) =
        validate_candidates_complete scope [] cs (Fresh-nil (ids_of cs)) a.unique a.in_request
          a.versioned in
      let (r, run, cut, within) = assemble_selected budget (join (map (λ v. v.0.text) vs)) in
      elim (Result-cases (assemble_evidence cs scope budget query_id)) [
        | inl (es, e) ↦ (es, e)
        | inr (x, e) ↦ let e' = rw (valid, run) at e in cc
      ]
