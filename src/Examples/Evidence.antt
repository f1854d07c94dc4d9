-- ===== src/Examples/Evidence.antt =====
-- Runs and instances of budget.py and evidence/assembler.py.
use mathlib.Core.List.{map}
use mama_gift.Base.{
  List, Result, String, [], arith, err, list_eq, nat_eq, ok, option_eq, refl, result_map, string_eq,
  ℕ, ◌∷◌, ◌≡◌, ◌≤◌,
}
use mama_gift.Examples.Samples.{one_document, small_budget, two_chunks}
use mama_gift.Retrieval.Budget.{
  Bounded, Offer, assemble_bounded_context, budget_categories, limits, nothing_offered, offer,
  total_chars, total_used_chars, unknown_keys,
}
use mama_gift.Retrieval.Budget.Laws.{
  assemble_bounded_context_bounded, assemble_bounded_context_total, cuts,
}
use mama_gift.Retrieval.Chunk.{Chunk, ScoredChunk}
use mama_gift.Retrieval.Errors.{RetrievalError}
use mama_gift.Retrieval.Evidence.{
  EvidenceSet, assemble_evidence, bounded_text, join, split_evidence, validate_candidates,
}
use mama_gift.Retrieval.Evidence.Laws.{
  Acceptable, Grounded, assemble_evidence_sound, assemble_evidence_total,
}
use mama_gift.Retrieval.Provenance.{chunk_scope}
use mama_gift.Retrieval.Scope.{scope_matches}

abbrev pub two_evidence : Result RetrievalError EvidenceSet
two_evidence = assemble_evidence two_chunks one_document small_budget "q"

two_texts :
    result_map (λ es. map (λ e. e.text) es.evidence) two_evidence
    ≡ ok ((1 ∷ 2 ∷ 3 ∷ []) ∷ (4 ∷ 5 ∷ []) ∷ [])
unfolding assemble_evidence validate_candidates assemble_bounded_context split_evidence join
    chunk_scope scope_matches bounded_text
two_texts = refl

abbrev half_offer : List (String × Offer)
half_offer = ("archive_semantic", offer (7 ∷ 8 ∷ [])) ∷ ("episodic_memory", nothing_offered) ∷ []

half_cut :
    assemble_bounded_context small_budget half_offer
    ≡ ok (
      (cuts (limits small_budget) half_offer budget_categories).0,
      record { categories = (cuts (limits small_budget) half_offer budget_categories).1 },
    )
unfolding unknown_keys
half_cut = assemble_bounded_context_total small_budget half_offer refl (ground arith)

abbrev half_bounded : Bounded
half_bounded = cuts (limits small_budget) half_offer budget_categories

assemble_bounded_context_bounded_example :
    (unknown_keys half_offer ≡ [])
    × (half_bounded.0 ≡ half_bounded.0)
    × (total_used_chars (record { categories = half_bounded.1 }) ≤ total_chars small_budget)
assemble_bounded_context_bounded_example =
    assemble_bounded_context_bounded small_budget half_offer half_cut

abbrev two_vs : List (Chunk × ℕ)
two_vs = map (λ (c : ScoredChunk ℕ). (c.chunk, 1)) two_chunks

abbrev empty_set : EvidenceSet
empty_set = record {
  scope = one_document;
  evidence = [];
  budget = record { categories = [] };
  query_id = "";
}

abbrev pub or_empty : Result RetrievalError EvidenceSet → EvidenceSet
or_empty (ok es) = es
or_empty (err e) = empty_set

abbrev pub two_set : EvidenceSet
two_set = or_empty two_evidence

two_ok : two_evidence ≡ ok two_set
unfolding assemble_evidence validate_candidates assemble_bounded_context split_evidence join
    chunk_scope scope_matches bounded_text
two_ok = refl

assemble_evidence_sound_example :
    Acceptable one_document two_chunks
    × ((vs : List (Chunk × ℕ)) × Grounded two_chunks small_budget vs two_set.evidence
          two_set.budget)
    × (two_set.scope ≡ one_document)
assemble_evidence_sound_example =
    assemble_evidence_sound two_chunks one_document small_budget "q" {es = two_set} two_ok

assemble_evidence_total_example : (es : EvidenceSet) × (two_evidence ≡ ok es)
assemble_evidence_total_example =
    assemble_evidence_total two_chunks one_document small_budget "q"
      assemble_evidence_sound_example.0
