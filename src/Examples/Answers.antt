-- ===== src/Examples/Answers.antt =====
-- Instances of validation.py, injection.py and service.py.
use mama_gift.Base.{
  Result, Text, [], at_head, codes, decimal, false, in_tail, list_eq, nat_eq, none, ok, option_eq,
  refl, result_map, some, string_eq, ℕ, ◌∷◌, ◌≡◌,
}
use mama_gift.Examples.Evidence.{two_set}
use mama_gift.Examples.Fusing.{chunk_a, chunk_b, ranked_first, whole_scores}
use mama_gift.Examples.Samples.{one_document, small_budget}
use mama_gift.Rag.Injection.{
  escape_untrusted_text, escape_untrusted_text-closed, untrusted_document_close,
  untrusted_document_open,
}
use mama_gift.Rag.Prompt.{build_grounded_prompt}
use mama_gift.Rag.Providers.{Failure, Providers, QaConfig, read}
use mama_gift.Rag.Service.{answer_question}
use mama_gift.Rag.Service.Answers.{Trusted}
use mama_gift.Rag.Service.Laws.{FromGathered}
use mama_gift.Rag.Service.Total.{answer_question-Trusted}
use mama_gift.Rag.Validation.{
  ModelRef, QaAnswer, RawAnswer, RawCitation, answered, is_within, parse_and_validate_answer,
  validate_citations,
}
use mama_gift.Rag.Validation.Laws.{Validated, parse_and_validate_answer_sound}
use mama_gift.Rag.Validation.Refusals.{Refused, unknown_citation-Refused}
use mama_gift.Retrieval.Budget.{assemble_bounded_context}
use mama_gift.Retrieval.Evidence.{
  assemble_evidence, bounded_text, cite, join, split_evidence, validate_candidates,
}
use mama_gift.Retrieval.Expansion.{expand_evidence, next_parent}
use mama_gift.Retrieval.Fusion.{reciprocal_rank_fusion}
use mama_gift.Retrieval.Provenance.{chunk_scope}
use mama_gift.Retrieval.Scope.{scope_matches}

abbrev local_model : ModelRef
local_model = record { provider = "local"; model = "m"; version = "1" }

abbrev pub bare_citation : Text → RawCitation
bare_citation id = record {
  citation_id = id;
  document_id = none;
  page_number = none;
  block_ids = none;
  quote = none;
}

-- The model cites the first item by a part of its text.
abbrev pub honest : RawAnswer
honest = record {
  answer = 9 ∷ [];
  status = answered;
  citations = record (bare_citation (codes "c1")) { quote = some (2 ∷ 3 ∷ []) } ∷ [];
}

abbrev forged : RawAnswer
forged = record honest { citations = bare_citation (codes "c1") ∷ bare_citation (codes "c7") ∷ [] }

honest_answered : (parse_and_validate_answer (some honest) two_set local_model).status ≡ answered
unfolding parse_and_validate_answer validate_citations assemble_evidence validate_candidates
    assemble_bounded_context split_evidence join chunk_scope scope_matches bounded_text cite decimal
honest_answered = refl

parse_and_validate_answer_sound_example :
    Validated two_set local_model (parse_and_validate_answer (some honest) two_set local_model)
parse_and_validate_answer_sound_example =
    parse_and_validate_answer_sound (some honest) two_set local_model

unknown_citation-Refused_example :
    Refused (parse_and_validate_answer (some forged) two_set local_model)
unfolding assemble_evidence validate_candidates assemble_bounded_context split_evidence join
    chunk_scope scope_matches bounded_text cite decimal
unknown_citation-Refused_example =
    unknown_citation-Refused forged (bare_citation (codes "c7")) two_set local_model
      (in_tail (bare_citation (codes "c1")) (at_head [])) refl

-- Providers that find two chunks, keep their order, and a model that answers honestly.
abbrev sample_providers : Providers ℕ
sample_providers = record {
  total_chunks = λ scope. ok 2;
  lexical_search = λ question scope k. ok (ranked_first chunk_a ∷ []);
  dense_search = λ question scope k. ok (ranked_first chunk_b ∷ []);
  rerank = λ question candidates k. ok candidates;
  complete = λ messages n. ok (record { text = []; provider = "local"; model = "m" });
  reading = λ t. read (record honest { citations = bare_citation (codes "c1") ∷ [] });
}

abbrev sample_config : QaConfig
sample_config = record {
  chunk_tree = [];
  budget = small_budget;
  lexical_top_k = 10;
  dense_top_k = 10;
  rerank_top_k = 10;
  max_output_tokens = 512;
}

abbrev sample_answer : Result Failure QaAnswer
sample_answer =
    answer_question whole_scores sample_providers sample_config (9 ∷ 65 ∷ []) one_document "q"

sample_answered : result_map (λ a. a.status) sample_answer ≡ ok answered
unfolding answer_question scope_matches chunk_scope reciprocal_rank_fusion expand_evidence
    next_parent validate_candidates assemble_bounded_context split_evidence build_grounded_prompt
    cite decimal bounded_text join
sample_answered = refl

answer_question-Trusted_example :
    (a : QaAnswer) × (sample_answer ≡ ok a)
    × Trusted
        (FromGathered whole_scores sample_providers sample_config (9 ∷ 65 ∷ []) one_document "q")
        one_document
        "q"
        a
answer_question-Trusted_example =
    answer_question-Trusted whole_scores sample_providers sample_config (9 ∷ 65 ∷ []) one_document
      "q"

escape_untrusted_text-closed_example :
    (is_within untrusted_document_close (escape_untrusted_text untrusted_document_close) ≡ false)
    × (is_within untrusted_document_open (escape_untrusted_text untrusted_document_close) ≡ false)
escape_untrusted_text-closed_example = escape_untrusted_text-closed untrusted_document_close
