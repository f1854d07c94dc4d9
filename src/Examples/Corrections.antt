-- ===== src/Examples/Corrections.antt =====
-- Instances of feedback.py.
use mama_gift.Api.Feedback.{
  FeedbackEvent, FieldEntry, StoredRun, apply_corrections, critical, feedback_field_invalid,
  field_entry, validate_feedback, with_fields,
}
use mama_gift.Api.Feedback.Laws.{ServedAll}
use mama_gift.Api.Feedback.Overlay.{apply_corrections_lem}
use mama_gift.Api.Models.{Document}
use mama_gift.Api.StateMachine.{document_status_eq, job_status_eq, ready_for_review}
use mama_gift.Base.{
  List, String, [], err, list_eq, map, nat_eq, none, ok, option_eq, refl, some, string_eq, value, ℕ,
  ◌∷◌, ◌≡◌,
}
use mama_gift.Examples.Samples.{sample_document}

abbrev signer_field : FieldEntry
signer_field = record {
  id = some "f1";
  raw_value = some "raw";
  normalized_value = some "parsed";
  review_status = "unreviewed";
  corrected_value = none;
}

abbrev correction : String → ℕ → FeedbackEvent
correction value time = record {
  id = value;
  document_id = "doc";
  feedback_type = critical;
  field_id = some "f1";
  corrected_value = some value;
  comment = none;
  created_at = time;
}

-- the later of the two stands first in the table
abbrev two_corrections : List FeedbackEvent
two_corrections = correction "new" 5 ∷ correction "old" 3 ∷ []

latest_wins :
    apply_corrections two_corrections "doc" (with_fields (field_entry signer_field ∷ []))
    ≡ some (
        with_fields (
          field_entry
            (record signer_field { review_status = "corrected"; corrected_value = some "new" })
          ∷ []))
unfolding apply_corrections
latest_wins = refl

apply_corrections_lem_example :
    (gs : List FieldEntry) × (apply_corrections two_corrections "doc"
        (with_fields (map field_entry (signer_field ∷ [])))
      ≡ some (with_fields (map field_entry gs)))
    × ServedAll two_corrections "doc" (signer_field ∷ []) gs
apply_corrections_lem_example = apply_corrections_lem two_corrections "doc" (signer_field ∷ [])

abbrev parsed_document : Document
parsed_document = record (sample_document ready_for_review) { current_parse_run_id = some "run" }

abbrev stored : List StoredRun
stored =
    record {
      id = "run";
      document_id = "doc";
      canonical = with_fields (field_entry signer_field ∷ []);
    }
    ∷ []

correction_accepted :
    validate_feedback stored parsed_document critical (some "f1") (some "x") ≡ ok tt
unfolding validate_feedback
correction_accepted = refl

unknown_field_refused :
    validate_feedback stored parsed_document critical (some "f2") (some "x")
    ≡ err feedback_field_invalid
unfolding validate_feedback
unknown_field_refused = refl
