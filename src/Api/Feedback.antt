-- ===== src/Api/Feedback.antt =====
-- feedback.py: corrections are events beside the parsed document, laid over it when it is served.
pub mod Latest
pub mod Laws
pub mod Overlay
use mama_gift.Api.Models.{Document}
use mama_gift.Base.{
  Bool, List, Option, Result, String, [], err, false, guard, if◌then◌else◌, leb, list_eq, nat_eq,
  none, not, ok, option_eq, some, string_eq, true, value, ℕ, ◌&&◌, ◌++◌, ◌==◌, ◌>>=◌, ◌>>◌, ◌||◌,
  ◌∷◌,
}
use mama_gift.Retrieval.ArchiveEvidence.{is_blank}

pub record FeedbackEvent : Type 0 where
  pub id : String
  pub document_id : String
  pub feedback_type : String
  pub field_id : Option String
  pub corrected_value : Option String
  pub comment : Option String
  pub created_at : ℕ

-- An entry of `extracted_fields`, with the keys that feedback reads or writes.
pub record FieldEntry : Type 0 where
  pub id : Option String
  pub raw_value : Option String
  pub normalized_value : Option String
  pub review_status : String
  pub corrected_value : Option String

-- A value of that list: an object or something else.
pub data FieldValue : Type 0 where
  field_entry : FieldEntry → FieldValue
  other_value : FieldValue

-- The stored canonical document: no object, an object without fields (the key is absent or holds an
-- empty text or mapping), one whose fields are anything else that is no list, or one with a list.
pub data Canonical : Type 0 where
  no_object no_fields other_fields : Canonical
  with_fields : List FieldValue → Canonical

-- What feedback reads of a row of parse_runs.
pub record StoredRun : Type 0 where
  pub id : String
  pub document_id : String
  pub canonical : Canonical

-- The `ApiError`s of `validate_feedback`; the first holds the names of the missing fields.
pub data FeedbackError : Type 0 where
  feedback_field_required : List String → FeedbackError
  canonical_unavailable feedback_field_invalid : FeedbackError

abbrev pub critical : String
critical = "critical_field_correction"

-- `value is None or not value.strip()`
unfoldable pub is_missing : Option String → Bool
unfolding is_blank
is_missing none = true
is_missing (some value) = is_blank value

unfoldable pub missing_fields : Option String → Option String → List String
unfolding is_missing
missing_fields field_id corrected_value =
    (if is_missing field_id then "field_id" ∷ [] else [])
    ++ (if is_missing corrected_value then "corrected_value" ∷ [] else [])

unfoldable pub find_run : String → List StoredRun → Option StoredRun
find_run id [] = none
find_run id (r ∷ rs) = if r.id == id then some r else find_run id rs

-- session.get(ParseRun, current_parse_run_id) if current_parse_run_id else None
unfoldable pub current_run : Option String → List StoredRun → Option StoredRun
unfolding find_run
current_run none runs = none
current_run (some id) runs = if id == "" then none else find_run id runs

unfoldable pub has_field : Option String → List FieldValue → Bool
has_field field_id [] = false
has_field field_id (other_value ∷ fields) = has_field field_id fields
has_field field_id (field_entry f ∷ fields) = f.id == field_id || has_field field_id fields

-- the tests on the canonical document
unfoldable pub check_canonical : Option String → Canonical → Result FeedbackError (Unit {0})
unfolding has_field
check_canonical field_id no_object = err canonical_unavailable
check_canonical field_id no_fields = err canonical_unavailable
check_canonical field_id other_fields = err canonical_unavailable
check_canonical field_id (with_fields fields) =
    guard (has_field field_id fields) feedback_field_invalid

-- the tests on the current run
unfoldable pub check_run :
    Document → Option String → Option StoredRun → Result FeedbackError (Unit {0})
unfolding check_canonical
check_run document field_id none = err canonical_unavailable
check_run document field_id (some run) = do
  guard (run.document_id == document.id) canonical_unavailable
  check_canonical field_id run.canonical

-- the list of missing fields must be empty
unfoldable pub check_missing : List String → Result FeedbackError (Unit {0})
check_missing [] = ok tt
check_missing (name ∷ names) = err (feedback_field_required (name ∷ names))

unfoldable pub validate_feedback :
    List StoredRun
    → Document
    → String
    → Option String
    → Option String
    → Result FeedbackError (Unit {0})
unfolding missing_fields check_missing current_run check_run
validate_feedback runs document feedback_type field_id corrected_value =
    if not (feedback_type == critical) then ok tt else (do
      check_missing (missing_fields field_id corrected_value)
      check_run document field_id (current_run document.current_parse_run_id runs))

unfoldable pub record_feedback :
    List FeedbackEvent
    → Document
    → String
    → Option String
    → Option String
    → Option String
    → String
    → ℕ
    → List FeedbackEvent × FeedbackEvent
record_feedback events document feedback_type field_id corrected_value comment fresh_id now =
    let event : FeedbackEvent = record {
      id = fresh_id;
      document_id = document.id;
      feedback_type = feedback_type;
      field_id = field_id;
      corrected_value = corrected_value;
      comment = comment;
      created_at = now;
    } in
    (events ++ (event ∷ []), event)

unfoldable pub submit_feedback :
    List StoredRun
    → List FeedbackEvent
    → Document
    → String
    → Option String
    → Option String
    → Option String
    → String
    → ℕ
    → Result FeedbackError (List FeedbackEvent × FeedbackEvent)
unfolding validate_feedback record_feedback
submit_feedback runs events document feedback_type field_id corrected_value comment fresh_id now =
    do
      validate_feedback runs document feedback_type field_id corrected_value
      ok (
          record_feedback events document feedback_type field_id corrected_value comment fresh_id
            now)

-- the `where` of the query
unfoldable pub is_correction : String → FeedbackEvent → Bool
is_correction document_id e =
    e.document_id == document_id && (e.feedback_type == critical && not (e.field_id == none))

unfoldable pub corrections_of : String → List FeedbackEvent → List FeedbackEvent
unfolding is_correction
corrections_of document_id [] = []
corrections_of document_id (e ∷ es) =
    let rest = corrections_of document_id es in
    if is_correction document_id e then e ∷ rest else rest

-- the `order_by`: the sort by creation, which keeps the order of rows of one time
unfoldable pub insert_event : FeedbackEvent → List FeedbackEvent → List FeedbackEvent
insert_event e [] = e ∷ []
insert_event e (x ∷ xs) =
    let rest = insert_event e xs in if leb e.created_at x.created_at then e ∷ x ∷ xs else x ∷ rest

unfoldable pub sort_events : List FeedbackEvent → List FeedbackEvent
unfolding insert_event
sort_events [] = []
sort_events (e ∷ es) = insert_event e (sort_events es)

-- `latest.get(field_id)`, where a later row replaces an earlier one
unfoldable pub latest : String → List FeedbackEvent → Option FeedbackEvent
latest field_id [] = none
latest field_id (e ∷ es) = elim (latest field_id es) [
  | some later ↦ some later
  | none ↦ if e.field_id == some field_id then some e else none
]

-- `corrections.get(field.get("id"))`
unfoldable pub correction_for : Option String → List FeedbackEvent → Option FeedbackEvent
unfolding latest
correction_for none rows = none
correction_for (some id) rows = latest id rows

unfoldable pub correct_field : Option FeedbackEvent → FieldEntry → FieldEntry
correct_field none field = field
correct_field (some event) field = record field {
  review_status = "corrected";
  corrected_value = event.corrected_value;
}

-- The loop over the fields; `none` is the `AttributeError` on a value that is no object.
unfoldable pub overlay : List FeedbackEvent → List FieldValue → Option (List FieldValue)
unfolding correct_field correction_for
overlay rows [] = some []
overlay rows (other_value ∷ fields) = none
overlay rows (field_entry f ∷ fields) = elim (overlay rows fields) [
  | none ↦ none
  | some rest ↦ some (field_entry (correct_field (correction_for f.id rows) f) ∷ rest)
]

unfoldable pub as_canonical : Option (List FieldValue) → Option Canonical
as_canonical none = none
as_canonical (some fields) = some (with_fields fields)

-- the loop on the copy; `none` stands for the exceptions on a malformed document
unfoldable pub overlay_canonical : List FeedbackEvent → Canonical → Option Canonical
unfolding overlay as_canonical
overlay_canonical rows no_object = none
overlay_canonical rows no_fields = some no_fields
overlay_canonical rows other_fields = none
overlay_canonical rows (with_fields fields) = as_canonical (overlay rows fields)

-- Without a correction the document itself is returned.
unfoldable pub apply_rows : List FeedbackEvent → Canonical → Option Canonical
unfolding overlay_canonical
apply_rows [] canonical = some canonical
apply_rows (r ∷ rs) canonical = overlay_canonical (r ∷ rs) canonical

unfoldable pub apply_corrections : List FeedbackEvent → String → Canonical → Option Canonical
unfolding apply_rows sort_events corrections_of
apply_corrections events document_id canonical =
    apply_rows (sort_events (corrections_of document_id events)) canonical
