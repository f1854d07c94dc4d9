-- ===== src/Api/Feedback/Overlay.antt =====
-- The served document and the checked feedback.
use mama_gift.Api.Feedback.{
  Canonical, FeedbackEvent, FieldEntry, FieldValue, StoredRun, apply_corrections, apply_rows,
  as_canonical, check_canonical, check_missing, check_run, correct_field, correction_for,
  corrections_of, critical, current_run, field_entry, has_field, is_missing, latest, missing_fields,
  no_fields, no_object, other_fields, overlay, overlay_canonical, sort_events, validate_feedback,
  with_fields,
}
use mama_gift.Api.Feedback.Laws.{ServedAll, corrected, corrected-Served}
use mama_gift.Api.Models.{Document}
use mama_gift.Base.{
  >>=-eq-ok, Bool-cases, List, Option, String, [], ap, arith, eq_iff, false, guard, guard-eq-ok,
  inl, inr, list_eq, map, nat_eq, none, ok, option_eq, refl, some, string_eq, sym, true, ◌==◌, ◌↔◌,
  ◌∷◌, ◌≡◌, ◌≢◌, ◌⊎◌,
}

overlay-map :
    (rows : List FeedbackEvent) (fs : List FieldEntry)
    → overlay rows (map field_entry fs) ≡ some (map field_entry (map (corrected rows) fs))
unfolding overlay
overlay-map rows [] = refl
overlay-map rows (f ∷ fs) = rw (overlay-map rows fs) refl

correction_for-nil : (id : Option String) → correction_for id [] ≡ none
unfolding correction_for latest
correction_for-nil none = refl
correction_for-nil (some id) = refl

uncorrected : (fs : List FieldEntry) → map (corrected []) fs ≡ fs
unfolding correct_field
uncorrected [] = refl
uncorrected (f ∷ fs) = rw (correction_for-nil f.id, uncorrected fs) refl

apply_rows-map :
    (rows : List FeedbackEvent) (fs : List FieldEntry)
    → apply_rows rows (with_fields (map field_entry fs))
      ≡ some (with_fields (map field_entry (map (corrected rows) fs)))
unfolding apply_rows overlay_canonical as_canonical
apply_rows-map [] fs = ap (λ t. some (with_fields (map field_entry t))) (sym (uncorrected fs))
apply_rows-map (r ∷ rs) fs = ap as_canonical (overlay-map (r ∷ rs) fs)

corrected-ServedAll :
    (events : List FeedbackEvent) (document_id : String) (fs : List FieldEntry)
    → ServedAll events document_id fs
        (map (corrected (sort_events (corrections_of document_id events))) fs)
corrected-ServedAll events document_id [] = tt
corrected-ServedAll events document_id (f ∷ fs) =
    (corrected-Served events document_id f f.id refl, corrected-ServedAll events document_id fs)

-- A document whose fields are objects is served with the same fields in the same order, the
-- identifiers and both parsed values as they were. A field that no correction of the document names
-- is unchanged; any other is marked as corrected and has the value of a correction of the
-- document for it that is not older than any other.
pub apply_corrections_lem :
    (events : List FeedbackEvent) (document_id : String) (fs : List FieldEntry)
    → (gs : List FieldEntry) × (apply_corrections events document_id
          (with_fields (map field_entry fs))
        ≡ some (with_fields (map field_entry gs)))
      × ServedAll events document_id fs gs
unfolding apply_corrections
apply_corrections_lem events document_id fs = (
  map (corrected (sort_events (corrections_of document_id events))) fs,
  apply_rows-map (sort_events (corrections_of document_id events)) fs,
  corrected-ServedAll events document_id fs,
)

-- A correction that may be stored: it names a field and a value, neither blank, and the current run
-- of the document is its own and has the field.
pub record Correctable (runs : List StoredRun) (document : Document)
    (field_id corrected_value : Option String) : Type 0 where
  pub named : is_missing field_id ≡ false
  pub valued : is_missing corrected_value ≡ false
  pub run : StoredRun
  pub fields : List FieldValue
  pub is_current_run : current_run document.current_parse_run_id runs ≡ some run
  pub own_run : run.document_id ≡ document.id
  pub with_list : run.canonical ≡ with_fields fields
  pub has_it : has_field field_id fields ≡ true

check_missing_iff :
    (field_id corrected_value : Option String)
    → (check_missing (missing_fields field_id corrected_value) ≡ ok tt)
      ↔ ((is_missing field_id ≡ false) × (is_missing corrected_value ≡ false))
unfolding check_missing missing_fields
check_missing_iff field_id corrected_value = elim (Bool-cases (is_missing field_id)) [
  | inl a ↦ (λ h. ground (arith, a), λ h. ground (arith, a, h.0))
  | inr a ↦ elim (Bool-cases (is_missing corrected_value)) [
    | inl b ↦ (λ h. ground (arith, a, b), λ h. ground (arith, b, h.1))
    | inr b ↦ (λ h. (a, b), λ h. rw (a, b) refl)
  ]
]

check_canonical_lem :
    (field_id : Option String) (c : Canonical)
    → check_canonical field_id c ≡ ok tt
    → (fields : List FieldValue) × (c ≡ with_fields fields) × (has_field field_id fields ≡ true)
unfolding check_canonical
check_canonical_lem field_id no_object h = absurd (ground arith)
check_canonical_lem field_id no_fields h = absurd (ground arith)
check_canonical_lem field_id other_fields h = absurd (ground arith)
check_canonical_lem field_id (with_fields fields) h = (fields, refl, guard-eq-ok _ _ h)

check_run_lem :
    (runs : List StoredRun) (document : Document) (field_id corrected_value : Option String)
    (o : Option StoredRun)
    → current_run document.current_parse_run_id runs ≡ o
    → is_missing field_id ≡ false
    → is_missing corrected_value ≡ false
    → check_run document field_id o ≡ ok tt
    → Correctable runs document field_id corrected_value
unfolding check_run
check_run_lem runs document field_id corrected_value none e n v h = absurd (ground arith)
check_run_lem runs document field_id corrected_value (some run) e n v h =
    let (u, g, k) = >>=-eq-ok (guard (run.document_id == document.id) _) _ h in
    let (fields, c, has) = check_canonical_lem field_id run.canonical k in
    record {
      named = n;
      valued = v;
      run = run;
      fields = fields;
      is_current_run = e;
      own_run = (eq_iff _ _).0 (guard-eq-ok _ _ g);
      with_list = c;
      has_it = has;
    }

Correctable-check_run :
    (runs : List StoredRun) (document : Document) (field_id corrected_value : Option String)
    → Correctable runs document field_id corrected_value
    → check_run document field_id (current_run document.current_parse_run_id runs) ≡ ok tt
unfolding check_run check_canonical
Correctable-check_run runs document field_id corrected_value c =
    rw (c.is_current_run, (eq_iff _ _).1 c.own_run, c.with_list, c.has_it) refl

-- Feedback is accepted exactly if it is no critical correction, or one that names a field and a value,
-- neither blank, where the document's current run is its own and has a field of that identifier.
pub validate_feedback_iff :
    (runs : List StoredRun) (document : Document) (feedback_type : String)
    (field_id corrected_value : Option String)
    → (validate_feedback runs document feedback_type field_id corrected_value ≡ ok tt)
      ↔ ((feedback_type ≢ critical) ⊎ Correctable runs document field_id corrected_value)
unfolding validate_feedback
validate_feedback_iff runs document feedback_type field_id corrected_value =
    elim (Bool-cases (feedback_type == critical)) [
      | inr n ↦
          (λ h. inl (λ q. ground (arith, n, (eq_iff feedback_type critical).1 q)), λ h. rw n refl)
      | inl y ↦ (
        λ h.
            let run = rw y at h in
            let (u, m, k) =
              >>=-eq-ok (check_missing (missing_fields field_id corrected_value)) _ run in
            let (n, v) = (check_missing_iff field_id corrected_value).0 m in
            inr (check_run_lem runs document field_id corrected_value _ refl n v k),
        λ h. elim h [
          | inl n ↦ absurd (n ((eq_iff feedback_type critical).0 y))
          | inr c ↦
              let m = (check_missing_iff field_id corrected_value).1 (c.named, c.valued) in
              let r = Correctable-check_run runs document field_id corrected_value c in
              rw (y, m, r) refl
        ],
      )
    ]
