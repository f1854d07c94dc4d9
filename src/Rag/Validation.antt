-- ===== src/Rag/Validation.antt =====
-- schema.py and validation.py: the answer of a model is checked against the evidence of the request.
-- The JSON text is read by the standard library and by pydantic; what they make of it is an argument,
-- `none` where one of them raises.
pub mod Quotes
pub mod Laws
pub mod Refusals
use mama_gift.Base.{
  Bool, List, Option, Result, String, Text, [], codes, contains, err, false, guard, if◌then◌else◌,
  list_eq, nat_eq, none, ok, option_eq, some, string_eq, true, ℕ, ◌&&◌, ◌==◌, ◌>>=◌, ◌>>◌, ◌||◌,
  ◌∷◌,
}
use mama_gift.Retrieval.Evidence.{Evidence, EvidenceSet}
use mama_gift.Retrieval.Scope.{EvidenceScope, scope_matches}

pub data AnswerStatus : Type 0 where
  answered insufficient_evidence ai_worker_unavailable failed : AnswerStatus

pub record ModelRef : Type 0 where
  pub provider : String
  pub model : String
  pub version : String

pub record Citation : Type 0 where
  pub citation_id : Text
  pub document_id : String
  pub page_number : ℕ
  pub block_ids : List String
  pub quote : Option Text

pub record QaAnswer : Type 0 where
  pub answer : Text
  pub status : AnswerStatus
  pub citations : List Citation
  pub query_id : String
  pub model : ModelRef

-- _RawCitation
pub record RawCitation : Type 0 where
  pub citation_id : Text
  pub document_id : Option String
  pub page_number : Option ℕ
  pub block_ids : Option (List String)
  pub quote : Option Text

-- _RawAnswer
pub record RawAnswer : Type 0 where
  pub answer : Text
  pub status : AnswerStatus
  pub citations : List RawCitation

-- the `ValueError`s of the validation, which all end in the failed answer
pub data CitationError : Type 0 where
  unknown_citation mismatched_document out_of_scope unknown_page : Text → CitationError
  unknown_block quote_not_found : Text → CitationError

abbrev pub insufficient_evidence_message : Text
insufficient_evidence_message =
    codes
      "Tôi chưa có đủ thông tin trong tài liệu được truy xuất để trả lời câu hỏi này một cách đáng tin cậy."

abbrev pub failed_validation_message : Text
failed_validation_message = codes "Không thể xác thực câu trả lời từ mô hình; vui lòng thử lại."

unfoldable pub failed_answer : EvidenceSet → ModelRef → QaAnswer
failed_answer evidence model = record {
  answer = failed_validation_message;
  status = failed;
  citations = [];
  query_id = evidence.query_id;
  model = model;
}

unfoldable pub abstention_answer : EvidenceSet → ModelRef → QaAnswer
abstention_answer evidence model = record {
  answer = insufficient_evidence_message;
  status = insufficient_evidence;
  citations = [];
  query_id = evidence.query_id;
  model = model;
}

unfoldable pub scope_for_evidence : Evidence → EvidenceScope → EvidenceScope
scope_for_evidence item scope = record {
  family_id = scope.family_id;
  user_id = scope.user_id;
  thread_id = scope.thread_id;
  document_id = some item.document_id;
  document_version = some item.document_version;
  parse_run_id = some item.parse_run_id;
  archive_scope = scope.archive_scope;
}

-- Python's `in` on texts
unfoldable pub starts_with : Text → Text → Bool
starts_with [] text = true
starts_with (c ∷ cs) [] = false
starts_with (c ∷ cs) (d ∷ ds) = c == d && starts_with cs ds

unfoldable pub is_within : Text → Text → Bool
unfolding starts_with
is_within quote [] = starts_with quote []
is_within quote (c ∷ cs) = starts_with quote (c ∷ cs) || is_within quote cs

unfoldable pub all_within : List String → List String → Bool
all_within [] allowed = true
all_within (b ∷ bs) allowed = contains b allowed && all_within bs allowed

unfoldable pub quote_found : Option Text → Text → Bool
unfolding is_within
quote_found none text = true
quote_found (some quote) text = is_within quote text

unfoldable pub validate_citation :
    Citation → Evidence → EvidenceSet → Result CitationError (Unit {0})
unfolding scope_for_evidence all_within quote_found
validate_citation citation item evidence = do
  guard (citation.document_id == item.document_id) (mismatched_document citation.citation_id)
  guard (scope_matches (scope_for_evidence item evidence.scope) evidence.scope)
      (out_of_scope citation.citation_id)
  guard (contains citation.page_number item.page_numbers) (unknown_page citation.citation_id)
  guard (all_within citation.block_ids item.source_block_ids) (unknown_block citation.citation_id)
  guard (quote_found citation.quote item.text) (quote_not_found citation.citation_id)

-- `by_id.get(citation_id)`: the dictionary keeps the last item of an identifier
unfoldable pub find_item : Text → List Evidence → Option Evidence
find_item id [] = none
find_item id (e ∷ es) = elim (find_item id es) [
  | some later ↦ some later
  | none ↦ if id == e.citation_id then some e else none
]

abbrev pub or_else {ℓ} : {A : Type ℓ} → Option A → A → A
or_else none default = default
or_else (some a) default = a

-- `item.page_numbers[0] if item.page_numbers else 1`
unfoldable pub first_page : List ℕ → ℕ
first_page [] = 1
first_page (p ∷ ps) = p

-- the citation with what the model left out taken from the evidence
unfoldable pub complete_citation : RawCitation → Evidence → Citation
unfolding first_page
complete_citation raw item = record {
  citation_id = raw.citation_id;
  document_id = or_else raw.document_id item.document_id;
  page_number = or_else raw.page_number (first_page item.page_numbers);
  block_ids = or_else raw.block_ids item.source_block_ids;
  quote = some (or_else raw.quote item.text);
}

unfoldable pub checked_citation :
    EvidenceSet → RawCitation → Option Evidence → Result CitationError Citation
unfolding complete_citation validate_citation
checked_citation evidence raw none = err (unknown_citation raw.citation_id)
checked_citation evidence raw (some item) = do
  validate_citation (complete_citation raw item) item evidence
  ok (complete_citation raw item)

-- the loop over `raw.citations`
unfoldable pub validate_citations :
    EvidenceSet → List RawCitation → Result CitationError (List Citation)
unfolding checked_citation find_item
validate_citations evidence [] = ok []
validate_citations evidence (raw ∷ raws) = do
  citation ← checked_citation evidence raw (find_item raw.citation_id evidence.evidence)
  citations ← validate_citations evidence raws
  ok (citation ∷ citations)

-- the part behind the `try`, by the status and the citations
unfoldable pub settle_answer :
    EvidenceSet → ModelRef → RawAnswer → AnswerStatus → List Citation → QaAnswer
unfolding abstention_answer
settle_answer evidence model raw insufficient_evidence citations = abstention_answer evidence model
settle_answer evidence model raw answered [] = abstention_answer evidence model
settle_answer evidence model raw status citations = record {
  answer = raw.answer;
  status = raw.status;
  citations = citations;
  query_id = evidence.query_id;
  model = model;
}

unfoldable pub answer_of :
    EvidenceSet → ModelRef → RawAnswer → Result CitationError (List Citation) → QaAnswer
unfolding failed_answer settle_answer
answer_of evidence model raw (err e) = failed_answer evidence model
answer_of evidence model raw (ok citations) = settle_answer evidence model raw raw.status citations

unfoldable pub parse_and_validate_answer : Option RawAnswer → EvidenceSet → ModelRef → QaAnswer
unfolding failed_answer validate_citations answer_of
parse_and_validate_answer none evidence model = failed_answer evidence model
parse_and_validate_answer (some raw) evidence model =
    answer_of evidence model raw (validate_citations evidence raw.citations)
