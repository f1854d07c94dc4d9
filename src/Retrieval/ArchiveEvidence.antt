-- ===== src/Retrieval/ArchiveEvidence.antt =====
-- evidence/archive_assembler.py: chunks of many documents become a bounded list of evidence items,
-- with a cap on the documents and one on the characters of each.
pub mod Admission
pub mod Laws
pub mod Groups
use mama_gift.Base.{
  Bool, List, Option, Result, String, Text, [], codes, contains, false, guard, if◌then◌else◌, leb,
  length, list_eq, lookup, map, nat_eq, none, not, ok, option_eq, some, string_eq, true, ℕ, ◌&&◌,
  ◌++◌, ◌+◌, ◌==◌, ◌>>=◌, ◌>>◌, ◌||◌, ◌∷◌,
}
use mama_gift.Retrieval.ArchiveScope.{validate_archive_scope}
use mama_gift.Retrieval.Budget.{EvidenceBudget, assemble_bounded_context, offer}
use mama_gift.Retrieval.Chunk.{Chunk, MetaValue, ScoredChunk, meta_other, meta_text}
use mama_gift.Retrieval.Errors.{
  RetrievalError, bad_char_cap, bad_max_documents, blank_document_id, document_not_allowed,
}
use mama_gift.Retrieval.Evidence.{
  Evidence, EvidenceSet, bounded_text, checked_version, join, split_evidence,
}
use mama_gift.Retrieval.Scope.{EvidenceScope}

-- the code points for which Python's `str.isspace` holds
unfoldable pub is_space : ℕ → Bool
is_space c =
    (leb 9 c && leb c 13)
    || ((leb 28 c && leb c 32)
        || ((leb 8192 c && leb c 8202)
            || contains c (133 ∷ 160 ∷ 5760 ∷ 8232 ∷ 8233 ∷ 8239 ∷ 8287 ∷ 12288 ∷ [])))

unfoldable pub strip_left : Text → Text
unfolding is_space
strip_left [] = []
strip_left (c ∷ cs) = let rest = strip_left cs in if is_space c then rest else c ∷ cs

unfoldable pub strip_right : Text → Text
unfolding is_space
strip_right [] = []
strip_right (c ∷ cs) = elim (strip_right cs) [
  | [] ↦ if is_space c then [] else c ∷ []
  | d ∷ ds ↦ c ∷ d ∷ ds
]

unfoldable pub strip : Text → Text
unfolding strip_left strip_right
strip t = strip_right (strip_left t)

-- `_RENDERED_METADATA_FIELDS`
abbrev pub rendered_metadata_fields : List (String × String)
rendered_metadata_fields =
    ("ordinal", "Số thứ tự")
    ∷ ("owner", "Đơn vị chủ trì")
    ∷ ("coordinating_unit", "Đơn vị phối hợp")
    ∷ ("deadline_raw", "Thời hạn hoàn thành")
    ∷ []

-- the line of one field; a value that is no text, or blank, has none
unfoldable pub metadata_line : String → Option MetaValue → Text
unfolding strip
metadata_line label none = []
metadata_line label (some meta_other) = []
metadata_line label (some (meta_text v)) = elim (strip v) [
  | [] ↦ []
  | c ∷ cs ↦ b'\n' ∷ codes label ++ (codes ": " ++ (c ∷ cs))
]

unfoldable pub metadata_lines : List (String × MetaValue) → List (String × String) → Text
unfolding metadata_line
metadata_lines metadata [] = []
metadata_lines metadata ((key, label) ∷ fields) =
    metadata_line label (lookup key metadata) ++ metadata_lines metadata fields

-- "\n".join(lines), where every line past the first comes with the break in front of it
unfoldable pub render_evidence_text : Chunk → Text
unfolding metadata_lines
render_evidence_text chunk = chunk.text ++ metadata_lines chunk.metadata rendered_metadata_fields

-- `allowed_documents is None or document_id in allowed_documents`
unfoldable pub is_allowed_document : Option (List String) → String → Bool
is_allowed_document none document_id = true
is_allowed_document (some allowed) document_id = contains document_id allowed

-- doc_char_counts.get(doc_id, 0)
unfoldable pub count_of : String → List (String × ℕ) → ℕ
count_of doc_id counts = elim (lookup doc_id counts) [ none ↦ 0 | some n ↦ n ]

-- The second loop: the document cap and the characters of each document. A document is one of the
-- admitted or finds room among them, and has used less than its cap.
unfoldable pub admits : ℕ → ℕ → List String → List (String × ℕ) → Chunk → Bool
unfolding count_of
admits max_documents char_cap admitted counts chunk =
    not (not (contains chunk.document_id admitted) && leb max_documents (length admitted))
    && not (leb char_cap (count_of chunk.document_id counts))

-- admitted_documents.add(doc_id)
unfoldable pub add_document : String → List String → List String
add_document doc_id admitted = if contains doc_id admitted then admitted else doc_id ∷ admitted

unfoldable pub surviving :
    ℕ → ℕ → List String → List (String × ℕ) → List (Chunk × ℕ) → List (Chunk × ℕ)
unfolding admits add_document count_of
surviving max_documents char_cap admitted counts [] = []
surviving max_documents char_cap admitted counts ((chunk, version) ∷ rest) =
    let kept =
      surviving max_documents char_cap (add_document chunk.document_id admitted)
        ((chunk.document_id, count_of chunk.document_id counts + length chunk.text) ∷ counts)
        rest in
    let skipped = surviving max_documents char_cap admitted counts rest in
    if admits max_documents char_cap admitted counts chunk then (chunk, version) ∷ kept else skipped

module _ {Score : Type 0} where
  -- the first loop
  unfoldable pub validate_archive_candidates :
      EvidenceScope
      → Option (List String)
      → List String
      → List (ScoredChunk Score)
      → Result RetrievalError (List (Chunk × ℕ))
  unfolding checked_version is_allowed_document
  validate_archive_candidates scope allowed seen [] = ok []
  validate_archive_candidates scope allowed seen (candidate ∷ rest) = do
    version ← checked_version scope seen candidate
    guard (is_allowed_document allowed candidate.chunk.document_id)
        (document_not_allowed candidate.chunk.chunk_id)
    others ← validate_archive_candidates scope allowed (candidate.chunk.chunk_id ∷ seen) rest
    ok ((candidate.chunk, version) ∷ others)

  unfoldable pub assemble_archive_evidence :
      List (ScoredChunk Score)
      → EvidenceScope
      → EvidenceBudget
      → String
      → Option (List String)
      → ℕ
      → ℕ
      → Result RetrievalError EvidenceSet
  unfolding surviving render_evidence_text
  assemble_archive_evidence candidates scope budget query_id allowed max_documents char_cap = do
    guard (not (max_documents == 0)) bad_max_documents
    guard (not (char_cap == 0)) bad_char_cap
    validate_archive_scope scope
    validated ← validate_archive_candidates scope allowed [] candidates
    let survivors = surviving max_documents char_cap [] [] validated
    result ←
        assemble_bounded_context budget
          (("archive_semantic", offer (join (map (λ v. render_evidence_text v.0) survivors))) ∷ [])
    ok (record {
      scope = scope;
      evidence =
          split_evidence render_evidence_text (bounded_text "archive_semantic" result.0) 0 1
            survivors;
      budget = result.1;
      query_id = query_id;
    })

-- `not item.document_id or not item.document_id.strip()`
unfoldable pub is_blank : String → Bool
unfolding strip
is_blank s = elim (strip (codes s)) [ [] ↦ true | c ∷ cs ↦ false ]

-- grouped.setdefault(document_id, []).append(item), the keys in the order of their first appearance
unfoldable pub add_to_group :
    Evidence → List (String × List Evidence) → List (String × List Evidence)
add_to_group item [] = (item.document_id, item ∷ []) ∷ []
add_to_group item ((key, items) ∷ groups) =
    let rest = add_to_group item groups in
    if item.document_id == key then (key, items ++ (item ∷ [])) ∷ groups else (key, items) ∷ rest

unfoldable pub group_items :
    List Evidence
    → List (String × List Evidence)
    → Result RetrievalError (List (String × List Evidence))
unfolding add_to_group is_blank
group_items [] grouped = ok grouped
group_items (item ∷ items) grouped = do
  guard (not (is_blank item.document_id)) (blank_document_id item.citation_id)
  group_items items (add_to_group item grouped)

unfoldable pub group_evidence_by_document :
    EvidenceSet → Result RetrievalError (List (String × List Evidence))
unfolding group_items
group_evidence_by_document evidence = group_items evidence.evidence []
