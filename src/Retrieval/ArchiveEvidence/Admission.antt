-- ===== src/Retrieval/ArchiveEvidence/Admission.antt =====
-- Which validated chunks the caps of the archive assembler let through.
use mama_gift.Base.{
  All, Bool-cases, List, String, [], arith, contains, eq_iff, if◌then◌else◌, inl, inr, length,
  list_eq, nat_eq, option_eq, string_eq, suc, ℕ, ◌+◌, ◌<◌, ◌==◌, ◌∷◌, ◌≤◌,
}
use mama_gift.Retrieval.ArchiveEvidence.{add_document, admits, count_of, surviving}
use mama_gift.Retrieval.Chunk.{Chunk}

-- The first list is the second with some elements left out, in the same order.
pub data Sublist {ℓ} {A : Type ℓ} : List A → List A → Type ℓ where
  none_left : Sublist [] []
  left_in : (x : A) {xs ys : List A} → Sublist xs ys → Sublist (x ∷ xs) (x ∷ ys)
  left_out : (y : A) {xs ys : List A} → Sublist xs ys → Sublist xs (y ∷ ys)

-- how many documents of a list are not among those seen
unfoldable pub new_documents : List String → List (Chunk × ℕ) → ℕ
new_documents seen [] = 0
new_documents seen (v ∷ vs) =
    let old = new_documents seen vs in
    let new = new_documents (v.0.document_id ∷ seen) vs in
    if contains v.0.document_id seen then old else suc new

-- the characters of one document's chunks
unfoldable pub chars_of : String → List (Chunk × ℕ) → ℕ
chars_of doc_id [] = 0
chars_of doc_id (v ∷ vs) =
    let rest = chars_of doc_id vs in
    if doc_id == v.0.document_id then length v.0.text + rest else rest

abbrev pub AtMost : ℕ → Chunk × ℕ → Type 0
AtMost m v = length v.0.text ≤ m

pub surviving-Sublist :
    (max_documents char_cap : ℕ) (admitted : List String) (counts : List (String × ℕ))
    (vs : List (Chunk × ℕ))
    → Sublist (surviving max_documents char_cap admitted counts vs) vs
unfolding surviving
surviving-Sublist max_documents char_cap admitted counts [] = none_left
surviving-Sublist max_documents char_cap admitted counts ((c, n) ∷ vs) =
    elim (Bool-cases (admits max_documents char_cap admitted counts c)) [
      | inl e ↦ rw e (
          left_in (c, n)
            (surviving-Sublist max_documents char_cap (add_document c.document_id admitted)
              ((c.document_id, count_of c.document_id counts + length c.text) ∷ counts) vs))
      | inr e ↦ rw e (left_out (c, n) (surviving-Sublist max_documents char_cap admitted counts vs))
    ]

pub surviving_documents :
    (max_documents char_cap : ℕ) (admitted : List String) (counts : List (String × ℕ))
    (vs : List (Chunk × ℕ))
    → length admitted ≤ max_documents
    → length admitted + new_documents admitted (surviving max_documents char_cap admitted counts vs)
      ≤ max_documents
unfolding surviving new_documents admits add_document
surviving_documents max_documents char_cap admitted counts [] h = ground arith
surviving_documents max_documents char_cap admitted counts ((c, n) ∷ vs) h =
    let counted = (c.document_id, count_of c.document_id counts + length c.text) ∷ counts in
    ground (
      arith,
      surviving_documents max_documents char_cap admitted counted vs h,
      surviving_documents max_documents char_cap (c.document_id ∷ admitted) counted vs,
      surviving_documents max_documents char_cap admitted counts vs h,
    )

pub surviving_chars :
    (max_documents char_cap m : ℕ) (admitted : List String) (counts : List (String × ℕ))
    (vs : List (Chunk × ℕ)) (doc_id : String)
    → All (AtMost m) vs
    → count_of doc_id counts < char_cap + m
    → count_of doc_id counts + chars_of doc_id (surviving max_documents char_cap admitted counts vs)
      < char_cap + m
unfolding surviving chars_of admits count_of
surviving_chars max_documents char_cap m admitted counts [] doc_id a h = ground arith
surviving_chars max_documents char_cap m admitted counts ((c, n) ∷ vs) doc_id a h =
    let counted = (c.document_id, count_of c.document_id counts + length c.text) ∷ counts in
    ground (
      arith,
      eq_iff doc_id c.document_id,
      surviving_chars max_documents char_cap m (add_document c.document_id admitted) counted vs
          doc_id a.1,
      surviving_chars max_documents char_cap m admitted counts vs doc_id a.1 h,
    )
