-- ===== src/Retrieval/Evidence/Slices.antt =====
-- The split of the bounded text over the chunks loses nothing and numbers the items densely.
use native.Mathlib.Nat.{zero-add, suc-add}
use mama_gift.Base.{
  Bool-cases, List, Text, [], ap, arith, beq_of_ne, contains, decimal-injective, distinct, drop,
  false, inl, inr, leb, leb→le, leb→lt, length, length-append, length-drop, list_eq, map, min,
  nat_eq, option_eq, refl, string_eq, suc, sym, take, take-append-drop, take-of_le, true, zero, ℕ,
  ◌+◌, ◌<◌, ◌∙◌, ◌∷◌, ◌≡◌, ◌≤◌,
}
use mama_gift.Retrieval.Chunk.{Chunk}
use mama_gift.Retrieval.Evidence.{Evidence, cite, join, slice, split_evidence}

-- The texts of the items, one after the other.
abbrev pub evidence_texts : List Evidence → List Text
evidence_texts = map (λ e. e.text)

-- The text that the chunks offer, one after the other.
abbrev pub offered_texts : (Chunk → Text) → List (Chunk × ℕ) → List Text
offered_texts text_of = map (λ v. text_of v.0)

drop-of_le : (n : ℕ) (t : Text) → length t ≤ n → drop n t ≡ []
drop-of_le zero [] h = refl
drop-of_le zero (x ∷ t) h = absurd (omega arith)
drop-of_le (suc n) [] h = refl
drop-of_le (suc n) (x ∷ t) h = drop-of_le n t (omega arith)

drop-drop : (m n : ℕ) (t : Text) → drop n (drop m t) ≡ drop (m + n) t
drop-drop zero n t = rw zero-add
drop-drop (suc m) zero [] = rw suc-add
drop-drop (suc m) (suc n) [] = rw suc-add
drop-drop (suc m) n (x ∷ t) = rw suc-add (drop-drop m n t)

take-min : (n : ℕ) (t : Text) → take (min n (length t)) t ≡ take n t
take-min n t = elim (Bool-cases (leb n (length t))) [
  | inl h ↦ ap (λ k. take k t) (omega (arith, leb→le n (length t) h))
  | inr h ↦
      ap (λ k. take k t) (omega (arith, leb→lt n (length t) h))
      ∙ take-of_le (length t) t (omega arith)
      ∙ sym (take-of_le n t (omega (arith, leb→lt n (length t) h)))
]

-- A slice up to the end of a chunk, or of the text, is a `take` of what is left.
slice-take :
    (offset n : ℕ) (t : Text)
    → slice offset (min (offset + n) (length t)) t ≡ take n (drop offset t)
unfolding slice
slice-take offset n t =
    ap (λ k. take k (drop offset t)) (omega (arith, length-drop offset t))
    ∙ take-min n (drop offset t)

-- When the bounded text is no longer than what was offered, the items' texts put together are the
-- bounded text again.
pub join-split_evidence :
    (text_of : Chunk → Text) (bounded : Text) (offset index : ℕ) (vs : List (Chunk × ℕ))
    → length bounded ≤ offset + length (join (offered_texts text_of vs))
    → join (evidence_texts (split_evidence text_of bounded offset index vs)) ≡ drop offset bounded
unfolding join split_evidence
join-split_evidence text_of bounded offset index [] h =
    sym (drop-of_le offset bounded (omega arith))
join-split_evidence text_of bounded offset index ((c, v) ∷ vs) h =
    let n : ℕ = length (text_of c) in
    let tail =
      join-split_evidence text_of bounded (offset + n) (index + 1) vs
        (omega (arith, length-append (text_of c) (join (offered_texts text_of vs)))) in
    rw (slice-take, tail, ← drop-drop) (take-append-drop n (drop offset bounded))

-- The part of an item that the code takes from its chunk.
abbrev pub Cites : ℕ → Chunk × ℕ → Evidence → Type 0
Cites index v e =
    (e.citation_id ≡ cite index)
    × (e.chunk_id ≡ v.0.chunk_id)
    × (e.document_id ≡ v.0.document_id)
    × (e.parse_run_id ≡ v.0.parse_run_id)
    × (e.document_version ≡ v.1)
    × (e.page_numbers ≡ v.0.source_page_numbers)
    × (e.source_block_ids ≡ v.0.source_block_ids)

-- Item k cites chunk k, under the identifier of its place; there is one item per chunk.
abbrev pub CitesAll : ℕ → List (Chunk × ℕ) → List Evidence → Type 0
CitesAll index [] [] = Unit
CitesAll index [] (e ∷ es) = ⊥
CitesAll index (v ∷ vs) [] = ⊥
CitesAll index (v ∷ vs) (e ∷ es) = Cites index v e × CitesAll (index + 1) vs es

pub split_evidence-CitesAll :
    (text_of : Chunk → Text) (bounded : Text) (offset index : ℕ) (vs : List (Chunk × ℕ))
    → CitesAll index vs (split_evidence text_of bounded offset index vs)
unfolding split_evidence
split_evidence-CitesAll text_of bounded offset index [] = tt
split_evidence-CitesAll text_of bounded offset index ((c, v) ∷ vs) = (
  (refl, refl, refl, refl, refl, refl, refl),
  split_evidence-CitesAll text_of bounded (offset + length (text_of c)) (index + 1) vs,
)

abbrev pub citation_ids : List Evidence → List Text
citation_ids = map (λ e. e.citation_id)

cite-injective : (m n : ℕ) → cite m ≡ cite n → m ≡ n
unfolding cite
cite-injective m n h = decimal-injective m n (ground arith)

-- An identifier before the first of a numbered list does not occur in it.
cite-fresh :
    (k index : ℕ) (vs : List (Chunk × ℕ)) (es : List Evidence)
    → k < index
    → CitesAll index vs es
    → contains (cite k) (citation_ids es) ≡ false
cite-fresh k index [] [] h c = refl
cite-fresh k index [] (e ∷ es) h c = absurd c
cite-fresh k index (v ∷ vs) [] h c = absurd c
cite-fresh k index (v ∷ vs) (e ∷ es) h c = rw (
  c.0.0,
  beq_of_ne (cite k) (cite index) (λ p. omega (arith, cite-injective k index p)),
  cite-fresh k (index + 1) vs es (omega arith) c.1,
)

pub citation_ids-distinct :
    (index : ℕ) (vs : List (Chunk × ℕ)) (es : List Evidence)
    → CitesAll index vs es
    → distinct (citation_ids es) ≡ true
citation_ids-distinct index [] [] c = refl
citation_ids-distinct index [] (e ∷ es) c = absurd c
citation_ids-distinct index (v ∷ vs) [] c = absurd c
citation_ids-distinct index (v ∷ vs) (e ∷ es) c = rw (
  c.0.0,
  cite-fresh index (index + 1) vs es (omega arith) c.1,
  citation_ids-distinct (index + 1) vs es c.1,
)
