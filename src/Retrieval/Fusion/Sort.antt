-- ===== src/Retrieval/Fusion/Sort.antt =====
-- The order of the fused entries.
use mama_gift.Base.{
  All, Bool-cases, List, String, [], arith, beq_sym, contains, distinct, false, inl, inr, list_eq,
  nat_eq, option_eq, refl, string_eq, subst, true, ◌∙◌, ◌∷◌, ◌≡◌,
}
use mama_gift.Retrieval.Chunk.{Chunk}
use mama_gift.Retrieval.Fusion.{FusedEntry, ScoreOps, entry_before, insert_entry, sort_entries}
use mama_gift.Retrieval.Fusion.Merge.{Known, Merged, entry_ids}

module _ {Score : Type 0} where
  -- The test for a greater score never holds both ways, as of Python's floats.
  abbrev pub Asymmetric : ScoreOps Score → Type 0
  Asymmetric ops = (a b : Score) → ops.greater a b ≡ true → ops.greater b a ≡ false

  -- no entry has a greater score than the one in front of it
  abbrev pub Ordered : ScoreOps Score → List (FusedEntry Score) → Type 0
  Ordered ops [] = Unit
  Ordered ops (e ∷ []) = Unit
  Ordered ops (e ∷ f ∷ es) = (ops.greater f.total e.total ≡ false) × Ordered ops (f ∷ es)

  before_lem :
      (ops : ScoreOps Score) (a b : FusedEntry Score)
      → Asymmetric ops
      → entry_before ops a b ≡ true
      → ops.greater b.total a.total ≡ false
  unfolding entry_before
  before_lem ops a b asym h = ground (arith, asym a.total b.total)

  not_before_lem :
      (ops : ScoreOps Score) (a b : FusedEntry Score)
      → entry_before ops a b ≡ false
      → ops.greater a.total b.total ≡ false
  unfolding entry_before
  not_before_lem ops a b h = ground arith

  insert_skip :
      (ops : ScoreOps Score) (e x : FusedEntry Score) (xs : List (FusedEntry Score))
      → entry_before ops x e ≡ true
      → insert_entry ops e (x ∷ xs) ≡ x ∷ insert_entry ops e xs
  unfolding insert_entry
  insert_skip ops e x xs h = rw h refl

  insert_here :
      (ops : ScoreOps Score) (e x : FusedEntry Score) (xs : List (FusedEntry Score))
      → entry_before ops x e ≡ false
      → insert_entry ops e (x ∷ xs) ≡ e ∷ x ∷ xs
  unfolding insert_entry
  insert_here ops e x xs h = rw h refl

  insert_nil : (ops : ScoreOps Score) (e : FusedEntry Score) → insert_entry ops e [] ≡ e ∷ []
  unfolding insert_entry
  insert_nil ops e = refl

  insert_entry-Ordered :
      (ops : ScoreOps Score) (e : FusedEntry Score) (es : List (FusedEntry Score))
      → Asymmetric ops
      → Ordered ops es
      → Ordered ops (insert_entry ops e es)
  insert_entry-Ordered ops e [] asym o = rw (insert_nil ops e) tt
  insert_entry-Ordered ops e (x ∷ []) asym o = elim (Bool-cases (entry_before ops x e)) [
    | inl y ↦ rw (insert_skip ops e x [] y, insert_nil ops e) (before_lem ops x e asym y, tt)
    | inr n ↦ rw (insert_here ops e x [] n) (not_before_lem ops x e n, tt)
  ]
  insert_entry-Ordered ops e (x ∷ y ∷ ys) asym o =
      let ih = insert_entry-Ordered ops e (y ∷ ys) asym o.1 in
      elim (Bool-cases (entry_before ops x e)) [
        | inr n ↦ rw (insert_here ops e x (y ∷ ys) n) (not_before_lem ops x e n, o)
        | inl b ↦ elim (Bool-cases (entry_before ops y e)) [
          | inl c ↦
              rw (insert_skip ops e x (y ∷ ys) b, insert_skip ops e y ys c)
                (o.0, subst (Ordered ops) (insert_skip ops e y ys c) ih)
          | inr n ↦
              rw (insert_skip ops e x (y ∷ ys) b, insert_here ops e y ys n)
                (before_lem ops x e asym b, (not_before_lem ops y e n, o.1))
        ]
      ]

  pub sort_entries-Ordered :
      (ops : ScoreOps Score) (es : List (FusedEntry Score))
      → Asymmetric ops
      → Ordered ops (sort_entries ops es)
  unfolding sort_entries
  sort_entries-Ordered ops [] asym = tt
  sort_entries-Ordered ops (e ∷ es) asym =
      insert_entry-Ordered ops e (sort_entries ops es) asym (sort_entries-Ordered ops es asym)

  contains-insert :
      (id : String) (ops : ScoreOps Score) (e : FusedEntry Score) (es : List (FusedEntry Score))
      → contains id (entry_ids (insert_entry ops e es)) ≡ contains id (entry_ids (e ∷ es))
  unfolding insert_entry
  contains-insert id ops e [] = refl
  contains-insert id ops e (x ∷ xs) = ground (arith, contains-insert id ops e xs)

  distinct-insert :
      (ops : ScoreOps Score) (e : FusedEntry Score) (es : List (FusedEntry Score))
      → distinct (entry_ids (e ∷ es)) ≡ true
      → distinct (entry_ids (insert_entry ops e es)) ≡ true
  unfolding insert_entry
  distinct-insert ops e [] d = d
  distinct-insert ops e (x ∷ xs) d = ground (
    arith,
    contains-insert x.chunk.chunk_id ops e xs,
    distinct-insert ops e xs,
    beq_sym e.chunk.chunk_id x.chunk.chunk_id,
  )

  insert-All {ℓ} :
      (P : FusedEntry Score → Type ℓ) (ops : ScoreOps Score) (e : FusedEntry Score)
      (es : List (FusedEntry Score))
      → P e
      → All P es
      → All P (insert_entry ops e es)
  insert-All P ops e [] p a = rw (insert_nil ops e) (p, tt)
  insert-All P ops e (x ∷ xs) p a = elim (Bool-cases (entry_before ops x e)) [
    | inl y ↦ rw (insert_skip ops e x xs y) (a.0, insert-All P ops e xs p a.1)
    | inr n ↦ rw (insert_here ops e x xs n) (p, a)
  ]

  contains-sort :
      (id : String) (ops : ScoreOps Score) (es : List (FusedEntry Score))
      → contains id (entry_ids (sort_entries ops es)) ≡ contains id (entry_ids es)
  unfolding sort_entries
  contains-sort id ops [] = refl
  contains-sort id ops (e ∷ es) =
      ground (arith, contains-insert id ops e (sort_entries ops es), contains-sort id ops es)

  distinct-sort :
      (ops : ScoreOps Score) (es : List (FusedEntry Score))
      → distinct (entry_ids es) ≡ true
      → distinct (entry_ids (sort_entries ops es)) ≡ true
  unfolding sort_entries
  distinct-sort ops [] d = refl
  distinct-sort ops (e ∷ es) d = ground (
    arith,
    distinct-insert ops e (sort_entries ops es),
    distinct-sort ops es,
    contains-sort e.chunk.chunk_id ops es,
  )

  sort-All {ℓ} :
      (P : FusedEntry Score → Type ℓ) (ops : ScoreOps Score) (es : List (FusedEntry Score))
      → All P es
      → All P (sort_entries ops es)
  unfolding sort_entries
  sort-All P ops [] a = tt
  sort-All P ops (e ∷ es) a = insert-All P ops e (sort_entries ops es) a.0 (sort-All P ops es a.1)

  pub sort_entries-Merged :
      (ops : ScoreOps Score) (P : Chunk → Type 0) (ids : List String) (es : List (FusedEntry Score))
      → Merged P ids es
      → Merged P ids (sort_entries ops es)
  sort_entries-Merged ops P ids es m = record {
    unique = distinct-sort ops es m.unique;
    origin = sort-All (Known P) ops es m.origin;
    complete = λ id. contains-sort id ops es ∙ m.complete id;
  }
