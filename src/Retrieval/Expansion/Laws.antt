-- ===== src/Retrieval/Expansion/Laws.antt =====
-- What the expansion of a list of candidates holds.
use mama_gift.Base.{
  >>=-eq-ok, All, All-append, All-map, Bool-cases, Fresh, Fresh-append, Fresh-cons, In, List,
  Option, String, [], append-Fresh, arith, at_head, beq_refl, contains, contains-append, distinct,
  distinct-append, false, guard, guard-eq-ok, in_tail, inl, inr, leb, leb→le, length, length-append,
  list_eq, map-append, nat_eq, not, ok, ok-injective, option_eq, refl, string_eq, subst, true, ℕ,
  ◌*◌, ◌++◌, ◌||◌, ◌∷◌, ◌≡◌, ◌≤◌, ◌⊎◌,
}
use mama_gift.Retrieval.Chunk.{Chunk, ScoredChunk}
use mama_gift.Retrieval.Expansion.{
  add_chunk, available_chunks, both_given, climb, expand_all, expand_evidence, max_ancestor_depth,
  result_ids,
}
use mama_gift.Retrieval.Expansion.Climb.{
  ContextOf, SameProvenance, climb-ContextOf, climb-Fresh, length-climb, self,
}
use mama_gift.Retrieval.Scope.{EvidenceScope}

cons_distinct :
    (id : String) (xs ys : List String)
    → contains id (xs ++ ys) ≡ false
    → distinct xs ≡ true
    → distinct ys ≡ true
    → Fresh xs ys
    → distinct (id ∷ (xs ++ ys)) ≡ true
cons_distinct id xs ys n d d' f = ground (arith, distinct-append xs ys d d' f)

emits_step :
    (x id : String) (xs ys emitted : List String)
    → (contains x ys || contains x (xs ++ (id ∷ emitted))) ≡ true
    → (contains x (id ∷ (xs ++ ys)) || contains x emitted) ≡ true
emits_step x id xs ys emitted h =
    ground (arith, contains-append x xs (id ∷ emitted), contains-append x xs ys)

module _ {Score : Type 0} where
  -- A candidate, or a context chunk of one at most `max_depth` steps above it.
  abbrev pub FromCandidate :
      ℕ → EvidenceScope → List (ScoredChunk Score) → ScoredChunk Score → Type 0
  FromCandidate max_depth scope candidates r =
      (c : ScoredChunk Score) × In c candidates × ((r ≡ c) ⊎ ContextOf max_depth scope c r)

  abbrev Emits : List String → List (ScoredChunk Score) → ScoredChunk Score → Type 0
  Emits emitted result c =
      (contains c.chunk.chunk_id (result_ids result) || contains c.chunk.chunk_id emitted) ≡ true

  -- The expansion of a list of candidates, over the chunks emitted before it.
  record Expands (max_depth : ℕ) (scope : EvidenceScope) (emitted : List String)
      (candidates : List (ScoredChunk Score)) (result : List (ScoredChunk Score)) : Type 0 where
    origin : All (FromCandidate max_depth scope candidates) result
    fresh : Fresh emitted (result_ids result)
    unique : distinct (result_ids result) ≡ true
    kept : All (Emits emitted result) candidates
    bounded : length result ≤ 4 * length candidates

  later :
      (max_depth : ℕ) (scope : EvidenceScope) (c : ScoredChunk Score)
      (cs rs : List (ScoredChunk Score))
      → All (FromCandidate max_depth scope cs) rs
      → All (FromCandidate max_depth scope (c ∷ cs)) rs
  later max_depth scope c cs rs =
      All-map (FromCandidate max_depth scope cs) (FromCandidate max_depth scope (c ∷ cs)) rs
        (λ r f. (f.0, in_tail c f.1, f.2))

  context_origin :
      (max_depth : ℕ) (scope : EvidenceScope) (c : ScoredChunk Score)
      (cs rs : List (ScoredChunk Score))
      → All (ContextOf max_depth scope c) rs
      → All (FromCandidate max_depth scope (c ∷ cs)) rs
  context_origin max_depth scope c cs rs =
      All-map (ContextOf max_depth scope c) (FromCandidate max_depth scope (c ∷ cs)) rs
        (λ r f. (c, at_head cs, inr f))

  Expands-skip :
      (max_depth : ℕ) (scope : EvidenceScope) (emitted : List String) (c : ScoredChunk Score)
      (cs rs : List (ScoredChunk Score))
      → contains c.chunk.chunk_id emitted ≡ true
      → Expands max_depth scope emitted cs rs
      → Expands max_depth scope emitted (c ∷ cs) rs
  Expands-skip max_depth scope emitted c cs rs seen e = record {
    origin = later max_depth scope c cs rs e.origin;
    fresh = e.fresh;
    unique = e.unique;
    kept = (ground arith, e.kept);
    bounded = omega (arith, e.bounded);
  }

  Expands-emit :
      (max_depth : ℕ) (scope : EvidenceScope) (emitted : List String) (c : ScoredChunk Score)
      (cs context rs : List (ScoredChunk Score))
      → contains c.chunk.chunk_id emitted ≡ false
      → All (ContextOf max_depth scope c) context
      → length context ≤ 3
      → Fresh (c.chunk.chunk_id ∷ emitted) (result_ids context)
      → distinct (result_ids context) ≡ true
      → Expands max_depth scope (result_ids context ++ (c.chunk.chunk_id ∷ emitted)) cs rs
      → Expands max_depth scope emitted (c ∷ cs) (c ∷ (context ++ rs))
  Expands-emit max_depth scope emitted c cs context rs new climbed short fresh unique e =
      let id = c.chunk.chunk_id in
      let (apart, behind) =
        Fresh-append (result_ids context) (id ∷ emitted) (result_ids rs) e.fresh in
      let both = map-append (λ (r : ScoredChunk Score). r.chunk.chunk_id) context rs in
      let (old, own) =
        (Fresh-cons id emitted (result_ids context ++ result_ids rs)).0
          (append-Fresh (id ∷ emitted) (result_ids context) (result_ids rs) fresh behind) in
      record {
        origin = (
          (c, at_head cs, inl refl),
          All-append (FromCandidate max_depth scope (c ∷ cs)) context rs
              (context_origin max_depth scope c cs context climbed)
              (later max_depth scope c cs rs e.origin),
        );
        fresh = (new, rw both old);
        unique =
            rw both
              (cons_distinct id (result_ids context) (result_ids rs) own unique e.unique apart);
        kept = (
          ground (arith, beq_refl id),
          All-map (Emits (result_ids context ++ (id ∷ emitted)) rs)
              (Emits emitted (c ∷ (context ++ rs))) cs
              (λ d k.
                rw both
                  (emits_step d.chunk.chunk_id id (result_ids context) (result_ids rs) emitted k))
              e.kept,
        );
        bounded = omega (arith, e.bounded, short, length-append context rs);
      }

  expand_seen :
      (max_depth : ℕ) (scope : EvidenceScope) (by_id : List Chunk) (emitted : List String)
      (c : ScoredChunk Score) (cs : List (ScoredChunk Score))
      → contains c.chunk.chunk_id emitted ≡ true
      → expand_all max_depth scope by_id emitted (c ∷ cs)
        ≡ expand_all max_depth scope by_id emitted cs
  unfolding expand_all
  expand_seen max_depth scope by_id emitted c cs seen = rw seen refl

  expand_new :
      (max_depth : ℕ) (scope : EvidenceScope) (by_id : List Chunk) (emitted : List String)
      (c : ScoredChunk Score) (cs : List (ScoredChunk Score))
      → contains c.chunk.chunk_id emitted ≡ false
      → expand_all max_depth scope by_id emitted (c ∷ cs)
        ≡ c
          ∷ (climb max_depth (add_chunk c.chunk by_id) scope c (c.chunk.chunk_id ∷ emitted) c.chunk
              ++ expand_all max_depth scope
                  (add_chunk c.chunk by_id)
                  (result_ids (
                      climb max_depth
                        (add_chunk c.chunk by_id)
                        scope
                        c
                        (c.chunk.chunk_id ∷ emitted)
                        c.chunk)
                    ++ (c.chunk.chunk_id ∷ emitted))
                  cs)
  unfolding expand_all
  expand_new max_depth scope by_id emitted c cs new = rw new refl

  Expands-nil :
      (max_depth : ℕ) (scope : EvidenceScope) (by_id : List Chunk) (emitted : List String)
      → Expands max_depth scope emitted [] (expand_all max_depth scope by_id emitted [])
  unfolding expand_all
  Expands-nil max_depth scope by_id emitted = record {
    origin = tt;
    fresh = tt;
    unique = refl;
    kept = tt;
    bounded = omega arith;
  }

  expand_all-Expands :
      (max_depth : ℕ) (scope : EvidenceScope) (by_id : List Chunk) (emitted : List String)
      (cs : List (ScoredChunk Score))
      → max_depth ≤ 3
      → Expands max_depth scope emitted cs (expand_all max_depth scope by_id emitted cs)
  expand_all-Expands max_depth scope by_id emitted [] le = Expands-nil max_depth scope by_id emitted
  expand_all-Expands max_depth scope by_id emitted (c ∷ cs) le =
      let seen = c.chunk.chunk_id ∷ emitted in
      let known = add_chunk c.chunk by_id in
      let context = climb max_depth known scope c seen c.chunk in
      let same : SameProvenance c.chunk c.chunk = record {
        document = refl;
        run = refl;
        version = refl;
      } in
      let (fresh, unique) = climb-Fresh max_depth known scope c seen c.chunk in
      elim (Bool-cases (contains c.chunk.chunk_id emitted)) [
        | inl old ↦ rw (expand_seen max_depth scope by_id emitted c cs old) (
            Expands-skip max_depth scope emitted c cs _ old
              (expand_all-Expands max_depth scope by_id emitted cs le))
        | inr new ↦ rw (expand_new max_depth scope by_id emitted c cs new) (
            Expands-emit max_depth scope emitted c cs context _ new
              (climb-ContextOf max_depth known scope c seen c.chunk max_depth 0 (omega arith) self
                same)
              (omega (arith, length-climb max_depth known scope c seen c.chunk)) fresh unique
              (expand_all-Expands max_depth scope known (result_ids context ++ seen) cs le))
      ]

  -- A successful expansion was asked for at most three levels and given one source of chunks. Its
  -- result holds no chunk twice and every candidate's chunk, at most four chunks for each candidate;
  -- and each chunk of it is a candidate, or an ancestor of one, at most the asked-for number of levels
  -- above it, that is of the request and of the candidate's own document, parse run and version, so that
  -- no sibling is ever added.
  pub expand_evidence_sound :
      (cs : List (ScoredChunk Score)) (scope : EvidenceScope)
      (chunk_tree chunks : Option (List Chunk)) (max_depth : ℕ) {result : List (ScoredChunk Score)}
      → expand_evidence cs scope chunk_tree chunks max_depth ≡ ok result
      → (max_depth ≤ 3)
        × (both_given chunk_tree chunks ≡ false)
        × All (FromCandidate max_depth scope cs) result
        × (distinct (result_ids result) ≡ true)
        × All (λ c. contains c.chunk.chunk_id (result_ids result) ≡ true) cs
        × (length result ≤ 4 * length cs)
  unfolding expand_evidence
  expand_evidence_sound cs scope chunk_tree chunks max_depth {result} h =
      let (u, g, h1) = >>=-eq-ok (guard (leb max_depth max_ancestor_depth) _) _ h in
      let (v, g2, h2) = >>=-eq-ok (guard (not (both_given chunk_tree chunks)) _) _ h1 in
      let le : max_depth ≤ 3 = leb→le max_depth 3 (guard-eq-ok _ _ g) in
      let e : Expands max_depth scope [] cs result =
        subst (Expands max_depth scope [] cs) (ok-injective h2)
          (expand_all-Expands max_depth scope (available_chunks chunk_tree chunks) [] cs le) in
      (
        le,
        ground (arith, guard-eq-ok _ _ g2),
        e.origin,
        e.unique,
        All-map (Emits [] result) (λ c. contains c.chunk.chunk_id (result_ids result) ≡ true) cs
            (λ c k. ground arith) e.kept,
        e.bounded,
      )
