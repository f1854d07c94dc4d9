-- ===== src/Retrieval/Expansion/Climb.antt =====
-- One candidate's way up its parents.
use mama_gift.Base.{
  All, Bool-cases, Fresh, Fresh-cons, List, Option-cases, String, [], ap, arith, contains, distinct,
  eq_iff, false, inl, inr, length, list_eq, nat_eq, none, option_eq, refl, some, string_eq, subst,
  suc, sym, true, zero, ℕ, ◌+◌, ◌==◌, ◌∙◌, ◌∷◌, ◌≡◌, ◌≤◌,
}
use mama_gift.Retrieval.Chunk.{Chunk, ScoredChunk, find_chunk}
use mama_gift.Retrieval.Expansion.{
  checked_parent, climb, context_candidate, is_allowed, next_parent, result_ids, same_scope,
}
use mama_gift.Retrieval.Provenance.{InRequest, chunk_scope, chunk_scope-InScope}
use mama_gift.Retrieval.Scope.{EvidenceScope}
use mama_gift.Retrieval.Scope.Laws.{scope_matches-InScope}

-- Two chunks of the same document, parse run and version.
pub record SameProvenance (a b : Chunk) : Type 0 where
  pub document : a.document_id ≡ b.document_id
  pub run : a.parse_run_id ≡ b.parse_run_id
  pub version : a.document_version ≡ b.document_version

-- The second chunk is so many steps above the first, each step from a chunk to its parent.
pub data Ancestor (c : Chunk) : ℕ → Chunk → Type 0 where
  self : Ancestor c 0 c
  above :
      (n : ℕ) (m d : Chunk)
      → Ancestor c n m
      → m.parent_chunk_id ≡ some d.chunk_id
      → Ancestor c (suc n) d

same_scope-SameProvenance :
    (scope : EvidenceScope) (parent current : Chunk)
    → same_scope scope parent current ≡ true
    → SameProvenance parent current
unfolding same_scope chunk_scope
same_scope-SameProvenance scope parent current h =
    let up =
      (scope_matches-InScope (chunk_scope scope parent) (chunk_scope scope current)).0
        (ground arith) in
    let down =
      (scope_matches-InScope (chunk_scope scope current) (chunk_scope scope parent)).0
        (ground arith) in
    record {
      document = ground (arith, up.document);
      run = ground (arith, up.parse_run);
      version = ground (arith, up.version, down.version);
    }

find_chunk-id :
    (id : String) (cs : List Chunk) {c : Chunk} → find_chunk id cs ≡ some c → c.chunk_id ≡ id
unfolding find_chunk
find_chunk-id id [] f = absurd (ground arith)
find_chunk-id id (x ∷ xs) {c} f = elim (Bool-cases (id == x.chunk_id)) [
  | inl e ↦ ground (arith, eq_iff id x.chunk_id)
  | inr e ↦ find_chunk-id id xs {c = c} (ground arith)
]

-- The parent that a walk goes on to.
record IsNext (scope : EvidenceScope) (current parent : Chunk) : Type 0 where
  is_parent : current.parent_chunk_id ≡ some parent.chunk_id
  in_request : InRequest scope parent
  same : SameProvenance parent current

checked_parent-IsNext :
    (scope : EvidenceScope) (current found parent : Chunk)
    → current.parent_chunk_id ≡ some found.chunk_id
    → checked_parent scope current found ≡ some parent
    → IsNext scope current parent
unfolding checked_parent is_allowed
checked_parent-IsNext scope current found parent e h =
    let allowed : is_allowed found scope ≡ true = ground arith in
    let same : same_scope scope found current ≡ true = ground arith in
    subst (IsNext scope current) (ground arith) (record {
      is_parent = e;
      in_request = chunk_scope-InScope scope found allowed;
      same = same_scope-SameProvenance scope found current same;
    })

next_parent-IsNext :
    (by_id : List Chunk) (scope : EvidenceScope) (current parent : Chunk)
    → next_parent by_id scope current ≡ some parent
    → IsNext scope current parent
unfolding next_parent
next_parent-IsNext by_id scope current parent h = elim (Option-cases current.parent_chunk_id) [
  | inl e ↦ ground arith
  | inr (p, e) ↦ elim (Option-cases (find_chunk p by_id)) [
    | inl f ↦ ground arith
    | inr (d, f) ↦
        checked_parent-IsNext scope current d parent (e ∙ ap some (sym (find_chunk-id p by_id f)))
          ground arith
  ]
]

module _ {Score : Type 0} where
  -- A context chunk of a candidate: an ancestor of its chunk at most so many steps above it, of the
  -- request and of the candidate's own document, parse run and version, under the candidate's score,
  -- rank and retriever.
  pub record ContextOf (max_depth : ℕ) (scope : EvidenceScope) (source r : ScoredChunk Score)
      : Type 0 where
    pub steps : ℕ
    pub near : steps ≤ max_depth
    pub ancestor : Ancestor source.chunk steps r.chunk
    pub in_request : InRequest scope r.chunk
    pub same : SameProvenance r.chunk source.chunk
    pub same_score : r.score ≡ source.score
    pub same_rank : r.rank ≡ source.rank
    pub same_retriever : r.retriever ≡ source.retriever

  climb_stop :
      (depth : ℕ) (by_id : List Chunk) (scope : EvidenceScope) (source : ScoredChunk Score)
      (emitted : List String) (current : Chunk)
      → next_parent by_id scope current ≡ none
      → climb (suc depth) by_id scope source emitted current ≡ []
  unfolding climb
  climb_stop depth by_id scope source emitted current e = rw (e, climb) refl

  climb_skip :
      (depth : ℕ) (by_id : List Chunk) (scope : EvidenceScope) (source : ScoredChunk Score)
      (emitted : List String) (current parent : Chunk)
      → next_parent by_id scope current ≡ some parent
      → contains parent.chunk_id emitted ≡ true
      → climb (suc depth) by_id scope source emitted current
        ≡ climb depth by_id scope source emitted parent
  unfolding climb
  climb_skip depth by_id scope source emitted current parent e seen = rw (e, climb) (rw seen refl)

  climb_emit :
      (depth : ℕ) (by_id : List Chunk) (scope : EvidenceScope) (source : ScoredChunk Score)
      (emitted : List String) (current parent : Chunk)
      → next_parent by_id scope current ≡ some parent
      → contains parent.chunk_id emitted ≡ false
      → climb (suc depth) by_id scope source emitted current
        ≡ context_candidate source parent
          ∷ climb depth by_id scope source (parent.chunk_id ∷ emitted) parent
  unfolding climb
  climb_emit depth by_id scope source emitted current parent e new = rw (e, climb) (rw new refl)

  pub climb-ContextOf :
      (depth : ℕ) (by_id : List Chunk) (scope : EvidenceScope) (source : ScoredChunk Score)
      (emitted : List String) (current : Chunk) (max_depth steps : ℕ)
      → steps + depth ≤ max_depth
      → Ancestor source.chunk steps current
      → SameProvenance current source.chunk
      → All (ContextOf max_depth scope source) (climb depth by_id scope source emitted current)
  unfolding climb context_candidate
  climb-ContextOf zero by_id scope source emitted current max_depth steps le a s = tt
  climb-ContextOf (suc depth) by_id scope source emitted current max_depth steps le a s =
      elim (Option-cases (next_parent by_id scope current)) [
        | inl e ↦ rw (climb_stop depth by_id scope source emitted current e) tt
        | inr (d, e) ↦
            let n = next_parent-IsNext by_id scope current d e in
            let a' : Ancestor source.chunk (suc steps) d = above steps current d a n.is_parent in
            let s' : SameProvenance d source.chunk = record {
              document = n.same.document ∙ s.document;
              run = n.same.run ∙ s.run;
              version = n.same.version ∙ s.version;
            } in
            let skip =
              climb-ContextOf depth by_id scope source emitted d max_depth (suc steps) (omega arith)
                a' s' in
            let take_d =
              climb-ContextOf depth by_id scope source (d.chunk_id ∷ emitted) d max_depth
                (suc steps) (omega arith) a' s' in
            elim (Bool-cases (contains d.chunk_id emitted)) [
              | inl seen ↦ rw (climb_skip depth by_id scope source emitted current d e seen) skip
              | inr unseen ↦ rw (climb_emit depth by_id scope source emitted current d e unseen) (
                  (
                    record {
                      steps = suc steps;
                      near = omega arith;
                      ancestor = a';
                      in_request = n.in_request;
                      same = s';
                      same_score = refl;
                      same_rank = refl;
                      same_retriever = refl;
                    },
                    take_d,
                  ))
            ]
      ]

  pub length-climb :
      (depth : ℕ) (by_id : List Chunk) (scope : EvidenceScope) (source : ScoredChunk Score)
      (emitted : List String) (current : Chunk)
      → length (climb depth by_id scope source emitted current) ≤ depth
  unfolding climb
  length-climb zero by_id scope source emitted current = ground arith
  length-climb (suc depth) by_id scope source emitted current =
      elim (Option-cases (next_parent by_id scope current)) [
        | inl e ↦ rw (climb_stop depth by_id scope source emitted current e) (omega arith)
        | inr (d, e) ↦ elim (Bool-cases (contains d.chunk_id emitted)) [
          | inl seen ↦
              rw (climb_skip depth by_id scope source emitted current d e seen)
                (omega (arith, length-climb depth by_id scope source emitted d))
          | inr unseen ↦
              rw (climb_emit depth by_id scope source emitted current d e unseen)
                (omega (arith, length-climb depth by_id scope source (d.chunk_id ∷ emitted) d))
        ]
      ]

  pub climb-Fresh :
      (depth : ℕ) (by_id : List Chunk) (scope : EvidenceScope) (source : ScoredChunk Score)
      (emitted : List String) (current : Chunk)
      → Fresh emitted (result_ids (climb depth by_id scope source emitted current))
        × (distinct (result_ids (climb depth by_id scope source emitted current)) ≡ true)
  unfolding climb context_candidate
  climb-Fresh zero by_id scope source emitted current = (tt, refl)
  climb-Fresh (suc depth) by_id scope source emitted current =
      elim (Option-cases (next_parent by_id scope current)) [
        | inl e ↦ rw (climb_stop depth by_id scope source emitted current e) (tt, refl)
        | inr (d, e) ↦
            let (f, u) = climb-Fresh depth by_id scope source (d.chunk_id ∷ emitted) d in
            let (older, new) = (Fresh-cons d.chunk_id emitted _).0 f in
            elim (Bool-cases (contains d.chunk_id emitted)) [
              | inl seen ↦
                  rw (climb_skip depth by_id scope source emitted current d e seen)
                    (climb-Fresh depth by_id scope source emitted d)
              | inr unseen ↦
                  rw (climb_emit depth by_id scope source emitted current d e unseen)
                    ((unseen, older), ground arith)
            ]
      ]
