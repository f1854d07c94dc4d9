-- ===== src/Retrieval/Rerank/Archive.antt =====
-- What the check of archive candidates accepts.
use mama_gift.Base.{
  >>=-eq-ok, All, All-map, Bool-cases, List, Option, String, [], ap, arith, beq_refl, distinct,
  eq_iff, false, guard, guard-eq-ok, inl, inr, list_eq, map, nat_eq, none, not, ok, ok-injective,
  option_eq, refl, some, string_eq, subst, sym, true, ℕ, ◌==◌, ◌∙◌, ◌∷◌, ◌≡◌, ◌≢◌,
}
use mama_gift.Retrieval.ArchiveEvidence.{is_allowed_document, is_blank}
use mama_gift.Retrieval.Chunk.{Chunk, ScoredChunk}
use mama_gift.Retrieval.Rerank.{
  DocProvenance, check_archive_candidate, check_archive_candidates, check_provenance,
  find_provenance, validate_archive_rerank_candidates, version_of,
}
use mama_gift.Retrieval.Rerank.Laws.{Shares}

-- Two chunks of one document share version and parse run with the recorded ones.
abbrev Agrees : List DocProvenance → Chunk → Type 0
Agrees known c =
    (p : DocProvenance)
    → find_provenance c.document_id known ≡ some p
    → (c.document_version ≡ some p.version) × (c.parse_run_id ≡ p.parse_run)

-- A candidate with complete provenance, of an allowed document.
pub record Complete (allowed : Option (List String)) (c : Chunk) : Type 0 where
  pub has_document : is_blank c.document_id ≡ false
  pub has_run : is_blank c.parse_run_id ≡ false
  pub has_version : c.document_version ≢ none
  pub is_allowed_one : is_allowed_document allowed c.document_id ≡ true

-- Chunks of the same document have the same version and parse run.
abbrev pub Consistent : Chunk → Chunk → Type 0
Consistent c d = d.document_id ≡ c.document_id → Shares d c

-- Every chunk is consistent with those behind it.
abbrev pub AllConsistent : List Chunk → Type 0
AllConsistent [] = Unit
AllConsistent (c ∷ cs) = All (Consistent c) cs × AllConsistent cs

version_of_lem : (c : Chunk) {v : ℕ} → version_of c ≡ ok v → c.document_version ≡ some v
unfolding version_of
version_of_lem c h = ground arith

-- The record that a document's first candidate adds.
abbrev recorded_by : Chunk → ℕ → DocProvenance
recorded_by c v = record { doc_id = c.document_id; version = v; parse_run = c.parse_run_id }

-- The second dictionary knows the candidate, and all that the first one knew.
record Extends (c : Chunk) (v : ℕ) (known known' : List DocProvenance) : Type 0 where
  own : DocProvenance
  own_found : find_provenance c.document_id known' ≡ some own
  own_version : own.version ≡ v
  own_run : own.parse_run ≡ c.parse_run_id
  keeps :
      (id : String) (p : DocProvenance)
      → find_provenance id known ≡ some p
      → find_provenance id known' ≡ some p

find_own :
    (c : Chunk) (v : ℕ) (known : List DocProvenance)
    → find_provenance c.document_id (recorded_by c v ∷ known) ≡ some (recorded_by c v)
unfolding find_provenance
find_own c v known = rw (beq_refl c.document_id) refl

find_kept :
    (c : Chunk) (v : ℕ) (known : List DocProvenance) (id : String) (p : DocProvenance)
    → find_provenance c.document_id known ≡ none
    → find_provenance id known ≡ some p
    → find_provenance id (recorded_by c v ∷ known) ≡ some p
unfolding find_provenance
find_kept c v known id p f g = elim (Bool-cases (id == c.document_id)) [
  | inl y ↦
      let same = (eq_iff id c.document_id).0 y in
      absurd (let g' = subst (λ i. find_provenance i known ≡ some p) same g in cc)
  | inr n ↦ rw n g
]

check_provenance-Extends :
    (c : Chunk) (v : ℕ) (known known' : List DocProvenance) (o : Option DocProvenance)
    → find_provenance c.document_id known ≡ o
    → check_provenance c v known o ≡ ok known'
    → Extends c v known known'
unfolding check_provenance
check_provenance-Extends c v known known' none f h =
    subst (Extends c v known) (ok-injective h) (record {
      own = recorded_by c v;
      own_found = find_own c v known;
      own_version = refl;
      own_run = refl;
      keeps = λ id p g. find_kept c v known id p f g;
    })
check_provenance-Extends c v known known' (some p) f h =
    let same : known ≡ known' = ground arith in
    subst (Extends c v known) same (record {
      own = p;
      own_found = f;
      own_version = ground arith;
      own_run = ground (arith, eq_iff p.parse_run c.parse_run_id);
      keeps = λ id q g. g;
    })

-- A candidate's step: it is complete, and the dictionary grows by it.
record Steps (allowed : Option (List String)) (known known' : List DocProvenance) (c : Chunk)
    : Type 0 where
  complete : Complete allowed c
  version : ℕ
  has_it : c.document_version ≡ some version
  extends : Extends c version known known'

check_archive_candidate-Steps :
    (allowed : Option (List String)) (known known' : List DocProvenance) (c : Chunk)
    → check_archive_candidate allowed known c ≡ ok known'
    → Steps allowed known known' c
unfolding check_archive_candidate
check_archive_candidate-Steps allowed known known' c h =
    let (u1, g1, h1) = >>=-eq-ok (guard (not (is_blank c.document_id)) _) _ h in
    let (u2, g2, h2) = >>=-eq-ok (guard (not (is_blank c.parse_run_id)) _) _ h1 in
    let (v, g3, h3) = >>=-eq-ok (version_of c) _ h2 in
    let (u4, g4, h4) = >>=-eq-ok (guard (is_allowed_document allowed c.document_id) _) _ h3 in
    record {
      complete = record {
        has_document = ground (arith, guard-eq-ok _ _ g1);
        has_run = ground (arith, guard-eq-ok _ _ g2);
        has_version = λ e. ground (arith, e, version_of_lem c g3);
        is_allowed_one = guard-eq-ok _ _ g4;
      };
      version = v;
      has_it = version_of_lem c g3;
      extends = check_provenance-Extends c v known known' _ refl h4;
    }

Steps-Consistent :
    (allowed : Option (List String)) (known known' : List DocProvenance) (c d : Chunk)
    → Steps allowed known known' c
    → Agrees known' d
    → Consistent c d
Steps-Consistent allowed known known' c d s a e =
    let x = s.extends in
    let (v, r) = a x.own (subst (λ i. find_provenance i known' ≡ some x.own) (sym e) x.own_found) in
    (e, v ∙ (ap some x.own_version ∙ sym s.has_it), r ∙ x.own_run)

Steps-Agrees :
    (allowed : Option (List String)) (known known' : List DocProvenance) (c : Chunk)
    → Steps allowed known known' c
    → Agrees known c
Steps-Agrees allowed known known' c s p f =
    let x = s.extends in
    let found = x.keeps c.document_id p f in
    let same : x.own ≡ p = ground (arith, x.own_found) in
    (
      s.has_it ∙ (ap some (sym x.own_version) ∙ ap (λ (q : DocProvenance). some q.version) same),
      sym x.own_run ∙ ap (λ (q : DocProvenance). q.parse_run) same,
    )

check_archive_candidates_lem :
    (allowed : Option (List String)) (known : List DocProvenance) (cs : List Chunk)
    → check_archive_candidates allowed known cs ≡ ok tt
    → All (Complete allowed) cs × AllConsistent cs × All (Agrees known) cs
unfolding check_archive_candidates
check_archive_candidates_lem allowed known [] h = (tt, tt, tt)
check_archive_candidates_lem allowed known (c ∷ cs) h =
    let (known', g, h') = >>=-eq-ok (check_archive_candidate allowed known c) _ h in
    let s = check_archive_candidate-Steps allowed known known' c g in
    let (complete, consistent, agrees) = check_archive_candidates_lem allowed known' cs h' in
    (
      (s.complete, complete),
      (
        All-map (Agrees known') (Consistent c) cs
            (λ d a. Steps-Consistent allowed known known' c d s a) agrees,
        consistent,
      ),
      (
        Steps-Agrees allowed known known' c s,
        All-map (Agrees known') (Agrees known) cs
            (λ d a p f. a p (s.extends.keeps d.document_id p f)) agrees,
      ),
    )

module _ {Score : Type 0} where
  -- Candidates that pass the archive check are of distinct chunks; each has a document, a parse run and
  -- a version and is of an allowed document; and any two of one document share version and parse
  -- run, so that a stale version never mixes with a current one.
  pub validate_archive_rerank_candidates_sound :
      (candidates : List (ScoredChunk Score)) (allowed : Option (List String))
      → validate_archive_rerank_candidates candidates allowed ≡ ok tt
      → (distinct (map (λ c. c.chunk.chunk_id) candidates) ≡ true)
        × All (Complete allowed) (map (λ c. c.chunk) candidates)
        × AllConsistent (map (λ c. c.chunk) candidates)
  unfolding validate_archive_rerank_candidates
  validate_archive_rerank_candidates_sound candidates allowed h =
      let (u, g, k) = >>=-eq-ok (guard (distinct (map (λ c. c.chunk.chunk_id) candidates)) _) _ h in
      let (complete, consistent, agrees) =
        check_archive_candidates_lem allowed [] (map (λ c. c.chunk) candidates) k in
      (guard-eq-ok _ _ g, complete, consistent)
