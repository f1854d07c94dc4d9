-- ===== src/Retrieval/Scope/Laws.antt =====
-- What the leak test of scope.py lets through, and what the authority order decides.
use mama_gift.Base.{
  Option, String, arith, eq_iff, false, list_eq, nat_eq, none, option_beq_iff, option_eq, some,
  string_eq, true, ℕ, ◌↔◌, ◌≡◌, ◌≤◌, ◌⊎◌,
}
use mama_gift.Retrieval.Scope.{
  EvidenceScope, EvidenceSource, authority_rank, blocks, pin_differs, resolve_conflict,
  scope_matches, verified_document_version, version_differs,
}

-- An unset field of the allowed scope admits all; a set one admits the unset and the equal.
abbrev pub Open : Option String → Option String → Type 0
Open allowed candidate = (allowed ≡ none) ⊎ ((candidate ≡ none) ⊎ (candidate ≡ allowed))

-- An unset field of the allowed scope admits all; a set one only itself.
abbrev pub Pinned {ℓ} : {A : Type ℓ} → Option A → Option A → Type ℓ
Pinned allowed candidate = (allowed ≡ none) ⊎ (candidate ≡ allowed)

-- The scope rule as a relation, one field for each condition of the doc comment.
pub record InScope (candidate allowed : EvidenceScope) : Type 0 where
  pub same_family : candidate.family_id ≡ allowed.family_id
  pub user : Open allowed.user_id candidate.user_id
  pub thread : Open allowed.thread_id candidate.thread_id
  pub document : (allowed.archive_scope ≡ true) ⊎ (candidate.document_id ≡ allowed.document_id)
  pub version : Pinned allowed.document_version candidate.document_version
  pub parse_run : Pinned allowed.parse_run_id candidate.parse_run_id

blocks_iff : (a c : Option String) → (blocks a c ≡ false) ↔ Open a c
blocks_iff none c = ground arith
blocks_iff (some a) none = ground arith
blocks_iff (some a) (some c) = ground (arith, eq_iff c a)

pin_iff : (a c : Option String) → (pin_differs a c ≡ false) ↔ Pinned a c
pin_iff none c = ground arith
pin_iff (some a) c = ground (arith, option_beq_iff c (some a))

version_iff : (a c : Option ℕ) → (version_differs a c ≡ false) ↔ Pinned a c
version_iff none c = ground arith
version_iff (some a) c = ground (arith, option_beq_iff c (some a))

pub resolve_conflict_max :
    (a b : EvidenceSource)
    → ((resolve_conflict a b ≡ a) ⊎ (resolve_conflict a b ≡ b))
      × (authority_rank (resolve_conflict a b) ≤ authority_rank a)
      × (authority_rank (resolve_conflict a b) ≤ authority_rank b)
      × (resolve_conflict a b ≡ resolve_conflict b a)
unfolding resolve_conflict
resolve_conflict_max verified_document_version b = ground arith
resolve_conflict_max _ b = ground arith

-- The leak test passes exactly the candidates that the scope rule allows.
pub scope_matches-InScope :
    (candidate allowed : EvidenceScope)
    → (scope_matches candidate allowed ≡ true) ↔ InScope candidate allowed
unfolding scope_matches
scope_matches-InScope c a = (
  λ h. record {
    same_family = ground (arith, eq_iff c.family_id a.family_id);
    user = (blocks_iff a.user_id c.user_id).0 (ground arith);
    thread = (blocks_iff a.thread_id c.thread_id).0 (ground arith);
    document = ground (arith, option_beq_iff c.document_id a.document_id);
    version = (version_iff a.document_version c.document_version).0 (ground arith);
    parse_run = (pin_iff a.parse_run_id c.parse_run_id).0 (ground arith);
  },
  λ h. ground (
    arith,
    eq_iff c.family_id a.family_id,
    (blocks_iff a.user_id c.user_id).1 h.user,
    (blocks_iff a.thread_id c.thread_id).1 h.thread,
    option_beq_iff c.document_id a.document_id,
    (version_iff a.document_version c.document_version).1 h.version,
    (pin_iff a.parse_run_id c.parse_run_id).1 h.parse_run,
    h.same_family,
    h.document,
  ),
)
