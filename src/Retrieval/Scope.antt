-- ===== src/Retrieval/Scope.antt =====
-- scope.py: the evidence scope, the leak test and the authority order of sources.
pub mod Laws
use mama_gift.Base.{
  Bool, Option, String, false, if◌then◌else◌, ltb, nat_eq, none, not, option_eq, some, string_eq,
  true, ℕ, ◌&&◌, ◌==◌,
}

pub data EvidenceSource : Type 0 where
  verified_document_version archive_evidence user_memory episodic_memory : EvidenceSource

-- the table `_AUTHORITY_RANK`; a lower number is a higher authority
unfoldable pub authority_rank : EvidenceSource → ℕ
authority_rank verified_document_version = 0
authority_rank archive_evidence = 1
authority_rank user_memory = 2
authority_rank episodic_memory = 3

unfoldable pub resolve_conflict : EvidenceSource → EvidenceSource → EvidenceSource
unfolding authority_rank
resolve_conflict a b = if ltb (authority_rank a) (authority_rank b) then a else b

pub record EvidenceScope : Type 0 where
  pub family_id : String
  pub user_id : Option String
  pub thread_id : Option String
  pub document_id : Option String
  pub document_version : Option ℕ
  pub parse_run_id : Option String
  pub archive_scope : Bool

-- `candidate not in (None, allowed)`, where the allowed scope names a value
abbrev pub blocks : Option String → Option String → Bool
blocks none candidate = false
blocks (some a) none = false
blocks (some a) (some c) = not (c == a)

-- `allowed is not None and candidate != allowed`
abbrev pub pin_differs : Option String → Option String → Bool
pin_differs none candidate = false
pin_differs (some a) candidate = not (candidate == some a)

abbrev pub version_differs : Option ℕ → Option ℕ → Bool
version_differs none candidate = false
version_differs (some a) candidate = not (candidate == some a)

unfoldable pub scope_matches : EvidenceScope → EvidenceScope → Bool
scope_matches candidate allowed =
    if not (candidate.family_id == allowed.family_id)
    then false
    else if blocks allowed.user_id candidate.user_id
    then false
    else if blocks allowed.thread_id candidate.thread_id
    then false
    else if not allowed.archive_scope && not (candidate.document_id == allowed.document_id)
    then false
    else if version_differs allowed.document_version candidate.document_version
    then false
    else if pin_differs allowed.parse_run_id candidate.parse_run_id
    then false
    else true
