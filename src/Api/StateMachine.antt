-- ===== src/Api/StateMachine.antt =====
-- state_machine.py: the two machines, declared as tables, and the guards that enforce them.
pub mod Laws
use mama_gift.Base.{
  Bool, Eq, List, Result, [], arith, contains, eq_by_place, guard, list_eq, nat_eq, option_eq,
  string_eq, ℕ, ◌∷◌, ◌≡◌,
}

pub data DocumentStatus : Type 0 where
  uploaded inspecting queued_for_parse parsing normalizing structuring : DocumentStatus
  ready_for_review indexing ready parse_failed unsupported : DocumentStatus

pub data JobStatus : Type 0 where
  queued leased running succeeded failed_retryable failed_terminal : JobStatus

abbrev pub document_place : DocumentStatus → ℕ
document_place uploaded = 0
document_place inspecting = 1
document_place queued_for_parse = 2
document_place parsing = 3
document_place normalizing = 4
document_place structuring = 5
document_place ready_for_review = 6
document_place indexing = 7
document_place ready = 8
document_place parse_failed = 9
document_place unsupported = 10

abbrev pub job_place : JobStatus → ℕ
job_place queued = 0
job_place leased = 1
job_place running = 2
job_place succeeded = 3
job_place failed_retryable = 4
job_place failed_terminal = 5

pub document_place-injective : (a b : DocumentStatus) → document_place a ≡ document_place b → a ≡ b
document_place-injective a b h = ground arith

pub job_place-injective : (a b : JobStatus) → job_place a ≡ job_place b → a ≡ b
job_place-injective a b h = ground arith

instance abbrev pub document_status_eq : Eq DocumentStatus
document_status_eq = eq_by_place document_place document_place-injective

instance abbrev pub job_status_eq : Eq JobStatus
job_status_eq = eq_by_place job_place job_place-injective

-- DOCUMENT_TRANSITIONS
unfoldable pub document_transitions : DocumentStatus → List DocumentStatus
document_transitions uploaded = inspecting ∷ queued_for_parse ∷ unsupported ∷ []
document_transitions inspecting = queued_for_parse ∷ parsing ∷ unsupported ∷ parse_failed ∷ []
document_transitions queued_for_parse = inspecting ∷ parsing ∷ parse_failed ∷ []
document_transitions parsing = normalizing ∷ queued_for_parse ∷ parse_failed ∷ unsupported ∷ []
document_transitions normalizing = structuring ∷ parse_failed ∷ []
document_transitions structuring = ready_for_review ∷ parse_failed ∷ []
document_transitions ready_for_review = queued_for_parse ∷ indexing ∷ ready ∷ []
document_transitions indexing = ready ∷ parse_failed ∷ []
document_transitions ready = queued_for_parse ∷ []
document_transitions parse_failed = queued_for_parse ∷ []
document_transitions unsupported = []

-- JOB_TRANSITIONS
unfoldable pub job_transitions : JobStatus → List JobStatus
job_transitions queued = leased ∷ []
job_transitions leased = running ∷ queued ∷ []
job_transitions running = succeeded ∷ failed_retryable ∷ failed_terminal ∷ queued ∷ []
job_transitions failed_retryable = queued ∷ failed_terminal ∷ []
job_transitions succeeded = []
job_transitions failed_terminal = []

abbrev pub terminal_job_statuses : List JobStatus
terminal_job_statuses = succeeded ∷ failed_terminal ∷ []

-- IllegalTransitionError: the machine, with the current status and the target
pub data IllegalTransition : Type 0 where
  illegal_document : DocumentStatus → DocumentStatus → IllegalTransition
  illegal_job : JobStatus → JobStatus → IllegalTransition

unfoldable pub can_transition_document : DocumentStatus → DocumentStatus → Bool
unfolding document_transitions
can_transition_document current target = contains target (document_transitions current)

unfoldable pub can_transition_job : JobStatus → JobStatus → Bool
unfolding job_transitions
can_transition_job current target = contains target (job_transitions current)

unfoldable pub assert_document_transition :
    DocumentStatus → DocumentStatus → Result IllegalTransition (Unit {0})
unfolding can_transition_document
assert_document_transition current target =
    guard (can_transition_document current target) (illegal_document current target)

unfoldable pub assert_job_transition : JobStatus → JobStatus → Result IllegalTransition (Unit {0})
unfolding can_transition_job
assert_job_transition current target =
    guard (can_transition_job current target) (illegal_job current target)
