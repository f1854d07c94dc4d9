-- ===== src/Examples/Machines.antt =====
-- Instances of state_machine.py.
use mama_gift.Api.StateMachine.{document_status_eq, indexing, job_status_eq, ready_for_review}
use mama_gift.Api.StateMachine.Laws.{DocumentRun, review_reachable}
use mama_gift.Base.{list_eq, nat_eq, option_eq, string_eq}

review_reachable_example : DocumentRun indexing ready_for_review
review_reachable_example = review_reachable indexing (λ e. cc)
