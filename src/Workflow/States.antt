-- ===== src/Workflow/States.antt =====
-- src/workflow/states.js: the two state machines, as data types and transition tables.
pub mod Laws
mod Examples
use ai_distributed_workflow.Base.{
  ℕ, ◌≡◌, refl, Bool, true, false, Option, none, some, List, [], ◌∷◌, ◌==◌, if◌then◌else◌, any,
  is_empty, arith,
}

pub data ExecutionStatus : Type 0 where
  pending running paused waiting_for_approval completed failed cancelled : ExecutionStatus

pub data TaskStatus : Type 0 where
  pending ready queued running retrying waiting_for_approval : TaskStatus
  completed failed dead_letter cancelled : TaskStatus

-- Which of the two tables a call is about.
pub data Machine : Type 0 where
  execution task : Machine

abbrev pub Status : Machine → Type 0
Status execution = ExecutionStatus
Status task = TaskStatus

-- A number for each status, so that `===` on two statuses is a test on numbers.
abbrev pub execution_code : ExecutionStatus → ℕ
execution_code ExecutionStatus.pending = 0
execution_code ExecutionStatus.running = 1
execution_code ExecutionStatus.paused = 2
execution_code ExecutionStatus.waiting_for_approval = 3
execution_code ExecutionStatus.completed = 4
execution_code ExecutionStatus.failed = 5
execution_code ExecutionStatus.cancelled = 6

abbrev pub task_code : TaskStatus → ℕ
task_code TaskStatus.pending = 0
task_code TaskStatus.ready = 1
task_code TaskStatus.queued = 2
task_code TaskStatus.running = 3
task_code TaskStatus.retrying = 4
task_code TaskStatus.waiting_for_approval = 5
task_code TaskStatus.completed = 6
task_code TaskStatus.failed = 7
task_code TaskStatus.dead_letter = 8
task_code TaskStatus.cancelled = 9

abbrev pub same_execution : ExecutionStatus → ExecutionStatus → Bool
same_execution s t = execution_code s == execution_code t

abbrev pub same_task : TaskStatus → TaskStatus → Bool
same_task s t = task_code s == task_code t

abbrev pub same_status : (m : Machine) → Status m → Status m → Bool
same_status execution s t = same_execution s t
same_status task s t = same_task s t

-- EXECUTION_TRANSITIONS
abbrev pub execution_transitions : ExecutionStatus → List ExecutionStatus
execution_transitions ExecutionStatus.pending =
    ExecutionStatus.running ∷ ExecutionStatus.cancelled ∷ []
execution_transitions ExecutionStatus.running =
    ExecutionStatus.paused ∷ ExecutionStatus.waiting_for_approval ∷ ExecutionStatus.completed
    ∷ ExecutionStatus.failed ∷ ExecutionStatus.cancelled ∷ []
execution_transitions ExecutionStatus.paused =
    ExecutionStatus.running ∷ ExecutionStatus.failed ∷ ExecutionStatus.cancelled ∷ []
execution_transitions ExecutionStatus.waiting_for_approval =
    ExecutionStatus.running ∷ ExecutionStatus.failed ∷ ExecutionStatus.cancelled ∷ []
execution_transitions ExecutionStatus.completed = []
execution_transitions ExecutionStatus.failed = []
execution_transitions ExecutionStatus.cancelled = []

-- TASK_TRANSITIONS
abbrev pub task_transitions : TaskStatus → List TaskStatus
task_transitions TaskStatus.pending = TaskStatus.ready ∷ TaskStatus.cancelled ∷ []
task_transitions TaskStatus.ready = TaskStatus.queued ∷ TaskStatus.cancelled ∷ []
task_transitions TaskStatus.queued =
    TaskStatus.running ∷ TaskStatus.ready ∷ TaskStatus.cancelled ∷ []
task_transitions TaskStatus.running =
    TaskStatus.completed ∷ TaskStatus.failed ∷ TaskStatus.retrying ∷ TaskStatus.waiting_for_approval
    ∷ TaskStatus.queued ∷ TaskStatus.cancelled ∷ []
task_transitions TaskStatus.retrying = TaskStatus.queued ∷ TaskStatus.cancelled ∷ []
task_transitions TaskStatus.waiting_for_approval =
    TaskStatus.completed ∷ TaskStatus.failed ∷ TaskStatus.cancelled ∷ []
task_transitions TaskStatus.failed = TaskStatus.dead_letter ∷ []
task_transitions TaskStatus.completed = []
task_transitions TaskStatus.dead_letter = []
task_transitions TaskStatus.cancelled = []

-- MACHINES. A name that is no machine, or no status of it, does not type-check here.
abbrev pub transitions : (m : Machine) → Status m → List (Status m)
transitions execution = execution_transitions
transitions task = task_transitions

-- `table[from].includes(to)`
unfoldable pub can_transition : (m : Machine) → Status m → Status m → Bool
can_transition m from to = any (same_status m to) (transitions m from)

-- InvalidTransitionError carries the machine and both statuses.
pub data Asserted (m : Machine) : Type 0 where
  allowed : Asserted m
  invalid_transition : Status m → Status m → Asserted m

unfoldable pub assert_transition : (m : Machine) → Status m → Status m → Asserted m
unfolding can_transition
assert_transition m from to =
    if can_transition m from to then allowed else invalid_transition from to

unfoldable pub is_terminal : (m : Machine) → Status m → Bool
is_terminal m status = is_empty (transitions m status)
