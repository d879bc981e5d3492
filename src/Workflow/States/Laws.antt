-- ===== src/Workflow/States/Laws.antt =====
-- What the two transition tables of src/workflow/states.js allow over many steps.
use ai_distributed_workflow.Base.{◌≡◌, refl, ◌⊎◌, inl, inr, true, false, arith, Bool}
use ai_distributed_workflow.Workflow.States.{
  ExecutionStatus, TaskStatus, Machine, execution, task, Status, same_status, can_transition,
  allowed, assert_transition,
}

-- A sequence of legal moves.
pub data Walk (m : Machine) : Status m → Status m → Type 0 where
  stay : {s : Status m} → Walk m s s
  move : {s t u : Status m} → Walk m s t → can_transition m t u ≡ true → Walk m s u

-- `===` on statuses decides equality.
pub same_task-eq : (s t : TaskStatus) → same_status task s t ≡ true → s ≡ t
same_task-eq s t h = ground arith

pub same_execution-eq : (s t : ExecutionStatus) → same_status execution s t ≡ true → s ≡ t
same_execution-eq s t h = ground arith

pub assert_transition_legal :
    (m : Machine) (s t : Status m) → can_transition m s t ≡ true → assert_transition m s t ≡ allowed
unfolding assert_transition
assert_transition_legal m s t h = rw h refl

-- Statuses that a task can be in without ever having been RUNNING.
pub data Unstarted : TaskStatus → Type 0 where
  pending : Unstarted TaskStatus.pending
  ready : Unstarted TaskStatus.ready
  queued : Unstarted TaskStatus.queued
  cancelled : Unstarted TaskStatus.cancelled

Unstarted-step :
    (s t : TaskStatus)
    → Unstarted s
    → can_transition task s t ≡ true
    → Unstarted t ⊎ (t ≡ TaskStatus.running)
unfolding can_transition
Unstarted-step s TaskStatus.pending h e = inl pending
Unstarted-step s TaskStatus.ready h e = inl ready
Unstarted-step s TaskStatus.queued h e = inl queued
Unstarted-step s TaskStatus.cancelled h e = inl cancelled
Unstarted-step s TaskStatus.running h e = inr refl
Unstarted-step _ TaskStatus.retrying pending e = ground arith
Unstarted-step _ TaskStatus.retrying ready e = ground arith
Unstarted-step _ TaskStatus.retrying queued e = ground arith
Unstarted-step _ TaskStatus.retrying cancelled e = ground arith
Unstarted-step _ t pending e = ground arith
Unstarted-step _ t ready e = ground arith
Unstarted-step _ t queued e = ground arith
Unstarted-step _ t cancelled e = ground arith

-- Legal moves of which none ends in RUNNING.
pub data Detour : TaskStatus → TaskStatus → Type 0 where
  stay : {s : TaskStatus} → Detour s s
  move :
      {s t u : TaskStatus}
      → Detour s t
      → can_transition task t u ≡ true
      → same_status task u TaskStatus.running ≡ false
      → Detour s u

-- A task gets from PENDING to a status other than PENDING, READY, QUEUED and CANCELLED only by way
-- of RUNNING: legal moves from PENDING that do not pass RUNNING end in one of these four.
pub Detour-Unstarted : {t : TaskStatus} → Detour TaskStatus.pending t → Unstarted t
Detour-Unstarted stay = pending
Detour-Unstarted (move {t = t} {u = u} w e other) =
    elim (Unstarted-step t u (Detour-Unstarted w) e) [
      | inl h ↦ h
      | inr eq ↦
          let passed : same_status task u TaskStatus.running ≡ true = rw eq refl in
          absurd (ground (arith, other, passed))
    ]

-- The statuses in which a run or a task has ended.
abbrev pub has_ended : (m : Machine) → Status m → Bool
has_ended execution ExecutionStatus.completed = true
has_ended execution ExecutionStatus.failed = true
has_ended execution ExecutionStatus.cancelled = true
has_ended execution s = false
has_ended task TaskStatus.completed = true
has_ended task TaskStatus.failed = true
has_ended task TaskStatus.dead_letter = true
has_ended task TaskStatus.cancelled = true
has_ended task s = false

-- What may become of it later.
pub data Settles : (m : Machine) → Status m → Status m → Type 0 where
  kept : {m : Machine} {s : Status m} → Settles m s s
  parked : Settles task TaskStatus.failed TaskStatus.dead_letter

Settles-ended :
    (m : Machine) {s t : Status m} → Settles m s t → has_ended m s ≡ true → has_ended m t ≡ true
Settles-ended m kept h = h
Settles-ended m parked h = refl

settled_move :
    (m : Machine) (t u : Status m)
    → has_ended m t ≡ true
    → can_transition m t u ≡ true
    → Settles m t u
unfolding can_transition
settled_move task TaskStatus.failed TaskStatus.dead_letter h e = parked
settled_move execution t u h e = absurd (ground (arith, h, e))
settled_move task t u h e = absurd (ground (arith, h, e))

Settles-trans : (m : Machine) {s t u : Status m} → Settles m s t → Settles m t u → Settles m s u
Settles-trans m a kept = a
Settles-trans m kept b = b

-- A run that is COMPLETED, FAILED or CANCELLED keeps its status however many legal moves follow, and
-- so does a task that is COMPLETED, FAILED, DEAD_LETTER or CANCELLED, but for FAILED, from which the
-- task may become DEAD_LETTER.
pub Walk-Settles :
    (m : Machine) {s t : Status m} → has_ended m s ≡ true → Walk m s t → Settles m s t
Walk-Settles m h stay = kept
Walk-Settles m h (move {t = t} {u = u} w e) =
    let so_far = Walk-Settles m h w in
    Settles-trans m so_far (settled_move m t u (Settles-ended m so_far h) e)
