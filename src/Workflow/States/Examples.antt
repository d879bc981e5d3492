-- ===== src/Workflow/States/Examples.antt =====
-- The theorems about src/workflow/states.js at statuses that the engine meets.
use ai_distributed_workflow.Workflow.States.{TaskStatus as T, task, can_transition}
use ai_distributed_workflow.Workflow.States.Laws.{
  Walk, Detour, Unstarted, Settles, Detour-Unstarted, Walk-Settles,
}
use ai_distributed_workflow.Base.{refl}

-- The queue lost the task, it was queued again and then cancelled.
pending_to_cancelled : Detour T.pending T.cancelled
unfolding can_transition
pending_to_cancelled =
    Detour.move {t = T.ready}
      (Detour.move {t = T.queued}
        (Detour.move {t = T.ready} (Detour.move Detour.stay refl refl) refl refl) refl refl)
      refl refl

Detour-Unstarted_example : Unstarted T.cancelled
Detour-Unstarted_example = Detour-Unstarted pending_to_cancelled

failed_to_parked : Walk task T.failed T.dead_letter
unfolding can_transition
failed_to_parked = Walk.move Walk.stay refl

Walk-Settles_example : Settles task T.failed T.dead_letter
Walk-Settles_example = Walk-Settles task refl failed_to_parked
