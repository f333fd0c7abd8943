-- ===== src/Scheduler/Switch.antt =====
-- The context switch: which saved contexts it writes and reads.
use native.Mathlib.Decide.{ℕ_discrete}
use littlevisor.Base.{
  ℕ, ◌<◌, ◌≡◌, sym, ap, ◌∙◌, length, get_or, length-set, get_or-set_self, get_or-set_ne, ◌==◌,
  if◌then◌else◌, arith,
}
use littlevisor.Scheduler.{
  Task, Stack, Scheduler, zero_task, task_at, jump_to_userland, switch_context,
}

module _ (s : Scheduler) (frame : Stack) (next : ℕ) where
  length-switch_context : length (switch_context s frame next).1.tasks_list ≡ length s.tasks_list
  unfolding switch_context jump_to_userland
  length-switch_context =
      let p = s.prev_task_idx in
      ground (arith, length-set s.tasks_list p (record (task_at s.tasks_list p) { stack = frame }))

  -- If `prev_task_idx` is within the table, the switch saves the frame in that entry and changes no
  -- other.
  pub switch_context-task :
      (n : ℕ)
      → s.prev_task_idx < length s.tasks_list
      → task_at (switch_context s frame next).1.tasks_list n ≡ (
          if n == s.prev_task_idx
          then record (task_at s.tasks_list n) { stack = frame }
          else task_at s.tasks_list n)
  unfolding switch_context jump_to_userland task_at
  switch_context-task n h =
      let p = s.prev_task_idx in
      let saved = record (get_or s.tasks_list p zero_task) { stack = frame } in
      elim (ℕ_discrete n p) [
        | yes e ↦ rw e (ground (arith, get_or-set_self s.tasks_list p saved zero_task h))
        | no ne ↦ ground (arith, get_or-set_ne s.tasks_list p n saved zero_task (λ e. ne (sym e)))
      ]

  -- It returns the saved frame of the next task, takes over its page map, and shifts the indices.
  pub switch_context-next :
      let s' = (switch_context s frame next).1 in
      ((switch_context s frame next).0 ≡ (task_at s'.tasks_list next).stack)
      × (s'.page_map ≡ (task_at s'.tasks_list next).mem_map)
      × (s'.curr_task_idx ≡ next)
      × (s'.prev_task_idx ≡ s.curr_task_idx)
  unfolding switch_context jump_to_userland
  switch_context-next = (ground arith, ground arith, ground arith, ground arith)

-- If the current task is within the table, a switch to another task and straight back resumes with
-- the frame that the second switch was given: it saves that frame over the registers of the task that
-- it resumes.
pub switch_back :
    (s : Scheduler) (frame frame' : Stack) (next : ℕ)
    → s.curr_task_idx < length s.tasks_list
    → (switch_context (switch_context s frame next).1 frame' s.curr_task_idx).0 ≡ frame'
switch_back s frame frame' next h =
    let s' = (switch_context s frame next).1 in
    let a = s.curr_task_idx in
    let prev : s'.prev_task_idx ≡ a = (switch_context-next s frame next).3 in
    let inside : s'.prev_task_idx < length s'.tasks_list =
      omega (arith, h, prev, length-switch_context s frame next) in
    (switch_context-next s' frame' a).0
    ∙ ap (λ (t : Task). t.stack) (switch_context-task s' frame' a a inside)
    ∙ ground (arith, prev)
