-- ===== src/Interrupts.antt =====
-- Classes7/interrupt_module.c: an interrupt handler that leaves work to a tasklet and to a workqueue, and
-- a tasklet that sets a timer.
pub mod Lifetime
mod Tests
use agh_systems_programming.Common.{ℕ, ◌+◌, ◌≡◌, ◌⊎◌, Bool, true, false, not, Option, none, some}
use agh_systems_programming.Common.Outcome.{Errno, Ret, ok, error, efault}

-- What is registered, scheduled or allocated: the interrupt's handler, the tasklet, the timer, the work
-- item, and the workqueue.
pub record Pending : Type 0 where
  pub irq : Bool
  pub tasklet : Bool
  pub timer : Bool
  pub work : Bool
  pub queue : Bool

abbrev pub idle : Pending
idle = record { irq = false; tasklet = false; timer = false; work = false; queue = false }

-- The kernel's functions, by what they do to what is pending. `queue_work` says whether the item was not
-- queued before, and `mod_timer` whether the timer was set before. `tasklet_kill` lets a tasklet that
-- is scheduled run, and waits for its end.
pub record Kernel : Type 1 where
  pub State : Type 0
  pub view : State → Pending
  pub create_singlethread_workqueue : State → Option State
  pub destroy_workqueue : State → State
  pub request_irq : State → Option Errno × State
  pub free_irq : State → State
  pub tasklet_schedule : State → State
  pub tasklet_kill : (tasklet_handler : State → State) → State → State
  pub queue_work : State → Bool × State
  pub mod_timer : (expires : ℕ) → State → Bool × State
  pub del_timer_sync : State → State
  pub create_lem :
      (s : State) {t : State}
      → create_singlethread_workqueue s ≡ some t
      → view t ≡ record (view s) { queue = true }
  pub destroy_lem :
      (s : State) → view (destroy_workqueue s) ≡ record (view s) { work = false; queue = false }
  pub request_ok :
      (s : State)
      → (request_irq s).0 ≡ none
      → view (request_irq s).1 ≡ record (view s) { irq = true }
  pub request_error :
      (s : State) {e : Errno} → (request_irq s).0 ≡ some e → view (request_irq s).1 ≡ view s
  pub free_lem : (s : State) → view (free_irq s) ≡ record (view s) { irq = false }
  pub schedule_lem : (s : State) → view (tasklet_schedule s) ≡ record (view s) { tasklet = true }
  pub kill_lem :
      (f : State → State) (s : State)
      → (((view s).tasklet ≡ false) × (view (tasklet_kill f s) ≡ view s))
        ⊎ ((t : State) × (view t ≡ record (view s) { tasklet = false })
            × (view (tasklet_kill f s) ≡ view (f t)))
  pub queue_result : (s : State) → (queue_work s).0 ≡ not (view s).work
  pub queue_lem : (s : State) → view (queue_work s).1 ≡ record (view s) { work = true }
  pub timer_result : (n : ℕ) (s : State) → (mod_timer n s).0 ≡ (view s).timer
  pub timer_lem : (n : ℕ) (s : State) → view (mod_timer n s).1 ≡ record (view s) { timer = true }
  pub del_lem : (s : State) → view (del_timer_sync s) ≡ record (view s) { timer = false }

pub expires : ℕ
expires = 300

module _ (kernel : Kernel) (msecs_to_jiffies : ℕ → ℕ) where
  open kernel use {
    State, view, create_singlethread_workqueue, destroy_workqueue, request_irq, free_irq,
    tasklet_schedule, tasklet_kill, queue_work, mod_timer, del_timer_sync,
  }

  -- Whether it prints that the timer is active, and the new state.
  abbrev pub tasklet_handler : (jiffies : ℕ) → State → Bool × State
  tasklet_handler jiffies s = mod_timer (jiffies + msecs_to_jiffies expires) s

  -- Whether it prints that the item is queued already, and the new state. It returns IRQ_NONE.
  abbrev pub handler : State → Bool × State
  handler s = queue_work (tasklet_schedule s)

  pub interrupt_init : State → Ret × State
  interrupt_init s = elim (create_singlethread_workqueue s) [
    | none ↦ (error efault, s)
    | some t ↦ elim (request_irq t).0 [
      | none ↦ (ok 0, (request_irq t).1)
      | some e ↦ (error e, (request_irq t).1)
    ]
  ]

  -- A tasklet that is still scheduled runs at the time `jiffies`.
  pub interrupt_exit : (jiffies : ℕ) → State → State
  interrupt_exit jiffies s =
      destroy_workqueue
        (del_timer_sync (tasklet_kill (λ t. (tasklet_handler jiffies t).1) (free_irq s)))

  -- An interrupt, or the kernel runs what is scheduled. `wq_handler` and `timer_handler` only print.
  pub data Step (s : State) : State → Type 0 where
    interrupt : (view s).irq ≡ true → Step s (handler s).1
    tasklet_runs :
        (jiffies : ℕ) (t : State)
        → (view s).tasklet ≡ true
        → view t ≡ record (view s) { tasklet = false }
        → Step s (tasklet_handler jiffies t).1
    timer_runs :
        (t : State) → (view s).timer ≡ true → view t ≡ record (view s) { timer = false } → Step s t
    work_runs :
        (t : State) → (view s).work ≡ true → view t ≡ record (view s) { work = false } → Step s t

  pub data Reach (s : State) : State → Type 0 where
    here : Reach s s
    next : {t u : State} → Reach s t → Step t u → Reach s u
