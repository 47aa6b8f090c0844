-- ===== src/Interrupts/Tests.antt =====
-- A run of the module from load to unload.
use agh_systems_programming.Common.{
  ℕ, ◌≡◌, ◌⊎◌, inl, inr, refl, Bool, true, false, not, none, some, if◌then◌else◌, Bool-cases, arith,
}
use agh_systems_programming.Interrupts.{
  Pending, idle, Kernel, interrupt_init, interrupt_exit, Step, interrupt, tasklet_runs, Reach, here,
  next,
}
use agh_systems_programming.Interrupts.Lifetime.{load_to_unload}

abbrev kill : (Pending → Pending) → Pending → Pending
kill f p = if p.tasklet then f (record p { tasklet = false }) else p

kill_ends :
    (f : Pending → Pending) (p : Pending)
    → ((p.tasklet ≡ false) × (kill f p ≡ p))
      ⊎ ((t : Pending) × (t ≡ record p { tasklet = false }) × (kill f p ≡ f t))
kill_ends f p = elim (Bool-cases p.tasklet) [
  | inl on ↦ inr (record p { tasklet = false }, refl, ground (arith, on))
  | inr off ↦ inl (off, ground (arith, off))
]

-- A kernel that grants all, and is no more than what is pending.
abbrev granting : Kernel
granting = record {
  State = Pending;
  view = λ p. p;
  create_singlethread_workqueue = λ p. some (record p { queue = true });
  destroy_workqueue = λ p. record p { work = false; queue = false };
  request_irq = λ p. (none, record p { irq = true });
  free_irq = λ p. record p { irq = false };
  tasklet_schedule = λ p. record p { tasklet = true };
  tasklet_kill = kill;
  queue_work = λ p. (not p.work, record p { work = true });
  mod_timer = λ n p. (p.timer, record p { timer = true });
  del_timer_sync = λ p. record p { timer = false };
  create_lem = λ s {t} h. cc;
  destroy_lem = λ s. refl;
  request_ok = λ s h. refl;
  request_error = λ s {e} h. cc;
  free_lem = λ s. refl;
  schedule_lem = λ s. refl;
  kill_lem = kill_ends;
  queue_result = λ s. refl;
  queue_lem = λ s. refl;
  timer_result = λ n s. refl;
  timer_lem = λ n s. refl;
  del_lem = λ s. refl;
}

abbrev same_number : ℕ → ℕ
same_number n = n

abbrev loaded : Pending
loaded = record idle { irq = true; queue = true }

abbrev interrupted : Pending
interrupted = record loaded { tasklet = true; work = true }

-- An interrupt; its tasklet runs; another interrupt.
three_steps : Reach granting same_number loaded (record interrupted { timer = true })
three_steps =
    next
      (next (next here (interrupt refl)) (tasklet_runs 5 (record loaded { work = true }) refl refl))
      (interrupt refl)

load_to_unload_example :
    let u : Pending = record interrupted { timer = true } in
    let end = interrupt_exit granting same_number 8 u in
    (◌≡◌ {A = Bool} true true) × (end ≡ idle) × ((v : Pending) → ¬ Step granting same_number end v)
unfolding interrupt_init
load_to_unload_example =
    load_to_unload granting same_number idle loaded (record interrupted { timer = true }) 8 refl
      refl three_steps
