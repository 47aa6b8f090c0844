-- ===== src/Interrupts/Lifetime.antt =====
-- From the load of the module to its end.
use agh_systems_programming.Common.{
  ℕ, ◌+◌, ◌≡◌, ◌∙◌, refl, sym, ap, ◌⊎◌, inl, inr, true, false, Option-cases,
}
use agh_systems_programming.Common.Outcome.{Errno, ok, error, efault}
use agh_systems_programming.Interrupts.{
  expires, idle, Kernel, tasklet_handler, interrupt_init, interrupt_exit, Step, interrupt,
  tasklet_runs, timer_runs, work_runs, Reach, here, next,
}

ok_error : {n : ℕ} {e : Errno} → ¬ (ok n ≡ error e)
ok_error h = cc

module _ (kernel : Kernel) (msecs_to_jiffies : ℕ → ℕ) where
  open kernel use {State, view}

  -- No step gives up the workqueue.
  Step-queue : (s t : State) → Step kernel msecs_to_jiffies s t → (view t).queue ≡ (view s).queue
  Step-queue s t (interrupt on) =
      ap (λ p. p.queue) (kernel.queue_lem (kernel.tasklet_schedule s))
      ∙ ap (λ p. p.queue) (kernel.schedule_lem s)
  Step-queue s t (tasklet_runs jiffies u on e) =
      ap (λ p. p.queue) (kernel.timer_lem (jiffies + msecs_to_jiffies expires) u)
      ∙ ap (λ p. p.queue) e
  Step-queue s t (timer_runs u on e) = ap (λ p. p.queue) e
  Step-queue s t (work_runs u on e) = ap (λ p. p.queue) e

  Reach-queue : (s t : State) → Reach kernel msecs_to_jiffies s t → (view t).queue ≡ (view s).queue
  Reach-queue s t here = refl
  Reach-queue s t (next {t = u} reach step) = Step-queue u t step ∙ Reach-queue s u reach

  -- Where nothing is pending, nothing happens.
  idle-still : (s t : State) → view s ≡ idle → ¬ Step kernel msecs_to_jiffies s t
  idle-still s t e (interrupt on) = cc
  idle-still s t e (tasklet_runs jiffies u on e') = cc
  idle-still s t e (timer_runs u on e') = cc
  idle-still s t e (work_runs u on e') = cc

  -- Once the interrupt is freed and the tasklet is killed, neither comes back.
  killed :
      (f : State → State) (s : State)
      → ((t : State)
          → ((view (f t)).irq ≡ (view t).irq) × ((view (f t)).tasklet ≡ (view t).tasklet))
      → (view s).irq ≡ false
      → ((view (kernel.tasklet_kill f s)).irq ≡ false)
        × ((view (kernel.tasklet_kill f s)).tasklet ≡ false)
  killed f s keeps off = elim (kernel.kill_lem f s) [
    | inl (quiet, same) ↦ (ap (λ p. p.irq) same ∙ off, ap (λ p. p.tasklet) same ∙ quiet)
    | inr (t, taken, same) ↦
        let (irq, tasklet) = keeps t in
        (
          ap (λ p. p.irq) same ∙ irq ∙ ap (λ p. p.irq) taken ∙ off,
          ap (λ p. p.tasklet) same ∙ tasklet ∙ ap (λ p. p.tasklet) taken,
        )
  ]

  handler_keeps :
      (jiffies : ℕ) (t : State)
      → let u = (tasklet_handler kernel msecs_to_jiffies jiffies t).1 in
        ((view u).irq ≡ (view t).irq) × ((view u).tasklet ≡ (view t).tasklet)
  handler_keeps jiffies t =
      let e = kernel.timer_lem (jiffies + msecs_to_jiffies expires) t in
      (ap (λ p. p.irq) e, ap (λ p. p.tasklet) e)

  interrupt_exit-idle :
      (jiffies : ℕ) (s : State) → view (interrupt_exit kernel msecs_to_jiffies jiffies s) ≡ idle
  unfolding interrupt_exit
  interrupt_exit-idle jiffies s =
      let freed = kernel.free_irq s in
      let run = λ (t : State). (tasklet_handler kernel msecs_to_jiffies jiffies t).1 in
      let dead = kernel.tasklet_kill run freed in
      let (irq, tasklet) =
        killed run freed (handler_keeps jiffies) (ap (λ p. p.irq) (kernel.free_lem s)) in
      let destroyed = kernel.destroy_lem (kernel.del_timer_sync dead) in
      let deleted = kernel.del_lem dead in rw (destroyed, deleted, irq, tasklet) refl

  -- `interrupt_init` of a kernel in which nothing of the module is pending ends in one of three ways.
  -- Without a workqueue it returns -EFAULT and changes nothing; with the workqueue and the handler it
  -- returns 0 with both there and nothing scheduled; and if the handler is refused, it returns that
  -- error and leaves the workqueue allocated.
  pub interrupt_init_lem :
      (s : State)
      → view s ≡ idle
      → (interrupt_init kernel msecs_to_jiffies s ≡ (error efault, s))
        ⊎ ((t : State) × (interrupt_init kernel msecs_to_jiffies s ≡ (ok 0, t))
            × (view t ≡ record idle { irq = true; queue = true }))
        ⊎ ((e : Errno) × (t : State) × (interrupt_init kernel msecs_to_jiffies s ≡ (error e, t))
            × (view t ≡ record idle { queue = true }))
  unfolding interrupt_init
  interrupt_init_lem s fresh = elim (Option-cases (kernel.create_singlethread_workqueue s)) [
    | inl missing ↦ inl (rw (interrupt_init, missing) refl)
    | inr (q, made) ↦
        let there = kernel.create_lem s made in
        elim (Option-cases (kernel.request_irq q).0) [
          | inl granted ↦
              let on = kernel.request_ok q granted in
              inr (
                inl (
                  (kernel.request_irq q).1,
                  rw (interrupt_init, made, granted) refl,
                  rw (on, there, fresh) refl,
                ))
          | inr (e, refused) ↦ inr (
              inr (
                e,
                (kernel.request_irq q).1,
                rw (interrupt_init, made, refused) refl,
                rw (kernel.request_error q refused, there, fresh) refl,
              ))
        ]
  ]

  interrupt_init-queue :
      (s t : State)
      → view s ≡ idle
      → interrupt_init kernel msecs_to_jiffies s ≡ (ok 0, t)
      → (view t).queue ≡ true
  interrupt_init-queue s t fresh loaded = elim (interrupt_init_lem s fresh) [
    | inl failed ↦ absurd (ok_error (sym (ap (λ r. r.0) loaded) ∙ ap (λ r. r.0) failed))
    | inr (inl (t', done, on)) ↦
        let same : t ≡ t' = ap (λ r. r.1) (sym loaded ∙ done) in
        ap (λ t. (view t).queue) same ∙ ap (λ p. p.queue) on
    | inr (inr (e, t', failed, on)) ↦
        absurd (ok_error (sym (ap (λ r. r.0) loaded) ∙ ap (λ r. r.0) failed))
  ]

  -- If `interrupt_init` of a kernel in which nothing of the module is pending returns 0, then after any
  -- interrupts, and whatever the kernel has run since, the workqueue is there; and `interrupt_exit`
  -- leaves nothing registered, scheduled or allocated, so that nothing of the module runs any more.
  pub load_to_unload :
      (s t u : State) (jiffies : ℕ)
      → view s ≡ idle
      → interrupt_init kernel msecs_to_jiffies s ≡ (ok 0, t)
      → Reach kernel msecs_to_jiffies t u
      → let end = interrupt_exit kernel msecs_to_jiffies jiffies u in
        ((view u).queue ≡ true)
        × (view end ≡ idle)
        × ((v : State) → ¬ Step kernel msecs_to_jiffies end v)
  load_to_unload s t u jiffies fresh loaded reach =
      let end = interrupt_exit kernel msecs_to_jiffies jiffies u in
      let gone = interrupt_exit-idle jiffies u in
      (
        Reach-queue t u reach ∙ interrupt_init-queue s t fresh loaded,
        gone,
        λ v step. idle-still end v gone step,
      )
