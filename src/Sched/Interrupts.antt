-- ===== src/Sched/Interrupts.antt =====
-- A sequence of interrupts of the timer, each of which calls `pc_schedule` of kernel/pc/pc.c.
use huge_pie.Sched.{Sched, Task, Context}
use huge_pie.Sched.Schedule.{Scheduled, running, halted, pc_schedule}
use huge_pie.Sched.Linked.{Lists}
use huge_pie.Sched.Count.{census}
use huge_pie.Sched.Invariant.{IsSched}
use huge_pie.Sched.Slice.{IsActive, Sliced, sliced, pc_schedule-Sliced}
use huge_pie.Base.{
  ℕ, ◌≡◌, refl, ◌∙◌, Option, some, List, [], ◌∷◌, ◌>>=◌, Returns, returns, bind, mono,
}

-- What the processor has in its registers at an interrupt, from what it had after the last one: the work of the processes.
abbrev pub Work : Type 0
Work = List (Context → Context)

-- The outcome after the interrupts: the scheduler goes on from the state that the last one left.
unfoldable pub interrupts : ℕ → Work → Context → Sched → Option Scheduled
interrupts fuel [] regs s = some (running s regs)
interrupts fuel (w ∷ ws) regs s = do
  o ← pc_schedule fuel (w regs) s
  elim o [ running s' regs' ↦ interrupts fuel ws regs' s' | halted ↦ some halted ]

module _ (fuel : ℕ) (heads : ℕ → ℕ) where
  -- The scheduler still runs, and has the same processes.
  pub data Alive (lists : Lists) : Scheduled → Type 0 where
    alive :
        {s : Sched} {regs : Context} (lists' : Lists) (valid : IsSched fuel heads lists' s)
        → ((p : ℕ) → census lists' p ≡ census lists p)
        → lists' 3 ≡ []
        → IsActive valid.current
        → Alive lists (running s regs)

  Alive-trans :
      (lists lists' : Lists)
      → ((p : ℕ) → census lists' p ≡ census lists p)
      → (o : Scheduled) → Alive lists' o
      → Alive lists o
  Alive-trans lists lists' e _ (alive lists'' valid f none3 active) =
      alive lists'' valid (λ p. f p ∙ e p) none3 active

  further :
      (ws : Work) (lists : Lists) (s : Sched) (t : Task) (regs : Context)
      → ((lists' : Lists) (s' : Sched) (regs' : Context) (v : IsSched fuel heads lists' s')
          → IsActive v.current
          → lists' 3 ≡ []
          → Returns (Alive lists') (interrupts fuel ws regs' s'))
      → (o : Scheduled) → Sliced fuel heads lists s t regs o
      → Returns
          (Alive lists)
          (elim o [ running s' regs' ↦ interrupts fuel ws regs' s' | halted ↦ some halted ])
  further ws lists s t regs rest _
        (sliced {s' = s'} {regs' = regs'} lists' valid kept none3 active changed) =
      mono (rest lists' s' regs' valid active none3) (Alive-trans lists lists' kept)

  -- From a state of the scheduler whose current process has not finished and is marked as ready only if it is the idle one, and with an
  -- empty exit list, any number of interrupts of the timer
  -- is served without a fault and without a loop that does not end, whatever the processes do to the registers. No process is lost
  -- or doubled, and the state is as it should be afterwards.
  pub interrupts-Alive :
      (ws : Work) (lists : Lists) (s : Sched) (regs : Context) (v : IsSched fuel heads lists s)
      → IsActive v.current
      → lists 3 ≡ []
      → Returns (Alive lists) (interrupts fuel ws regs s)
  unfolding interrupts
  interrupts-Alive [] lists s regs v active none3 = returns (alive lists v (λ p. refl) none3 active)
  interrupts-Alive (w ∷ ws) lists s regs v active none3 =
      bind (pc_schedule-Sliced fuel heads lists s v active none3 (w regs))
        λ o z. further ws lists s v.current (w regs) (interrupts-Alive ws) o z
