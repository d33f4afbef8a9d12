-- ===== src/Sched/Sample.antt =====
-- A state of kernel/pc/pc.c: the idle process, a shell that has one unit of time left, and an editor.
use huge_pie.Sched.{Sched, Slot, Task, Context, pri_queue_num, pc_ready, pc_running, task_at}
use huge_pie.Sched.Schedule.{is_ready}
use huge_pie.Sched.Linked.{Lists, nodes_of}
use huge_pie.Sched.Count.{count, census}
use huge_pie.Sched.Invariant.{IsSched, IsQueue}
use huge_pie.Sched.Slice.{IsActive}
use huge_pie.Avl.{null}
use huge_pie.Links.{Node, load}
use huge_pie.Links.Chain.{Chain, nil, cons, Apart}
use huge_pie.Base.{
  ℕ, zero, suc, ◌-◌, ◌≤◌, ◌<◌, ◌≡◌, ◌≢◌, refl, pos, true, false, some, [], ◌∷◌, eqb_ℤ, ltb_ℤ,
  some-injective, sym, ap, ◌∙◌, ◌⊎◌, inl, inr, All, get_elem?, arith,
}

abbrev pub regs : Context
regs = record {
  epc = 7;
  at = 0;
  v0 = 0;
  v1 = 0;
  a0 = 0;
  a1 = 0;
  a2 = 0;
  a3 = 0;
  t0 = 0;
  t1 = 0;
  t2 = 0;
  t3 = 0;
  t4 = 0;
  t5 = 0;
  t6 = 0;
  t7 = 0;
  s0 = 0;
  s1 = 0;
  s2 = 0;
  s3 = 0;
  s4 = 0;
  s5 = 0;
  s6 = 0;
  s7 = 0;
  t8 = 0;
  t9 = 0;
  hi = 0;
  lo = 0;
  gp = 0;
  sp = 0;
  fp = 0;
  ra = 0;
}

abbrev pub idle : Task
idle = record {
  pid = pos 0;
  name = [];
  context = regs;
  asid = pos 0;
  state = pc_ready;
  fixed = pos 1;
  time_cnt = pos 900;
  level = 2;
}

abbrev pub shell : Task
shell = record {
  pid = pos 1;
  name = [];
  context = regs;
  asid = pos 1;
  state = pc_running;
  fixed = pos 0;
  time_cnt = pos 1;
  level = 0;
}

abbrev pub editor : Task
editor = record {
  pid = pos 2;
  name = [];
  context = record regs { epc = 9 };
  asid = pos 2;
  state = pc_ready;
  fixed = pos 0;
  time_cnt = pos 900;
  level = 2;
}

abbrev pub at_node : ℕ → ℕ → ℕ → ℕ → Node Slot
at_node next previous task level = record {
  next = next;
  previous = previous;
  item = record { task = task; level = level };
}

abbrev pub three : Sched
three = record {
  nodes =
      at_node 6 0 0 0
      ∷ at_node 0 0 0 1
      ∷ at_node 5 0 0 2
      ∷ at_node 0 0 0 3
      ∷ at_node 7 3 1 2
      ∷ at_node 0 1 2 0
      ∷ at_node 0 5 3 2
      ∷ [];
  tasks = idle ∷ shell ∷ editor ∷ [];
  task_lists = 1 ∷ 2 ∷ 3 ∷ 4 ∷ [];
  exit_list = 4;
  current_task = 2;
  pid_tree = null;
  mailbox_tree = null;
  post = record { boxes = []; mails = [] };
}

abbrev pub heads : ℕ → ℕ
heads l = suc l

abbrev pub lists : Lists
lists zero = (6, record { task = 2; level = 0 }) ∷ []
lists (suc zero) = []
lists (suc (suc zero)) =
    (5, record { task = 1; level = 2 }) ∷ (7, record { task = 3; level = 2 }) ∷ []
lists (suc (suc (suc n))) = []

pub chains : (l : ℕ) → l ≤ pri_queue_num → Chain three.nodes 0 (heads l) (nodes_of heads lists l)
unfolding load
chains zero le = cons refl (λ i. omega (arith, i)) (cons refl (λ i. i) (nil refl))
chains (suc zero) le = cons refl (λ i. i) (nil refl)
chains (suc (suc zero)) le =
    cons refl (λ i. omega (arith, i))
      (cons refl (λ i. omega (arith, i)) (cons refl (λ i. i) (nil refl)))
chains (suc (suc (suc zero))) le = cons refl (λ i. i) (nil refl)
chains (suc (suc (suc (suc n)))) le = absurd (omega arith)

pub apart :
    (l m : ℕ)
    → l ≤ pri_queue_num
    → m ≤ pri_queue_num
    → l ≢ m
    → Apart (nodes_of heads lists l) (nodes_of heads lists m)
apart zero zero a b ne = absurd (ne refl)
apart zero (suc zero) a b ne = λ x i j. omega (arith, i, j)
apart zero (suc (suc zero)) a b ne = λ x i j. omega (arith, i, j)
apart zero (suc (suc (suc m))) a b ne = λ x i j. omega (arith, i, j)
apart (suc zero) zero a b ne = λ x i j. omega (arith, i, j)
apart (suc zero) (suc zero) a b ne = absurd (ne refl)
apart (suc zero) (suc (suc zero)) a b ne = λ x i j. omega (arith, i, j)
apart (suc zero) (suc (suc (suc m))) a b ne = λ x i j. omega (arith, i, j)
apart (suc (suc zero)) zero a b ne = λ x i j. omega (arith, i, j)
apart (suc (suc zero)) (suc zero) a b ne = λ x i j. omega (arith, i, j)
apart (suc (suc zero)) (suc (suc zero)) a b ne = absurd (ne refl)
apart (suc (suc zero)) (suc (suc (suc m))) a b ne = λ x i j. omega (arith, i, j)
apart (suc (suc (suc l))) zero a b ne = λ x i j. omega (arith, i, j)
apart (suc (suc (suc l))) (suc zero) a b ne = λ x i j. omega (arith, i, j)
apart (suc (suc (suc l))) (suc (suc zero)) a b ne = λ x i j. omega (arith, i, j)
apart (suc (suc (suc l))) (suc (suc (suc m))) a b ne = λ x i j. omega (arith, i, j, ne)

pub levels : (l : ℕ) → l ≤ pri_queue_num → All (λ x. x.1.level ≡ l) (lists l)
levels zero le = (refl, tt)
levels (suc zero) le = tt
levels (suc (suc zero)) le = (refl, (refl, tt))
levels (suc (suc (suc n))) le = tt

-- A process in the lists is one of the three.
queued :
    (l p : ℕ)
    → 0 < count p (lists l)
    → ((l ≡ 0) × (p ≡ 2)) ⊎ (((l ≡ 2) × (p ≡ 1)) ⊎ ((l ≡ 2) × (p ≡ 3)))
queued zero p lt = ground arith
queued (suc zero) p lt = absurd (omega arith)
queued (suc (suc zero)) p lt = ground arith
queued (suc (suc (suc n))) p lt = absurd (omega arith)

pub once : (p : ℕ) → census lists p ≤ 1
once p = ground arith

pub live :
    (l p : ℕ)
    → l ≤ pri_queue_num
    → 0 < count p (lists l)
    → (t : Task) × (task_at three.tasks p ≡ some t) × (ltb_ℤ t.pid (pos 0) ≡ false)
unfolding task_at
live l p le lt = elim (queued l p lt) [
  | inl q ↦ (shell, ap (task_at three.tasks) q.1, refl)
  | inr (inl q) ↦ (idle, ap (task_at three.tasks) q.1, refl)
  | inr (inr q) ↦ (editor, ap (task_at three.tasks) q.1, refl)
]

ready : (l p : ℕ) → IsQueue l → p ≢ 2 → 0 < count p (lists l) → is_ready three.tasks p ≡ some true
unfolding is_ready task_at
ready l p le ne lt = elim (queued l p lt) [
  | inl q ↦ absurd (ne q.1)
  | inr (inl q) ↦ ap (is_ready three.tasks) q.1
  | inr (inr q) ↦ ap (is_ready three.tasks) q.1
]

level_of :
    (l p : ℕ) (t : Task)
    → IsQueue l
    → 0 < count p (lists l)
    → task_at three.tasks p ≡ some t
    → t.level ≡ l
unfolding task_at
level_of l p t q lt at = elim (queued l p lt) [
  | inl e ↦ ap (λ u. u.level) (some-injective _ _ (sym at ∙ ap (task_at three.tasks) e.1)) ∙ sym e.0
  | inr (inl e) ↦
      ap (λ u. u.level) (some-injective _ _ (sym at ∙ ap (task_at three.tasks) e.1)) ∙ sym e.0
  | inr (inr e) ↦
      ap (λ u. u.level) (some-injective _ _ (sym at ∙ ap (task_at three.tasks) e.1)) ∙ sym e.0
]

-- The id of a process is one less than its pointer.
pid_of : (p : ℕ) (t : Task) → task_at three.tasks p ≡ some t → (0 < p) × (t.pid ≡ pos (p - 1))
unfolding task_at
pid_of zero t at = absurd cc
pid_of (suc zero) t at = (omega arith, ap (λ u. u.pid) (sym (some-injective _ _ at)))
pid_of (suc (suc zero)) t at = (omega arith, ap (λ u. u.pid) (sym (some-injective _ _ at)))
pid_of (suc (suc (suc zero))) t at = (omega arith, ap (λ u. u.pid) (sym (some-injective _ _ at)))
pid_of (suc (suc (suc (suc p)))) t at = absurd cc

distinct :
    (p q : ℕ) (t u : Task)
    → 0 < census lists p
    → 0 < census lists q
    → task_at three.tasks p ≡ some t
    → task_at three.tasks q ≡ some u
    → eqb_ℤ t.pid u.pid ≡ true
    → p ≡ q
distinct p q t u a b c d e =
    let x = pid_of p t c in
    let y = pid_of q u d in
    let f : eqb_ℤ (pos (p - 1)) (pos (q - 1)) ≡ true = rw (x.1, y.1) at e in
    ground (arith, x.0, y.0, f)

pub tops : (l : ℕ) → l ≤ pri_queue_num → get_elem? three.task_lists l ≡ some (heads l)
tops zero le = refl
tops (suc zero) le = refl
tops (suc (suc zero)) le = refl
tops (suc (suc (suc zero))) le = refl
tops (suc (suc (suc (suc n)))) le = absurd (omega arith)

pub three-IsSched : IsSched 9 heads lists three
unfolding task_at
three-IsSched = record {
  linked = record { chains = chains; apart = apart; levels = levels };
  tops = tops;
  exit = refl;
  short = omega arith;
  once = once;
  live = live;
  distinct = distinct;
  level = level_of;
  ready = ready;
  idle = 1;
  idle_task = idle;
  idle_at = refl;
  idle_pid = refl;
  idle_queued = omega arith;
  current = shell;
  current_at = refl;
  current_level = omega arith;
  current_queued = omega arith;
}

pub shell-IsActive : IsActive three-IsSched.current
unfolding three-IsSched
shell-IsActive = record { unfinished = refl; own = λ e. absurd cc }
