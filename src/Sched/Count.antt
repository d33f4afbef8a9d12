-- ===== src/Sched/Count.antt =====
-- How often a process stands in a task list of kernel/pc/pc.c, and where.
use huge_pie.Sched.{Slot}
use huge_pie.Sched.Linked.{Lists, replaced, replaced_self, replaced_ne}
use huge_pie.Base.{
  ℕ, suc, ◌+◌, ◌<◌, ◌≡◌, ◌≢◌, inl, inr, refl, ap, ◌∙◌, subst, List, [], ◌∷◌, ◌++◌, All, ◌==◌,
  if◌then◌else◌, ==→eq, ==→ne, ==_refl, ne→==, Bool-cases, arith,
}

abbrev pub count : ℕ → List (ℕ × Slot) → ℕ
count p [] = 0
count p (x ∷ xs) = (if x.1.task == p then 1 else 0) + count p xs

pub count-append : (p : ℕ) (xs ys : List (ℕ × Slot)) → count p (xs ++ ys) ≡ count p xs + count p ys
count-append p [] ys = omega arith
count-append p (x ∷ xs) ys = omega (arith, count-append p xs ys)

pub count_self :
    (x : ℕ × Slot) (xs : List (ℕ × Slot)) → count x.1.task (x ∷ xs) ≡ suc (count x.1.task xs)
count_self x xs = rw (==_refl x.1.task) (omega arith)

pub count_ne :
    (p : ℕ) (x : ℕ × Slot) (xs : List (ℕ × Slot)) → x.1.task ≢ p → count p (x ∷ xs) ≡ count p xs
count_ne p x xs ne = rw (ne→== x.1.task p ne) (omega arith)

-- A fact on the processes of a list is one on its nodes.
pub All-count {ℓ} :
    (P : ℕ → Type ℓ) (xs : List (ℕ × Slot))
    → ((p : ℕ) → 0 < count p xs → P p)
    → All (λ x. P x.1.task) xs
All-count P [] f = tt
All-count P (x ∷ xs) f =
    (f x.1.task (omega (arith, count_self x xs)), All-count P xs (λ p lt. f p (omega arith)))

-- The place where a process stands for the first time.
pub record At (p : ℕ) (xs : List (ℕ × Slot)) : Type 0 where
  pub before : List (ℕ × Slot)
  pub entry : ℕ × Slot
  pub after : List (ℕ × Slot)
  pub split : xs ≡ before ++ entry ∷ after
  pub task : entry.1.task ≡ p
  pub first : count p before ≡ 0

pub At-count : (p : ℕ) (xs : List (ℕ × Slot)) → 0 < count p xs → At p xs
At-count p [] lt = absurd (omega arith)
At-count p (x ∷ xs) lt = elim (Bool-cases (x.1.task == p)) [
  | inl y ↦ record {
    before = [];
    entry = x;
    after = xs;
    split = refl;
    task = ==→eq x.1.task p y;
    first = refl;
  }
  | inr n ↦
      (let ne = ==→ne x.1.task p n in
        let r = At-count p xs (omega (arith, count_ne p x xs ne)) in
        record {
          before = x ∷ r.before;
          entry = r.entry;
          after = r.after;
          split = ap (λ ys. x ∷ ys) r.split;
          task = r.task;
          first = count_ne p x r.before ne ∙ r.first;
        })
]

-- How often a process stands in the lists of all levels.
abbrev pub census : Lists → ℕ → ℕ
census lists p = count p (lists 0) + (count p (lists 1) + (count p (lists 2) + count p (lists 3)))

-- The same lists, but for the order of the processes in each.
abbrev pub Reordered : Lists → Lists → Type 0
Reordered lists lists' = (l p : ℕ) → count p (lists' l) ≡ count p (lists l)

pub Reordered-replaced :
    (lists : Lists) (l : ℕ) (xs : List (ℕ × Slot))
    → ((p : ℕ) → count p xs ≡ count p (lists l))
    → Reordered lists (replaced lists l xs)
Reordered-replaced lists l xs same m p = elim (Bool-cases (l == m)) [
  | inl y ↦
      (let e = ==→eq l m y in
        subst (λ j. count p (replaced lists l xs j) ≡ count p (lists j)) e
          (ap (count p) (replaced_self lists l xs) ∙ same p))
  | inr n ↦ ap (count p) (replaced_ne lists l m xs (==→ne l m n))
]
