-- ===== src/Sched/Drop.antt =====
-- The task lists of kernel/pc/pc.c when a process goes one level down.
use huge_pie.Sched.{Sched, Slot}
use huge_pie.Sched.Linked.{Lists, replaced, replaced_ne, replaced-all, total}
use huge_pie.Sched.Count.{count, count-append, count_self, count_ne, At, census}
use huge_pie.Sched.Invariant.{IsSched}
use huge_pie.Sched.Age.{shift_sum}
use huge_pie.Base.{
  ℕ, suc, ◌+◌, ◌<◌, ◌≡◌, ◌≢◌, refl, sym, ap, ◌∙◌, List, [], ◌∷◌, ◌++◌, length, length-append, arith,
  subst,
}

module _ (fuel : ℕ) (heads : ℕ → ℕ) (lists : Lists) (s : Sched)
    (v : IsSched fuel heads lists s) where
  abbrev c : ℕ
  c = s.current_task

  abbrev lc : ℕ
  lc = v.current.level

  module _ (at : At c (lists lc)) (low : lc < 2) where
    -- The lists when the process is one level below.
    abbrev pub lists2 : Lists
    lists2 = replaced lists lc (at.before ++ at.after)

    module _ (n : ℕ) where
      abbrev pub lists3 : Lists
      lists3 =
          replaced lists2 (lc + 1)
            (lists2 (lc + 1) ++ (n, record { task = c; level = lc + 1 }) ∷ [])

      pub lists2_next : lists2 (lc + 1) ≡ lists (lc + 1)
      lists2_next = replaced_ne lists lc (lc + 1) _ (λ q. omega (arith, q))

      abbrev pub joined : List (ℕ × Slot)
      joined = lists2 (lc + 1) ++ (n, record { task = c; level = lc + 1 }) ∷ []

      count_before : (p : ℕ) → p ≢ c → count p (at.before ++ at.after) ≡ count p (lists lc)
      count_before p ne =
          let skip = count_ne p at.entry at.after (λ q. ne (sym q ∙ at.task)) in
          omega (
            arith,
            skip,
            ap (count p) at.split,
            count-append p at.before at.after,
            count-append p at.before (at.entry ∷ at.after),
          )

      count_joined : (p : ℕ) → p ≢ c → count p joined ≡ count p (lists (lc + 1))
      count_joined p ne =
          let skip = count_ne p (n, record { task = c; level = lc + 1 }) [] (λ q. ne (sym q)) in
          omega (
            arith,
            skip,
            ap (count p) lists2_next,
            count-append p (lists2 (lc + 1)) ((n, record { task = c; level = lc + 1 }) ∷ []),
          )

      pub others_kept : (l p : ℕ) → p ≢ c → count p (lists3 l) ≡ count p (lists l)
      others_kept l p ne =
          replaced-all (λ j xs. count p xs ≡ count p (lists j)) lists2 (lc + 1) joined
            (count_joined p ne)
            (λ j nj.
              replaced-all (λ j xs. count p xs ≡ count p (lists j)) lists lc (at.before ++ at.after)
                (count_before p ne) (λ k nk. refl) j)
            l

      pub exits3 : lists3 3 ≡ lists 3
      exits3 =
          replaced_ne lists2 (lc + 1) 3 joined (λ q. omega (arith, q, low))
          ∙ replaced_ne lists lc 3 _ (λ q. omega (arith, q, low))

      pub sum_total : total lists3 ≡ total lists
      sum_total =
          shift_sum length lists lc (at.before ++ at.after) joined low
            (omega (
              arith,
              ap length at.split,
              length-append at.before at.after,
              length-append at.before (at.entry ∷ at.after),
            ))
            (omega (
              arith,
              ap length lists2_next,
              length-append (lists2 (lc + 1)) ((n, record { task = c; level = lc + 1 }) ∷ []),
            ))

      pub sum_census : census lists3 c ≡ census lists c
      sum_census =
          shift_sum (count c) lists lc (at.before ++ at.after) joined low
            (let here : count c (at.entry ∷ at.after) ≡ suc (count c at.after) =
                subst (λ p. count p (at.entry ∷ at.after) ≡ suc (count p at.after)) at.task
                  (count_self at.entry at.after) in
              omega (
                arith,
                here,
                ap (count c) at.split,
                count-append c at.before at.after,
                count-append c at.before (at.entry ∷ at.after),
              ))
            (let here = count_self (n, record { task = c; level = lc + 1 }) [] in
              omega (
                arith,
                here,
                ap (count c) lists2_next,
                count-append c (lists2 (lc + 1)) ((n, record { task = c; level = lc + 1 }) ∷ []),
              ))
