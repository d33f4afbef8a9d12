-- ===== src/Fscache/Victim.antt =====
-- The clock of kernel/fs/fscache/fscache.c: which buffer it gives up.
use huge_pie.Base.{
  ℕ, ◌<◌, ◌≡◌, refl, sym, ◌∙◌, true, false, Option, none, some, List, length, get_elem?,
  get_elem?-some, get_elem?-lt, Returns, returns, bind, arith,
}
use huge_pie.Fscache.{Buffer, is_dirty, advance, choose, victim}
use huge_pie.Fscache.Same.{IsIdle, AllSame, length-AllSame, get_elem?-AllSame}
use huge_pie.Fscache.Sweep.{IsAhead, Swept, sweep_one-Swept, SweptClean, sweep_two-SweptClean}

-- What the choice of a victim guarantees.
pub record Chosen (bufs : List Buffer) (size : ℕ) (r : ℕ × List Buffer × ℕ) : Type 0 where
  -- The index is one of the array, and the clock goes on from there.
  pub inside : r.0 < size
  pub clock : r.2 ≡ advance size r.0
  -- Only reference bits change.
  pub same : AllSame bufs r.1
  -- Where some buffer is neither referenced nor dirty, such a one is chosen.
  pub idle :
      (k : ℕ) (b : Buffer)
      → get_elem? bufs k ≡ some b
      → IsIdle b
      → (v : Buffer) × (get_elem? bufs r.0 ≡ some v) × IsIdle v
  -- Where some buffer is not dirty, such a one is chosen.
  pub clean :
      (k : ℕ) (b : Buffer)
      → get_elem? bufs k ≡ some b
      → is_dirty b.state ≡ false
      → (v : Buffer) × (get_elem? r.1 r.0 ≡ some v) × (is_dirty v.state ≡ false)

module _ (bufs : List Buffer) (size clock : ℕ) (size_eq : size ≡ length bufs) where
  all-IsAhead : (k : ℕ) {b : Buffer} → get_elem? bufs k ≡ some b → IsAhead size clock size k
  all-IsAhead k e = let h = get_elem?-lt bufs k e in omega arith

  -- The buffer that stands at the index `k` after the first sweep.
  same_at :
      (cs : List Buffer) (k : ℕ) (b : Buffer)
      → AllSame bufs cs
      → get_elem? bufs k ≡ some b
      → (v : Buffer) × (get_elem? cs k ≡ some v) × (is_dirty v.state ≡ is_dirty b.state)
  same_at cs k b p e =
      let there =
        get_elem?-some cs k (omega (arith, length-AllSame bufs cs p, get_elem?-lt bufs k e)) in
      (there.0, there.1, (get_elem?-AllSame bufs cs k p e there.1).dirty)

  Chosen-idle :
      (index d : ℕ) (cs : List Buffer)
      → Swept size size bufs clock (some index, cs, d)
      → Chosen bufs size (index, cs, advance size d)
  Chosen-idle index d cs w =
      let (v, e, idle) = w.seen.2 in
      let there = same_at cs index v w.same e in
      record {
        inside = rw w.seen.0 w.inside;
        clock = rw w.seen.0;
        same = w.same;
        idle = λ k b f i. (v, e, idle);
        clean = λ k b f n. (there.0, there.1, there.2 ∙ idle.clean);
      }

  Chosen-clean :
      (d : ℕ) (cs : List Buffer)
      → Swept size size bufs clock (none, cs, d)
      → (found : Option ℕ) (d' : ℕ) → SweptClean size size cs d (found, d')
      → Chosen bufs size (elim found [ some index ↦ index | none ↦ d' ], cs, advance size d')
  Chosen-clean d cs w none d' z = record {
    inside = z.inside;
    clock = refl;
    same = w.same;
    idle = λ k b f i. absurd (w.seen k b (all-IsAhead k f) f i);
    clean = λ k b f n.
        let there = same_at cs k b w.same f in
        let lt : k < size = omega (arith, get_elem?-lt bufs k f) in
        let dirty : is_dirty there.0.state ≡ true = z.seen k there.0 (omega arith) there.1 in
        cc (there.2);
  }
  Chosen-clean d cs w (some index) d' z = record {
    inside = rw z.seen.0 z.inside;
    clock = rw z.seen.0;
    same = w.same;
    idle = λ k b f i. absurd (w.seen k b (all-IsAhead k f) f i);
    clean = λ k b f n. z.seen.1;
  }

  choose-Chosen :
      (r : Option ℕ × List Buffer × ℕ)
      → Swept size size bufs clock r
      → Returns (Chosen bufs size) (choose size r)
  unfolding choose
  choose-Chosen (some index, cs, d) w = returns (Chosen-idle index d cs w)
  choose-Chosen (none, cs, d) w =
      bind
        (sweep_two-SweptClean size size cs d w.inside
          (size_eq ∙ sym (length-AllSame bufs cs w.same)))
        (λ r z. returns (Chosen-clean d cs w r.0 r.1 z))

  -- With the clock inside the array, `fs_victim_4k` and `fs_victim_512` end and stay inside it. Only reference bits change; a
  -- buffer that is neither referenced nor dirty is preferred, then one that is not dirty.
  pub victim-Chosen : clock < size → Returns (Chosen bufs size) (victim bufs clock size)
  unfolding victim
  victim-Chosen c =
      bind (sweep_one-Swept size size bufs clock c (omega arith) size_eq) choose-Chosen
