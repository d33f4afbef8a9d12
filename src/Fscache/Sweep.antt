-- ===== src/Fscache/Sweep.antt =====
-- The two sweeps of the clock in kernel/fs/fscache/fscache.c.
use huge_pie.Base.{
  ℕ, zero, suc, ◌+◌, ◌≤◌, ◌<◌, ◌≡◌, ◌≢◌, ◌⊎◌, inl, inr, refl, sym, ◌∙◌, true, false, Option, none,
  some, some-injective, subst, List, length, get_elem?, set, get_elem?-some, get_elem?-set_ne,
  length-set, get_elem?-lt, Returns, returns, mono, Bool-cases, arith, ℕ_discrete,
}
use huge_pie.Fscache.{
  Buffer, is_referenced, is_dirty, clear_reference, advance, sweep_one, sweep_two,
}
use huge_pie.Fscache.Same.{IsIdle, AllSame, AllSame-refl, AllSame-trans, AllSame-set}

-- The index `k` is one of the next `i` that the clock comes to.
abbrev pub IsAhead : ℕ → ℕ → ℕ → ℕ → Type 0
IsAhead size clock i k = (clock ≤ k) × (k < clock + i) ⊎ (k + size < clock + i)

module _ (size clock i k : ℕ) (c : clock < size) where
  IsAhead-suc :
      k < size → IsAhead size clock (suc i) k → clock ≢ k → IsAhead size (advance size clock) i k
  IsAhead-suc h a ne = ground arith

  IsAhead-advance :
      i < size → IsAhead size (advance size clock) i k → IsAhead size clock (suc i) k × (clock ≢ k)
  IsAhead-advance h a = ground arith

advance-lt : (size clock : ℕ) → clock < size → advance size clock < size
advance-lt size clock h = ground arith

-- What the first sweep found: the first idle buffer that the clock came to, or that none of those
-- that it came to was idle.
abbrev pub Seen : ℕ → ℕ → List Buffer → ℕ → Option ℕ → ℕ → Type 0
Seen size i bufs clock none clock' =
    (k : ℕ) (b : Buffer) → IsAhead size clock i k → get_elem? bufs k ≡ some b → ¬ IsIdle b
Seen size i bufs clock (some index) clock' =
    (index ≡ clock')
    × IsAhead size clock i index
    × ((b : Buffer) × (get_elem? bufs index ≡ some b) × IsIdle b)

pub record Swept (size i : ℕ) (bufs : List Buffer) (clock : ℕ) (r : Option ℕ × List Buffer × ℕ)
    : Type 0 where
  pub same : AllSame bufs r.1
  pub inside : r.2 < size
  pub seen : Seen size i bufs clock r.0 r.2

module _ (size i : ℕ) (bufs : List Buffer) (clock : ℕ) (b : Buffer) (c : clock < size)
    (h : i < size) (size_eq : size ≡ length bufs) (e : get_elem? bufs clock ≡ some b) where
  -- One step of the sweep past a buffer that is not idle, with its reference bit cleared or not.
  Swept-step :
      (bufs' : List Buffer)
      → AllSame bufs bufs'
      → ((k : ℕ) → clock ≢ k → get_elem? bufs' k ≡ get_elem? bufs k)
      → ¬ IsIdle b
      → (r : Option ℕ × List Buffer × ℕ) → Swept size i bufs' (advance size clock) r
      → Swept size (suc i) bufs clock r
  Swept-step bufs' same other busy (none, cs, d) w = record {
    same = AllSame-trans bufs bufs' cs same w.same;
    inside = w.inside;
    seen = λ k v a f. elim (ℕ_discrete clock k) [
      | yes q ↦
          subst (λ x. ¬ IsIdle x)
            (some-injective _ _ (sym e ∙ subst (λ x. get_elem? bufs x ≡ some v) (sym q) f)) busy
      | no q ↦
          w.seen k v (IsAhead-suc size clock i k c (omega (arith, get_elem?-lt bufs k f)) a q)
            (other k q ∙ f)
    ];
  }
  Swept-step bufs' same other busy (some index, cs, d) w =
      let ahead = IsAhead-advance size clock i index c h w.seen.1 in
      record {
        same = AllSame-trans bufs bufs' cs same w.same;
        inside = w.inside;
        seen =
            (w.seen.0, ahead.0, (w.seen.2.0, sym (other index ahead.1) ∙ w.seen.2.1, w.seen.2.2));
      }

pub sweep_one-Swept :
    (size i : ℕ) (bufs : List Buffer) (clock : ℕ)
    → clock < size
    → i ≤ size
    → size ≡ length bufs
    → Returns (Swept size i bufs clock) (sweep_one size i bufs clock)
unfolding sweep_one
sweep_one-Swept size zero bufs clock c h size_eq =
    returns
      (record { same = AllSame-refl bufs; inside = c; seen = λ k b a e. absurd (omega arith) })
sweep_one-Swept size (suc i) bufs clock c h size_eq =
    rw (e, sweep_one)
      (elim (Bool-cases (is_referenced b.state)) [
        | inl used ↦ rw used (
            mono
              (sweep_one-Swept size i cleared (advance size clock) (advance-lt size clock c)
                (omega arith) (size_eq ∙ sym (length-set bufs clock _)))
              (Swept-step size i bufs clock b c h size_eq e cleared (AllSame-set bufs clock b e)
                (λ k q. get_elem?-set_ne bufs clock k _ q) (λ idle. cc (idle.unreferenced))))
        | inr unused ↦ elim (Bool-cases (is_dirty b.state)) [
          | inl dirty ↦
              rw (unused, dirty)
                (mono
                  (sweep_one-Swept size i bufs (advance size clock) (advance-lt size clock c)
                    (omega arith) size_eq)
                  (Swept-step size i bufs clock b c h size_eq e bufs (AllSame-refl bufs)
                    (λ k q. refl) (λ idle. cc (idle.clean))))
          | inr clean ↦
              rw (unused, clean)
                (returns (record {
                  same = AllSame-refl bufs;
                  inside = c;
                  seen =
                      (refl, omega arith, (b, e, record { unreferenced = unused; clean = clean }));
                }))
        ]
      ])
  where
    found : (b : Buffer) × (get_elem? bufs clock ≡ some b)
    found = get_elem?-some bufs clock (omega arith)

    b : Buffer
    b = found.0

    e : get_elem? bufs clock ≡ some b
    e = found.1

    cleared : List Buffer
    cleared = set bufs clock (record b { state = clear_reference b.state })

-- What the second sweep found: a buffer that is not dirty, or that all it came to are.
abbrev pub SeenClean : ℕ → ℕ → List Buffer → ℕ → Option ℕ → ℕ → Type 0
SeenClean size i bufs clock none clock' =
    (k : ℕ) (b : Buffer)
    → IsAhead size clock i k
    → get_elem? bufs k ≡ some b
    → is_dirty b.state ≡ true
SeenClean size i bufs clock (some index) clock' =
    (index ≡ clock') × ((b : Buffer) × (get_elem? bufs index ≡ some b) × (is_dirty b.state ≡ false))

pub record SweptClean (size i : ℕ) (bufs : List Buffer) (clock : ℕ) (r : Option ℕ × ℕ)
    : Type 0 where
  pub inside : r.1 < size
  pub seen : SeenClean size i bufs clock r.0 r.1

module _ (size i : ℕ) (bufs : List Buffer) (clock : ℕ) (b : Buffer) (c : clock < size)
    (size_eq : size ≡ length bufs) (e : get_elem? bufs clock ≡ some b)
    (dirty : is_dirty b.state ≡ true) where
  SweptClean-step :
      (r : Option ℕ × ℕ)
      → SweptClean size i bufs (advance size clock) r
      → SweptClean size (suc i) bufs clock r
  SweptClean-step (none, d) w = record {
    inside = w.inside;
    seen = λ k v a f. elim (ℕ_discrete clock k) [
      | yes q ↦
          subst (λ x. is_dirty x.state ≡ true)
            (some-injective _ _ (sym e ∙ subst (λ x. get_elem? bufs x ≡ some v) (sym q) f)) dirty
      | no q ↦
          w.seen k v (IsAhead-suc size clock i k c (omega (arith, get_elem?-lt bufs k f)) a q) f
    ];
  }
  SweptClean-step (some index, d) w = record { inside = w.inside; seen = w.seen }

pub sweep_two-SweptClean :
    (size i : ℕ) (bufs : List Buffer) (clock : ℕ)
    → clock < size
    → size ≡ length bufs
    → Returns (SweptClean size i bufs clock) (sweep_two size i bufs clock)
unfolding sweep_two
sweep_two-SweptClean size zero bufs clock c size_eq =
    returns (record { inside = c; seen = λ k b a e. absurd (omega arith) })
sweep_two-SweptClean size (suc i) bufs clock c size_eq =
    rw (e, sweep_two)
      (elim (Bool-cases (is_dirty b.state)) [
        | inl dirty ↦ rw dirty (
            mono
              (sweep_two-SweptClean size i bufs (advance size clock) (advance-lt size clock c)
                size_eq)
              (SweptClean-step size i bufs clock b c size_eq e dirty))
        | inr clean ↦ rw clean (returns (record { inside = c; seen = (refl, (b, e, clean)) }))
      ])
  where
    found : (b : Buffer) × (get_elem? bufs clock ≡ some b)
    found = get_elem?-some bufs clock (omega arith)

    b : Buffer
    b = found.0

    e : get_elem? bufs clock ≡ some b
    e = found.1
