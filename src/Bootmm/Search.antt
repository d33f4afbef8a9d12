-- ===== src/Bootmm/Search.antt =====
-- kernel/mm/bootmm.c: the search for a run of free pages, `find_pages`, and the marks of `set_maps`.
use huge_pie.Bootmm.{scan, find_loop, page_free, page_used, Scan, found, blocked, over}
use huge_pie.Base.{
  ℕ, ℕ_discrete, dec_lt, ◌-◌, zero, suc, ◌+◌, ◌%◌, ◌^◌, ◌≤◌, ◌<◌, ◌⊎◌, inl, inr, ◌≡◌, sym, ap, ◌∙◌,
  Option, none, some, List, [], ◌∷◌, get_elem?, length, leb, All, Returns, returns, bind, mono,
  Bool-cases, arith, get_elem?-some, some-injective,
}

-- Each byte of the map says that its page is free or in use.
abbrev pub IsMark : ℕ → Type 0
IsMark b = (b ≡ page_free) ⊎ (b ≡ page_used)

-- `cnt` free pages from `index` on, all below `e_pfn`.
abbrev pub IsFree : List ℕ → ℕ → ℕ → ℕ → Type 0
IsFree map e_pfn index cnt =
    (i : ℕ) → index ≤ i → i < index + cnt → (i < e_pfn) × (get_elem? map i ≡ some page_free)

pub All-get_elem? :
    (P : ℕ → Type 0) (xs : List ℕ) (i : ℕ) {x : ℕ} → All P xs → get_elem? xs i ≡ some x → P x
All-get_elem? P [] i a e = absurd cc
All-get_elem? P (y ∷ ys) zero a e = rw (sym (some-injective _ _ e)) a.0
All-get_elem? P (y ∷ ys) (suc i) a e = All-get_elem? P ys i a.1 e

-- How the inner loop ends.
pub data Scanned (map : List ℕ) (e_pfn : ℕ) : ℕ → ℕ → Scan → Type 0 where
  scanned_found :
      {count temp : ℕ} → IsFree map e_pfn temp count → Scanned map e_pfn count temp found
  scanned_blocked :
      {count temp t : ℕ}
      → temp ≤ t
      → t < temp + count
      → t < e_pfn
      → get_elem? map t ≡ some page_used
      → Scanned map e_pfn count temp (blocked t)
  scanned_over : {count temp : ℕ} → e_pfn < temp + count → Scanned map e_pfn count temp over

module _ (map : List ℕ) (e_pfn : ℕ) (m : All IsMark map) (le : e_pfn ≤ length map) where
  IsFree-cons :
      (count temp : ℕ)
      → temp < e_pfn
      → get_elem? map temp ≡ some page_free
      → IsFree map e_pfn (temp + 1) count
      → IsFree map e_pfn temp (suc count)
  IsFree-cons count temp lt g f i a b = elim (ℕ_discrete i temp) [
    | yes e ↦ rw e (lt, g)
    | no ne ↦ f i (omega arith) (omega arith)
  ]

  Scanned-cons :
      (count temp : ℕ) (s : Scan)
      → temp < e_pfn
      → get_elem? map temp ≡ some page_free
      → Scanned map e_pfn count (temp + 1) s
      → Scanned map e_pfn (suc count) temp s
  Scanned-cons count temp s lt g (scanned_found f) = scanned_found (IsFree-cons count temp lt g f)
  Scanned-cons count temp s lt g (scanned_blocked a b c u) =
      scanned_blocked (omega arith) (omega arith) c u
  Scanned-cons count temp s lt g (scanned_over o) = scanned_over (omega arith)

  pub scan-Scanned :
      (count temp : ℕ) → Returns (Scanned map e_pfn count temp) (scan map e_pfn count temp)
  unfolding scan
  scan-Scanned zero temp = returns (scanned_found (λ i a b. absurd (omega arith)))
  scan-Scanned (suc count) temp = elim (Bool-cases (leb e_pfn temp)) [
    | inl stop ↦ rw stop (returns (scanned_over (ground arith)))
    | inr inside ↦
        let lt : temp < e_pfn = ground arith in
        let (b, g) = get_elem?-some map temp (omega arith) in
        rw (inside, g)
          elim (All-get_elem? IsMark map temp m g) [
            | inl free ↦ rw free (
                mono (scan-Scanned count (temp + 1))
                  (λ s r. Scanned-cons count temp s lt (g ∙ ap some free) r))
            | inr used ↦
                rw used
                  (returns (scanned_blocked (omega arith) (omega arith) lt (g ∙ ap some used)))
          ]
  ]

  -- What the outer loop finds: the first page of a run, or that no run is left. The second holds
  -- unless the loop jumps over pages, `1 < align_pfn`.
  pub data Found (cnt align_pfn start : ℕ) : Option ℕ → Type 0 where
    found_run : {i : ℕ} → start ≤ i → IsFree map e_pfn i cnt → Found cnt align_pfn start (some i)
    found_none :
        (align_pfn ≤ 1 → (i : ℕ) → start ≤ i → ¬ IsFree map e_pfn i cnt)
        → Found cnt align_pfn start none

  IsFree-used :
      (cnt i t : ℕ)
      → i ≤ t
      → t < i + cnt
      → get_elem? map t ≡ some page_used
      → ¬ IsFree map e_pfn i cnt
  IsFree-used cnt i t a b u f =
      absurd (let e : some page_free ≡ some page_used = sym (f t a b).1 ∙ u in cc)

  Found-skip :
      (cnt align_pfn start next : ℕ) (r : Option ℕ)
      → start ≤ next
      → (align_pfn ≤ 1 → (i : ℕ) → start ≤ i → i < next → ¬ IsFree map e_pfn i cnt)
      → Found cnt align_pfn next r
      → Found cnt align_pfn start r
  Found-skip cnt align_pfn start next r le' skip (found_run a f) = found_run (omega arith) f
  Found-skip cnt align_pfn start next r le' skip (found_none n) =
      found_none
        (λ al i a. elim (dec_lt i next) [ yes lt ↦ skip al i a lt | no ge ↦ n al i (omega arith) ])

  module _ (cnt align_pfn : ℕ) (pos : 0 < cnt) (word : e_pfn + align_pfn ≤ 2 ^ 32) where
    Found-over : (index : ℕ) → e_pfn < index + cnt → Found cnt align_pfn index none
    Found-over index o = found_none (λ al i a f.
        absurd (let lt = (f (i + (cnt - 1)) (omega arith) (omega arith)).0 in omega arith))

    -- The rounds that follow the inner loop.
    Found-blocked :
        (index t : ℕ) (o : Option (Option ℕ))
        → index ≤ t
        → t < index + cnt
        → get_elem? map t ≡ some page_used
        → Returns (Found cnt align_pfn (t + align_pfn)) o
        → Returns (Found cnt align_pfn index) o
    Found-blocked index t o a b u r = mono r (λ next f.
        Found-skip cnt align_pfn index (t + align_pfn) next (omega arith)
          (λ al i c d. IsFree-used cnt i t (omega arith) (omega arith) u) f)

    Found-used :
        (index : ℕ) (o : Option (Option ℕ))
        → get_elem? map index ≡ some page_used
        → Returns (Found cnt align_pfn (index + 1)) o
        → Returns (Found cnt align_pfn index) o
    Found-used index o u r = mono r (λ next f.
        Found-skip cnt align_pfn index (index + 1) next (omega arith)
          (λ al i c d. IsFree-used cnt i index (omega arith) (omega arith) u) f)

    -- The round after the inner loop, where the next rounds are right.
    round-Found :
        (fuel index : ℕ) (s : Scan)
        → ((next : ℕ)
            → index < next
            → Returns (Found cnt align_pfn next) (find_loop fuel map cnt e_pfn align_pfn next))
        → get_elem? map index ≡ some page_free
        → Scanned map e_pfn cnt index s
        → Returns (Found cnt align_pfn index) (elim s [
          | found ↦ some (some index)
          | blocked temp ↦ find_loop fuel map cnt e_pfn align_pfn ((temp + align_pfn) % 2 ^ 32)
          | over ↦ some none
        ])
    round-Found fuel index s again free (scanned_found f) = returns (found_run (omega arith) f)
    round-Found fuel index s again free (scanned_over o) = returns (Found-over index o)
    round-Found fuel index s again free (scanned_blocked {t} a b c u) =
        let lt : index < t = elim (ℕ_discrete t index) [
          | yes e ↦ absurd (
              let clash : some page_free ≡ some page_used =
                sym free ∙ ap (get_elem? map) (sym e) ∙ u in
              cc)
          | no ne ↦ omega arith
        ] in
        let small : (t + align_pfn) % 2 ^ 32 ≡ t + align_pfn = omega arith in
        rw small (Found-blocked index t _ a b u (again (t + align_pfn) (omega arith)))

    -- Over a map of marks that reaches up to e_pfn, for at least one page and an align_pfn with
    -- e_pfn + align_pfn at most 2^32, the loops of find_pages from a page on end with the fuel
    -- given, if that is at least one unit and the page plus the fuel is above e_pfn. They end with
    -- a run of free pages that starts at or above this page and lies below e_pfn, or without a run;
    -- with align_pfn at most 1, the second only if there is no such run.
    pub find_loop-Found :
        (fuel index : ℕ)
        → 0 < fuel
        → e_pfn < fuel + index
        → Returns (Found cnt align_pfn index) (find_loop fuel map cnt e_pfn align_pfn index)
    unfolding find_loop
    find_loop-Found zero index z h = absurd (omega arith)
    find_loop-Found (suc fuel) index z h = elim (Bool-cases (leb e_pfn index)) [
      | inl stop ↦ rw stop (returns (Found-over index (ground arith)))
      | inr inside ↦
          let lt : index < e_pfn = ground arith in
          let (b, g) = get_elem?-some map index (omega arith) in
          rw (inside, g)
            elim (All-get_elem? IsMark map index m g) [
              | inr used ↦ rw used (
                  Found-used index _ (g ∙ ap some used)
                    (find_loop-Found fuel (index + 1) (omega arith) (omega arith)))
              | inl free ↦ rw free (
                  bind (scan-Scanned cnt index) (λ s r.
                    round-Found fuel index s
                      (λ next l. find_loop-Found fuel next (omega arith) (omega arith))
                      (g ∙ ap some free) r))
            ]
    ]
