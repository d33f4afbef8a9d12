-- ===== src/Strings/Compare.antt =====
-- utils/utils.c: `kernel_strcmp` decides whether two strings are equal.
use huge_pie.Strings.{kernel_strcmp, char_difference, difference}
use huge_pie.Base.{
  ℕ, suc, ◌+◌, ◌-◌, ◌<◌, ℤ, pos, pos_part, neg_part, ◌≡◌, ◌≢◌, ◌↔◌, refl, ap, ap₂, inl, inr,
  Bool-cases, false, List, [], ◌∷◌, ◌++◌, All, leb, ◌==◌, if◌then◌else◌, Returns, returns, mono,
  arith, ==→eq, ==→ne, ne→==,
}

-- A byte of a string.
abbrev pub IsChar : ℕ → Type 0
IsChar b = (0 < b) × (b < 256)

-- The result of a comparison is 0 for equal strings and no others.
abbrev pub Tells : List ℕ → List ℕ → ℤ → Type 0
Tells s t r = (r ≡ pos 0) ↔ (s ≡ t)

difference_ne : (x y : ℕ) → x ≢ y → difference x y ≢ pos 0
difference_ne x y ne = elim (Bool-cases (leb y x)) [
  | inl le ↦ rw le (λ e. let z : x - y ≡ 0 = ap pos_part e in ne (ground arith))
  | inr gt ↦ rw gt (λ e. let z : suc (y - x - 1) ≡ 0 = ap neg_part e in absurd (omega arith))
]

char_difference_ne : (a b : ℕ) → a < 256 → b < 256 → a ≢ b → char_difference a b ≢ pos 0
char_difference_ne a b la lb ne =
    difference_ne (a + (if leb 128 b then 256 else 0)) (b + (if leb 128 a then 256 else 0))
      (λ e. ne (ground arith))

-- `kernel_strcmp` of two strings that end with a 0 ends without reading behind it, and its result is 0
-- exactly for equal strings.
pub kernel_strcmp-Tells :
    (s t u v : List ℕ)
    → All IsChar s
    → All IsChar t
    → Returns (Tells s t) (kernel_strcmp (s ++ 0 ∷ u) (t ++ 0 ∷ v))
unfolding kernel_strcmp
kernel_strcmp-Tells [] [] u v p q = returns (λ e. refl, λ e. refl)
kernel_strcmp-Tells [] (b ∷ t) u v p q =
    let ne : (0 == b) ≡ false = ne→== 0 b (let h = q.0 in omega arith) in
    let d = char_difference_ne 0 b (omega arith) (q.0.1) (let h = q.0 in omega arith) in
    rw ne (returns (λ e. absurd (d e), λ e. absurd cc))
kernel_strcmp-Tells (a ∷ s) [] u v p q =
    let ne : (a == 0) ≡ false = ne→== a 0 (let h = p.0 in omega arith) in
    let d = char_difference_ne a 0 (p.0.1) (omega arith) (let h = p.0 in omega arith) in
    rw ne (returns (λ e. absurd (d e), λ e. absurd cc))
kernel_strcmp-Tells (a ∷ s) (b ∷ t) u v p q =
    let z : (a == 0) ≡ false = ne→== a 0 (let h = p.0 in omega arith) in
    elim (Bool-cases (a == b)) [
      | inl same ↦
          rw (same, z)
            (mono (kernel_strcmp-Tells s t u v p.1 q.1)
              (λ r h. (λ e. ap₂ (λ x l. x ∷ l) (==→eq a b same) (h.0 e), λ e. h.1 cc)))
      | inr other ↦ rw other (
          returns (
            (λ e. absurd (char_difference_ne a b p.0.1 q.0.1 (==→ne a b other) e)),
            λ e. absurd (==→ne a b other cc),
          ))
    ]
