-- ===== src/Base/Int.antt =====
-- Signed integers over the native numbers, under the library's names: a C `int`.
use Prim.Native.Nat.{ℕ, suc, ◌+◌, ◌-◌, ◌^◌, Ordering}
use Prim.Native.Nat.Ordering.{lt, eq, gt}
use mathlib.Core.Path.{◌≡◌}
use mathlib.Core.Bool.{Bool}
use native.Mathlib.Omega.{arith}
use huge_pie.Base.Tests.{ltb, ◌==◌, if◌then◌else◌}

-- `negsuc n` is -(n + 1).
pub data ℤ : Type 0 where
  pos : ℕ → ℤ
  negsuc : ℕ → ℤ

abbrev pub pos_part : ℤ → ℕ
pos_part (pos n) = n
pos_part (negsuc n) = 0

abbrev pub neg_part : ℤ → ℕ
neg_part (pos n) = 0
neg_part (negsuc n) = suc n

abbrev pub ltb_ℤ : ℤ → ℤ → Bool
ltb_ℤ a b = ltb (pos_part a + neg_part b) (pos_part b + neg_part a)

abbrev pub eqb_ℤ : ℤ → ℤ → Bool
eqb_ℤ a b = pos_part a + neg_part b == pos_part b + neg_part a

infix 50 ◌<ℤ◌ ◌≤ℤ◌
abbrev pub ◌<ℤ◌ : ℤ → ℤ → Type 0
a <ℤ b = ltb_ℤ a b ≡ Bool.true

abbrev pub ◌≤ℤ◌ : ℤ → ℤ → Type 0
a ≤ℤ b = ltb_ℤ b a ≡ Bool.false

-- `x + 1` of a 32-bit `int`, which wraps at the greatest value.
unfoldable pub inc_int : ℤ → ℤ
inc_int (pos n) = if n == 2 ^ 31 - 1 then negsuc (2 ^ 31 - 1) else pos (n + 1)
inc_int (negsuc n) = if n == 0 then pos 0 else negsuc (n - 1)

-- `x - 1`, which wraps at the least value.
unfoldable pub dec_int : ℤ → ℤ
dec_int (pos n) = if n == 0 then negsuc 0 else pos (n - 1)
dec_int (negsuc n) = if n == 2 ^ 31 - 1 then pos (2 ^ 31 - 1) else negsuc (n + 1)

-- `(x > y) ? 1 : (x == y) ? 0 : -1`, with 1, 0 and -1 as `gt`, `eq` and `lt`.
unfoldable pub cmp_int : ℤ → ℤ → Ordering
cmp_int x y = if ltb_ℤ y x then gt else if eqb_ℤ x y then eq else lt

pub cmp_int_refl : (a : ℤ) → cmp_int a a ≡ eq
unfolding cmp_int
cmp_int_refl a = ground arith

pub eq_of_cmp_int : (a b : ℤ) → cmp_int a b ≡ eq → a ≡ b
unfolding cmp_int
eq_of_cmp_int a b h = ground arith

pub cmp_int-lt_of_gt : (a b : ℤ) → cmp_int a b ≡ gt → cmp_int b a ≡ lt
unfolding cmp_int
cmp_int-lt_of_gt a b h = ground arith

pub cmp_int-gt_of_lt : (a b : ℤ) → cmp_int a b ≡ lt → cmp_int b a ≡ gt
unfolding cmp_int
cmp_int-gt_of_lt a b h = ground arith

pub cmp_int_trans : (a b c : ℤ) → cmp_int a b ≡ lt → cmp_int b c ≡ lt → cmp_int a c ≡ lt
unfolding cmp_int
cmp_int_trans a b c h k = ground arith

pub inc_int-gt : (v : ℤ) → v <ℤ pos (2 ^ 31 - 1) → cmp_int (inc_int v) v ≡ gt
unfolding inc_int cmp_int
inc_int-gt v h = ground arith

pub inc_int_nonneg : (v : ℤ) → pos 0 ≤ℤ v → v <ℤ pos (2 ^ 31 - 1) → pos 0 ≤ℤ inc_int v
unfolding inc_int
inc_int_nonneg v p h = ground arith
