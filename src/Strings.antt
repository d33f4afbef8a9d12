-- ===== src/Strings.antt =====
-- utils/utils.c: strings and memory. A pointer is the list of the bytes from there to the end of its object;
-- `none` is an access behind the end.
pub mod Compare
pub mod Copy
mod Tests
use huge_pie.Base.{
  ℕ, zero, suc, ◌+◌, ◌-◌, ℤ, pos, negsuc, Bool, not, ◌&&◌, Option, none, some, List, [], ◌∷◌, leb,
  ◌==◌, if◌then◌else◌, ◌>>=◌,
}

-- `a - b` of two numbers.
abbrev pub difference : ℕ → ℕ → ℤ
difference a b = if leb b a then pos (a - b) else negsuc (b - a - 1)

-- `*dest - *src` of two bytes: a `char` has a sign, so a byte from 128 on stands for itself less 256.
abbrev pub char_difference : ℕ → ℕ → ℤ
char_difference a b =
    difference (a + (if leb 128 b then 256 else 0)) (b + (if leb 128 a then 256 else 0))

unfoldable pub kernel_strcmp : List ℕ → List ℕ → Option ℤ
kernel_strcmp [] src = none
kernel_strcmp (a ∷ dest) [] = none
kernel_strcmp (a ∷ dest) (b ∷ src) =
    let rest = kernel_strcmp dest src in
    if (a == b) && not (a == 0) then rest else some (char_difference a b)

-- The bytes at the destination afterwards.
unfoldable pub kernel_strcpy : List ℕ → List ℕ → Option (List ℕ)
kernel_strcpy [] src = none
kernel_strcpy (a ∷ dest) [] = none
kernel_strcpy (a ∷ dest) (b ∷ src) =
    let rest = kernel_strcpy dest src in
    if b == 0 then some (b ∷ dest) else (do dest' ← rest; some (b ∷ dest'))

-- The two objects do not overlap, and the length is not negative.
unfoldable pub kernel_memcpy : List ℕ → List ℕ → ℕ → Option (List ℕ)
kernel_memcpy dest src zero = some dest
kernel_memcpy [] src (suc len) = none
kernel_memcpy (a ∷ dest) [] (suc len) = none
kernel_memcpy (a ∷ dest) (b ∷ src) (suc len) = do
  dest' ← kernel_memcpy dest src len
  some (b ∷ dest')

-- `content` is -1 for each value but 0.
unfoldable pub kernel_memset : List ℕ → ℕ → ℕ → Option (List ℕ)
kernel_memset dest b zero = some dest
kernel_memset [] b (suc len) = none
kernel_memset (a ∷ dest) b (suc len) = do
  dest' ← kernel_memset dest b len
  some ((if b == 0 then 0 else 255) ∷ dest')
