-- ===== src/Strings/Copy.antt =====
-- utils/utils.c: `kernel_strcpy`, `kernel_memcpy` and `kernel_memset`.
use huge_pie.Strings.{kernel_strcpy, kernel_memcpy, kernel_memset}
use huge_pie.Strings.Compare.{IsChar}
use huge_pie.Base.{
  ℕ, zero, suc, ◌+◌, ◌≤◌, ◌<◌, ◌≡◌, ◌≢◌, refl, ap, false, some, List, [], ◌∷◌, ◌++◌, All, length,
  ◌==◌, arith, ne→==,
}

-- The list without its first items, and its first items.
abbrev pub drop : List ℕ → ℕ → List ℕ
drop xs zero = xs
drop [] (suc n) = []
drop (x ∷ xs) (suc n) = drop xs n

abbrev pub take : List ℕ → ℕ → List ℕ
take xs zero = []
take [] (suc n) = []
take (x ∷ xs) (suc n) = x ∷ take xs n

abbrev pub replicate : ℕ → ℕ → List ℕ
replicate zero b = []
replicate (suc n) b = b ∷ replicate n b

-- `kernel_strcpy` copies the string and its final 0, and keeps what is behind, if there is room for them.
pub kernel_strcpy_lem :
    (dest s u : List ℕ)
    → All IsChar s
    → length s < length dest
    → kernel_strcpy dest (s ++ 0 ∷ u) ≡ some (s ++ 0 ∷ drop dest (length s + 1))
unfolding kernel_strcpy
kernel_strcpy_lem [] s u p h = absurd (omega arith)
kernel_strcpy_lem (a ∷ dest) [] u p h = refl
kernel_strcpy_lem (a ∷ dest) (b ∷ s) u p h =
    let ne : (b == 0) ≡ false = ne→== b 0 (let q = p.0 in omega arith) in
    let e : suc (length s) + 1 ≡ suc (length s + 1) = omega arith in
    rw (ne, kernel_strcpy_lem dest s u p.1 (omega arith), e) refl

-- `kernel_memcpy` copies the first `len` bytes, and keeps what is behind, if both objects are that long.
pub kernel_memcpy_lem :
    (dest src : List ℕ) (len : ℕ)
    → len ≤ length dest
    → len ≤ length src
    → kernel_memcpy dest src len ≡ some (take src len ++ drop dest len)
unfolding kernel_memcpy
kernel_memcpy_lem dest src zero h k = refl
kernel_memcpy_lem [] src (suc len) h k = absurd (omega arith)
kernel_memcpy_lem (a ∷ dest) [] (suc len) h k = absurd (omega arith)
kernel_memcpy_lem (a ∷ dest) (b ∷ src) (suc len) h k =
    rw (kernel_memcpy_lem dest src len (omega arith) (omega arith)) refl

-- `kernel_memset` writes `len` bytes of 255, whatever the byte is, if it is not 0, and keeps what is behind,
-- if the object is that long.
pub kernel_memset_lem :
    (dest : List ℕ) (b len : ℕ)
    → b ≢ 0
    → len ≤ length dest
    → kernel_memset dest b len ≡ some (replicate len 255 ++ drop dest len)
unfolding kernel_memset
kernel_memset_lem dest b zero nz h = refl
kernel_memset_lem [] b (suc len) nz h = absurd (omega arith)
kernel_memset_lem (a ∷ dest) b (suc len) nz h =
    let ne : (b == 0) ≡ false = ne→== b 0 nz in
    rw (kernel_memset_lem dest b len nz (omega arith), ne) refl

pub length-take : (xs : List ℕ) (n : ℕ) → n ≤ length xs → length (take xs n) ≡ n
length-take xs zero h = refl
length-take [] (suc n) h = absurd (omega arith)
length-take (x ∷ xs) (suc n) h = ap suc (length-take xs n (omega arith))
