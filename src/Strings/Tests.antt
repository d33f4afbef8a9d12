-- ===== src/Strings/Tests.antt =====
-- utils/utils.c: runs on short strings.
use huge_pie.Strings.{kernel_strcmp, kernel_strcpy, kernel_memcpy, kernel_memset}
use huge_pie.Strings.Compare.{Tells, kernel_strcmp-Tells}
use huge_pie.Strings.Copy.{kernel_strcpy_lem, kernel_memset_lem}
use huge_pie.Base.{refl, ℕ, ◌≡◌, some, List, [], ◌∷◌, Returns, arith}

abbrev ls : List ℕ
ls = 108 ∷ 115 ∷ []

abbrev lsd : List ℕ
lsd = 108 ∷ 115 ∷ 100 ∷ []

kernel_strcmp-Tells_example :
    Returns (Tells ls lsd) (kernel_strcmp (108 ∷ 115 ∷ 0 ∷ 7 ∷ []) (108 ∷ 115 ∷ 100 ∷ 0 ∷ []))
kernel_strcmp-Tells_example =
    kernel_strcmp-Tells ls lsd (7 ∷ []) []
      ((omega arith, omega arith), ((omega arith, omega arith), tt))
      ((omega arith, omega arith), ((omega arith, omega arith), ((omega arith, omega arith), tt)))

kernel_strcpy_lem_example :
    kernel_strcpy (1 ∷ 2 ∷ 3 ∷ 4 ∷ []) (108 ∷ 115 ∷ 0 ∷ 9 ∷ []) ≡ some (108 ∷ 115 ∷ 0 ∷ 4 ∷ [])
kernel_strcpy_lem_example =
    kernel_strcpy_lem (1 ∷ 2 ∷ 3 ∷ 4 ∷ []) ls (9 ∷ [])
      ((omega arith, omega arith), ((omega arith, omega arith), tt)) (omega arith)

copy_two : kernel_memcpy (1 ∷ 2 ∷ 3 ∷ []) lsd 2 ≡ some (108 ∷ 115 ∷ 3 ∷ [])
unfolding kernel_memcpy
copy_two = refl

kernel_memset_lem_example : kernel_memset (1 ∷ 2 ∷ 3 ∷ []) 7 2 ≡ some (255 ∷ 255 ∷ 3 ∷ [])
kernel_memset_lem_example = kernel_memset_lem (1 ∷ 2 ∷ 3 ∷ []) 7 2 (omega arith) (omega arith)
