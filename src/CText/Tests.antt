-- ===== src/CText/Tests.antt =====
-- Runs of string.c and ctype.c, and their properties at strings.
use dancy.Base.{ℕ, ◌≡◌, refl, List, [], ◌∷◌, arith}
use dancy.Base.Int.{pos}
use dancy.CText.{differ, strcmp, strncmp}
use dancy.CText.Strings.{IsString, compare_lists, strcmp-compare_lists}

abbrev ab : List ℕ
ab = 0x61 ∷ 0x62 ∷ []

abbrev cd : List ℕ
cd = 0x63 ∷ 0x64 ∷ []

ab-IsString : IsString ab
ab-IsString = (omega arith, (omega arith, tt))

cd-IsString : IsString cd
cd-IsString = (omega arith, (omega arith, tt))

strncmp_run : strncmp (0x61 ∷ 0x62 ∷ []) (0x61 ∷ 0x7a ∷ []) 1 ≡ pos 0
unfolding strncmp differ
strncmp_run = refl

strcmp-compare_lists_example : strcmp ab cd ≡ compare_lists ab cd
strcmp-compare_lists_example = strcmp-compare_lists ab cd ab-IsString cd-IsString
