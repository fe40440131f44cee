-- ===== src/CText/Strings.antt =====
-- The functions of string.c against lists.
use dancy.Base.{
  ℕ, zero, suc, ◌-◌, ◌≡◌, ◌<◌, ◌≤◌, refl, ap, ◌∙◌, List, [], ◌∷◌, ◌++◌, take, take-nil, drop,
  replicate, length, ltb, ◌==◌, if◌then◌else◌, arith,
}
use dancy.Base.Int.{ℤ, pos, negsuc}
use dancy.CText.{differ, strcmp, strcpy, strcat, strncpy}

-- No byte is zero.
abbrev pub IsString : List ℕ → Type 0
IsString [] = Unit
IsString (c ∷ s) = (0 < c) × IsString s

-- The order of two lists by the first place where they differ; the empty list comes first.
abbrev pub compare_lists : List ℕ → List ℕ → ℤ
compare_lists [] [] = pos 0
compare_lists [] (d ∷ t) = negsuc 0
compare_lists (c ∷ s) [] = pos 1
compare_lists (c ∷ s) (d ∷ t) =
    let next = compare_lists s t in if ltb c d then negsuc 0 else if ltb d c then pos 1 else next

differ_lem :
    (c d : ℕ) (next : ℤ)
    → 0 < c
    → 0 < d
    → differ c d next ≡ (if ltb c d then negsuc 0 else if ltb d c then pos 1 else next)
unfolding differ
differ_lem c d next h h' = ground arith

-- `strcmp` of two strings is their order by the first byte that differs.
pub strcmp-compare_lists : (s t : List ℕ) → IsString s → IsString t → strcmp s t ≡ compare_lists s t
unfolding strcmp differ
strcmp-compare_lists [] [] h h' = refl
strcmp-compare_lists [] (d ∷ t) h h' = ground (arith, h'.0)
strcmp-compare_lists (c ∷ s) [] h h' = ground (arith, h.0)
strcmp-compare_lists (c ∷ s) (d ∷ t) h h' =
    ground (arith, h.0, h'.0, strcmp-compare_lists s t h.1 h'.1)

-- The bytes before the zero.
abbrev pub string_of : List ℕ → List ℕ
string_of [] = []
string_of (b ∷ buffer) = if b == 0 then [] else b ∷ string_of buffer

strcpy-cons :
    (b c : ℕ) (buffer s : List ℕ) → 0 < c → strcpy (b ∷ buffer) (c ∷ s) ≡ (c ∷ strcpy buffer s)
unfolding strcpy
strcpy-cons b c buffer s h = ground arith

strcpy-nil : (b : ℕ) (buffer : List ℕ) → strcpy (b ∷ buffer) [] ≡ (0 ∷ buffer)
unfolding strcpy
strcpy-nil b buffer = refl

-- What `strcpy` writes: the string and its zero, over as many bytes; those after them stay.
pub strcpy_lem :
    (buffer s : List ℕ)
    → IsString s
    → length s < length buffer
    → strcpy buffer s ≡ s ++ (0 ∷ drop (suc (length s)) buffer)
strcpy_lem [] s h fits = absurd (omega arith)
strcpy_lem (b ∷ buffer) [] h fits = strcpy-nil b buffer
strcpy_lem (b ∷ buffer) (c ∷ s) h fits =
    strcpy-cons b c buffer s h.0 ∙ ap (λ r. c ∷ r) (strcpy_lem buffer s h.1 (omega arith))

strcat-cons : (b : ℕ) (buffer s : List ℕ) → 0 < b → strcat (b ∷ buffer) s ≡ (b ∷ strcat buffer s)
unfolding strcat
strcat-cons b buffer s h = ground arith

strcat-zero : (buffer s : List ℕ) → strcat (0 ∷ buffer) s ≡ strcpy (0 ∷ buffer) s
unfolding strcat
strcat-zero buffer s = refl

-- `strcat` on a buffer that holds the string `a`, its zero and more bytes: if the string `s` and a zero fit,
-- the buffer holds `a`, `s` and a zero then, and its last bytes stay.
pub strcat_lem :
    (a s tail : List ℕ)
    → IsString a
    → IsString s
    → length s ≤ length tail
    → strcat (a ++ (0 ∷ tail)) s ≡ a ++ (s ++ (0 ∷ drop (length s) tail))
strcat_lem [] s tail h h' fits = strcat-zero tail s ∙ strcpy_lem (0 ∷ tail) s h' (omega arith)
strcat_lem (b ∷ a) s tail h h' fits =
    strcat-cons b (a ++ (0 ∷ tail)) s h.0 ∙ ap (λ r. b ∷ r) (strcat_lem a s tail h.1 h' fits)

strncpy-zero : (buffer s : List ℕ) → strncpy buffer s 0 ≡ buffer
unfolding strncpy
strncpy-zero [] s = refl
strncpy-zero (b ∷ buffer) s = refl

strncpy-cons :
    (b c n : ℕ) (buffer s : List ℕ)
    → 0 < c
    → strncpy (b ∷ buffer) (c ∷ s) (suc n) ≡ (c ∷ strncpy buffer s n)
unfolding strncpy
strncpy-cons b c n buffer s h = ground arith

strncpy-nil :
    (b n : ℕ) (buffer : List ℕ) → strncpy (b ∷ buffer) [] (suc n) ≡ (0 ∷ strncpy buffer [] n)
unfolding strncpy
strncpy-nil b n buffer = refl

-- What `strncpy` writes: `n` bytes, the first ones of the string and zeros after it; the bytes after them stay.
pub strncpy_lem :
    (buffer s : List ℕ) (n : ℕ)
    → IsString s
    → n ≤ length buffer
    → strncpy buffer s n ≡ take n s ++ (replicate (n - length s) 0 ++ drop n buffer)
strncpy_lem buffer s zero h fits =
    let e : 0 - length s ≡ 0 = omega arith in rw e (strncpy-zero buffer s)
strncpy_lem [] s (suc n) h fits = absurd (omega arith)
strncpy_lem (b ∷ buffer) [] (suc n) h fits =
    let e : suc n - 0 ≡ suc n = omega arith in
    let e' : n - 0 ≡ n = omega arith in
    let none_left = strncpy_lem buffer [] n tt (omega arith) in
    rw e (strncpy-nil b n buffer ∙ ap (λ r. 0 ∷ r) (rw (take-nil ℕ n, e') at none_left))
strncpy_lem (b ∷ buffer) (c ∷ s) (suc n) h fits =
    let e : suc n - suc (length s) ≡ n - length s = omega arith in
    rw e
      (strncpy-cons b c n buffer s h.0 ∙ ap (λ r. c ∷ r) (strncpy_lem buffer s n h.1 (omega arith)))
