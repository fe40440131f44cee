-- ===== src/CText.antt =====
-- kernel/lib/string.c and kernel/lib/ctype.c. The argument of a function that reads a string is the list of
-- its bytes before the zero at its end; a buffer that is written is the list of all its bytes, and a write
-- past its end changes nothing in the model.
pub mod Strings
pub mod Classes
mod Tests
use dancy.Base.{
  ℕ, zero, suc, ◌+◌, ◌-◌, Bool, true, false, not, ◌&&◌, ◌||◌, List, [], ◌∷◌, ltb, leb, ◌==◌,
  if◌then◌else◌,
}
use dancy.Base.Int.{ℤ, pos, negsuc}

-- `*s` and `s + 1`.
abbrev pub first : List ℕ → ℕ
first [] = 0
first (c ∷ s) = c

abbrev pub rest : List ℕ → List ℕ
rest [] = []
rest (c ∷ s) = s

-- The end of a round in which a byte is zero or the two differ; `next` is the next round.
unfoldable pub differ : ℕ → ℕ → ℤ → ℤ
differ c1 c2 next =
    if (c1 == 0) && (c2 == 0)
    then pos 0
    else if ltb c1 c2
    then negsuc 0
    else if ltb c2 c1
    then pos 1
    else next

unfoldable pub strcmp : List ℕ → List ℕ → ℤ
strcmp [] s2 = differ 0 (first s2) (pos 0)
strcmp (c1 ∷ s1) s2 =
    let next = strcmp s1 (rest s2) in
    if (c1 == 0) || not (c1 == first s2) then differ c1 (first s2) next else next

unfoldable pub strncmp : List ℕ → List ℕ → ℕ → ℤ
strncmp s1 s2 zero = pos 0
strncmp s1 s2 (suc n) =
    let next = strncmp (rest s1) (rest s2) n in
    if (n == 0) || ((first s1 == 0) || not (first s1 == first s2))
    then differ (first s1) (first s2) next
    else next

-- The loop `(*s1 = *s2) == '\0'`, on the bytes of the buffer from `s1` on.
unfoldable pub strcpy : List ℕ → List ℕ → List ℕ
strcpy [] s2 = []
strcpy (b ∷ buffer) [] = 0 ∷ buffer
strcpy (b ∷ buffer) (c ∷ s2) = if c == 0 then 0 ∷ buffer else c ∷ strcpy buffer s2

unfoldable pub strcat : List ℕ → List ℕ → List ℕ
strcat [] s2 = []
strcat (b ∷ buffer) s2 = if b == 0 then strcpy (b ∷ buffer) s2 else b ∷ strcat buffer s2

unfoldable pub strncpy : List ℕ → List ℕ → ℕ → List ℕ
strncpy buffer s2 zero = buffer
strncpy [] s2 (suc n) = []
strncpy (b ∷ buffer) s2 (suc n) =
    first s2 ∷ strncpy buffer (if first s2 == 0 then s2 else rest s2) n

-- ctype.c; a negative argument is in no class, like 128.
unfoldable pub islower : ℕ → Bool
islower c = leb 0x61 c && leb c 0x7a

unfoldable pub isupper : ℕ → Bool
isupper c = leb 0x41 c && leb c 0x5a

unfoldable pub isdigit : ℕ → Bool
isdigit c = leb 0x30 c && leb c 0x39

unfoldable pub isalpha : ℕ → Bool
isalpha c = islower c || isupper c

unfoldable pub isalnum : ℕ → Bool
isalnum c = isalpha c || isdigit c

unfoldable pub isblank : ℕ → Bool
isblank c = (c == 0x20) || (c == 0x09)

unfoldable pub iscntrl : ℕ → Bool
iscntrl c = leb c 0x1f || (c == 0x7f)

unfoldable pub isprint : ℕ → Bool
isprint c = leb 0x20 c && leb c 0x7e

unfoldable pub isgraph : ℕ → Bool
isgraph c = not (c == 0x20) && isprint c

unfoldable pub isspace : ℕ → Bool
isspace c =
    ((c == 0x20) || ((c == 0x0c) || (c == 0x0a))) || ((c == 0x0d) || ((c == 0x09) || (c == 0x0b)))

unfoldable pub ispunct : ℕ → Bool
ispunct c = isprint c && (not (isalnum c) && not (isspace c))

unfoldable pub isxdigit : ℕ → Bool
isxdigit c =
    (leb 0x30 c && leb c 0x39) || ((leb 0x61 c && leb c 0x66) || (leb 0x41 c && leb c 0x46))

unfoldable pub tolower : ℕ → ℕ
tolower c = if not (isupper c) then c else c + 32

unfoldable pub toupper : ℕ → ℕ
toupper c = if not (islower c) then c else c - 32
