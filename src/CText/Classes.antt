-- ===== src/CText/Classes.antt =====
-- The classes of ctype.c.
use dancy.Base.{ℕ, ◌+◌, ◌≡◌, Bool, ltb, ◌==◌, if◌then◌else◌, arith}
use dancy.CText.{
  islower, isupper, isdigit, isalpha, isalnum, iscntrl, isprint, isspace, ispunct, tolower, toupper,
}

abbrev pub one : Bool → ℕ
one b = if b then 1 else 0

-- Every character below 128 is in just one of the classes: control characters, the space, punctuation,
-- digits, upper-case and lower-case letters; and a character from 128 on is in none.
pub classes_partition :
    (c : ℕ)
    → one (iscntrl c)
        + one (c == 0x20)
        + one (ispunct c)
        + one (isdigit c)
        + one (isupper c)
        + one (islower c)
      ≡ one (ltb c 128)
unfolding iscntrl ispunct isprint isalnum isalpha isspace isdigit isupper islower
classes_partition c = ground arith

-- `toupper` gives a letter just for letters, an upper-case one, and `tolower` a lower-case one; either forgets
-- what the other has done.
pub tolower-toupper :
    (c : ℕ)
    → (isupper (toupper c) ≡ isalpha c)
      × (islower (tolower c) ≡ isalpha c)
      × (tolower (toupper c) ≡ tolower c)
      × (toupper (tolower c) ≡ toupper c)
unfolding tolower toupper isalpha isupper islower
tolower-toupper c = (ground arith, ground arith, ground arith, ground arith)
