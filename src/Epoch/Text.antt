-- ===== src/Epoch/Text.antt =====
-- Numbers of two and four digits in the text of epoch.c.
use dancy.Base.{
  get_or, some, ℕ, suc, ◌+◌, ◌-◌, ◌*◌, ◌/◌, ◌%◌, ◌≡◌, ◌<◌, refl, ◌∙◌, ap, List, [], ◌∷◌, arith,
}
use dancy.Epoch.{write_digits, write_number, read_number}

pub write_two : (v : ℕ) → v < 100 → write_number 2 v ≡ (0x30 + v / 10) ∷ ((0x30 + v % 10) ∷ [])
unfolding write_number write_digits
write_two v h = ground arith

pub write_four :
    (v : ℕ)
    → v < 10000
    → write_number 4 v
      ≡ (0x30 + v / 1000)
        ∷ ((0x30 + v / 100 % 10) ∷ ((0x30 + v / 10 % 10) ∷ ((0x30 + v % 10) ∷ [])))
unfolding write_number write_digits
write_four v h = ground arith

read-digit :
    (str : List ℕ) (n i val d : ℕ)
    → get_or str i 0 ≡ 0x30 + d
    → d < 10
    → read_number str (suc n) i val ≡ read_number str n (i + 1) (val * 10 + d)
unfolding read_number
read-digit str n i val d e h =
    let same : 0x30 + d - 0x30 ≡ d = omega arith in rw (e, same) (ground arith)

read-end : (str : List ℕ) (i val : ℕ) → read_number str 0 i val ≡ some val
unfolding read_number
read-end str i val = refl

pub read_two :
    (str : List ℕ) (i v : ℕ)
    → v < 100
    → get_or str i 0 ≡ 0x30 + v / 10
    → get_or str (i + 1) 0 ≡ 0x30 + v % 10
    → read_number str 2 i 0 ≡ some v
read_two str i v h e e' =
    read-digit str 1 i 0 (v / 10) e (omega arith)
    ∙ read-digit str 0 (i + 1) _ (v % 10) e' (omega arith)
    ∙ read-end str (i + 1 + 1) _
    ∙ ap some (omega arith)

pub read_four :
    (str : List ℕ) (i v : ℕ)
    → v < 10000
    → get_or str i 0 ≡ 0x30 + v / 1000
    → get_or str (i + 1) 0 ≡ 0x30 + v / 100 % 10
    → get_or str (i + 1 + 1) 0 ≡ 0x30 + v / 10 % 10
    → get_or str (i + 1 + 1 + 1) 0 ≡ 0x30 + v % 10
    → read_number str 4 i 0 ≡ some v
read_four str i v h e e' e'' e''' =
    read-digit str 3 i 0 (v / 1000) e (omega arith)
    ∙ read-digit str 2 (i + 1) _ (v / 100 % 10) e' (omega arith)
    ∙ read-digit str 1 (i + 1 + 1) _ (v / 10 % 10) e'' (omega arith)
    ∙ read-digit str 0 (i + 1 + 1 + 1) _ (v % 10) e''' (omega arith)
    ∙ read-end str (i + 1 + 1 + 1 + 1) _
    ∙ ap some (omega arith)
