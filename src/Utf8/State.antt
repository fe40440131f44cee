-- ===== src/Utf8/State.antt =====
-- The states that `utf8_decode` leaves behind, whatever bytes come.
use dancy.Base.{
  ℕ, ◌+◌, ◌*◌, ◌/◌, ◌%◌, ◌^◌, ◌≤◌, ◌<◌, ◌≡◌, ◌≢◌, ◌⊎◌, inl, inr, arith, ◌==◌, if◌then◌else◌,
}
use dancy.Utf8.{Decoded, char, waiting_next, error_consume, error_retry, check_char, decode}
use dancy.Utf8.Bytes.{pack, first_by_range, next_by_range}
use dancy.Utf8.Words.{IsScalar, decode_zero, decode-pack}

-- An open sequence, read off the state: the value so far, the number of continuation bytes, and how
-- many of them are to come.
abbrev pub value : ℕ → ℕ
value s = s / 16

abbrev pub continuations : ℕ → ℕ
continuations s = s % 16 / 4

abbrev pub left : ℕ → ℕ
left s = s % 4

abbrev pub room : ℕ → ℕ
room r = if r == 1 then 2 ^ 15 else if r == 2 then 2 ^ 9 else 2 ^ 3

pub record IsOpen (s : ℕ) : Type 0 where
  pub some_left : 0 < left s
  pub left_le : left s ≤ continuations s
  pub small : value s < room (left s)

-- No sequence is open, or one is.
abbrev pub IsState : ℕ → Type 0
IsState s = (s ≡ 0) ⊎ IsOpen s

-- What a call promises on each of its results: a code point is a scalar value, and every result but
-- `waiting_next` closes the sequence.
abbrev pub Promise : Decoded → ℕ → Type 0
Promise (char v) s = IsScalar v × (s ≡ 0)
Promise waiting_next s = IsOpen s
Promise error_consume s = s ≡ 0
Promise error_retry s = s ≡ 0

first_Promise : (c : ℕ) → c < 256 → Promise (first_by_range c).0 (first_by_range c).1
first_Promise c h = ground arith

check_char-Promise : (o val : ℕ) → 0 < o → o < 4 → Promise (check_char (o * 4 + 1) val) 0
unfolding check_char
check_char-Promise o val h h' = ground arith

next_Promise :
    (v o r c : ℕ)
    → 0 < r
    → r ≤ o
    → o < 4
    → v < room r
    → Promise (next_by_range v o r c).0 (next_by_range v o r c).1
unfolding check_char
next_Promise v o r c h h' h'' hv = ground arith

pack_parts : (s : ℕ) → s ≡ pack (value s) (continuations s) (left s)
pack_parts s = omega arith

open_Promise : (s c : ℕ) → IsOpen s → c < 256 → Promise (decode s c).0 (decode s c).1
open_Promise s c p hc =
    rw
      (
        pack_parts s,
        decode-pack (value s) (continuations s) (left s) c bound (omega arith) (omega arith)
            (omega arith) hc,
      )
      (next_Promise (value s) (continuations s) (left s) c p.some_left p.left_le (omega arith)
        p.small)
  where
    bound : value s < 2 ^ 15
    bound = ground arith

-- Whatever byte comes, in each state that `utf8_decode` can be in: it returns a scalar value, and no
-- surrogate or number past 0x10ffff, with the sequence closed; or it waits, in such a state again; or
-- it reports an error, with the sequence closed.
pub decode-Promise : (s c : ℕ) → IsState s → c < 256 → Promise (decode s c).0 (decode s c).1
decode-Promise s c (inl e) hc = rw (e, decode_zero c hc) (first_Promise c hc)
decode-Promise s c (inr p) hc = open_Promise s c p hc

zero-ne-retry : (c : ℕ) → c < 256 → (decode 0 c).0 ≢ error_retry
zero-ne-retry c hc e = never (rw (decode_zero c hc) at e)
  where
    never : ¬ ((first_by_range c).0 ≡ error_retry)
    never h = ground arith

retry_closes : (d : Decoded) (s : ℕ) → d ≡ error_retry → Promise d s → s ≡ 0
retry_closes error_retry s e h = h
retry_closes _ s e h = cc

-- A byte that `utf8_decode` asks to be given again, when it breaks off a sequence, is taken the second
-- time: `error_retry` is answered in no state but an open one, which it closes.
pub decode-retry :
    (s c : ℕ)
    → IsState s
    → c < 256
    → (decode s c).0 ≡ error_retry
    → IsOpen s × ((decode s c).1 ≡ 0) × ((decode (decode s c).1 c).0 ≢ error_retry)
decode-retry s c (inl z) hc e = absurd (zero-ne-retry c hc (rw z at e))
decode-retry s c (inr p) hc e =
    let closed = retry_closes _ _ e (open_Promise s c p hc) in
    (p, closed, rw closed (zero-ne-retry c hc))
