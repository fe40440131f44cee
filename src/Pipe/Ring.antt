-- ===== src/Pipe/Ring.antt =====
-- The ring of a pipe as a queue of bytes, oldest first.
use dancy.Base.{
  ℕ, zero, suc, ◌+◌, ◌-◌, ◌%◌, ◌≤◌, ◌<◌, ◌≡◌, refl, ◌≢◌, ap, ap₂, ◌∙◌, sym, arith, Bool, true,
  false, ◌&&◌, List, [], ◌∷◌, ◌++◌, ltb, if◌then◌else◌, get_or, set, length, length-set, take, drop,
  ℕ_discrete,
}
use dancy.Pipe.{pipe_size, Shared, both_open, read_bytes}

module _ (buf : List ℕ) where
  -- The `n` bytes from index `h` on, going round.
  abbrev pub window : ℕ → ℕ → List ℕ
  window h zero = []
  window h (suc n) = get_or buf h 0 ∷ window ((h + 1) % pipe_size) n

  pub length-window : (h n : ℕ) → length (window h n) ≡ n
  length-window h zero = omega arith
  length-window h (suc n) = omega (arith, length-window ((h + 1) % pipe_size) n)

abbrev pub used : Shared → ℕ
used p = (p.end + pipe_size - p.start) % pipe_size

-- The bytes that are in the pipe.
abbrev pub contents : Shared → List ℕ
contents p = window p.base p.start (used p)

pub record IsValid (p : Shared) : Type 0 where
  pub room : length p.base ≡ pipe_size
  pub start_in : p.start < pipe_size
  pub end_in : p.end < pipe_size

get_or-set_ne : (xs : List ℕ) (i j v : ℕ) → i ≢ j → get_or (set xs i v) j 0 ≡ get_or xs j 0
get_or-set_ne [] i j v h = refl
get_or-set_ne (x ∷ xs) zero zero v h = absurd (h refl)
get_or-set_ne (x ∷ xs) zero (suc j) v h = refl
get_or-set_ne (x ∷ xs) (suc i) zero v h = refl
get_or-set_ne (x ∷ xs) (suc i) (suc j) v h = get_or-set_ne xs i j v (λ e. h (ap suc e))

get_or-set_self : (xs : List ℕ) (i v : ℕ) → i < length xs → get_or (set xs i v) i 0 ≡ v
get_or-set_self [] i v h = absurd (omega arith)
get_or-set_self (x ∷ xs) zero v h = refl
get_or-set_self (x ∷ xs) (suc i) v h = get_or-set_self xs i v (omega arith)

-- A store outside a window leaves it as it is: `i` is at least `n` steps round from `h`.
window-set_out :
    (buf : List ℕ) (i v n h : ℕ)
    → i < pipe_size
    → h < pipe_size
    → n ≤ (i + pipe_size - h) % pipe_size
    → window (set buf i v) h n ≡ window buf h n
window-set_out buf i v zero h hi hh far = refl
window-set_out buf i v (suc n) h hi hh far =
    ap₂ ◌∷◌ (get_or-set_ne buf i h v (omega arith))
      (window-set_out buf i v n ((h + 1) % pipe_size) hi (omega arith) (omega arith))

window_snoc :
    (buf : List ℕ) (n h : ℕ)
    → h < pipe_size
    → window buf h (suc n) ≡ window buf h n ++ (get_or buf ((h + n) % pipe_size) 0 ∷ [])
window_snoc buf zero h hh = ap (λ k. get_or buf k 0 ∷ []) (omega arith)
window_snoc buf (suc n) h hh =
    ap (λ l. get_or buf h 0 ∷ l)
      (window_snoc buf n ((h + 1) % pipe_size) (omega arith)
        ∙ ap (λ k. window buf ((h + 1) % pipe_size) n ++ (get_or buf k 0 ∷ [])) (omega arith))

window-suc : (buf : List ℕ) (h n m : ℕ) → n ≡ suc m → window buf h n ≡ window buf h (suc m)
window-suc buf h n m e = ap (window buf h) e

-- One byte out of the ring.
abbrev pub taken : Shared → Shared
taken p = record p { base = set p.base p.start 0; start = (p.start + 1) % pipe_size }

pub taken-IsValid : (p : Shared) → IsValid p → IsValid (taken p)
taken-IsValid p v = ground (arith, length-set p.base p.start 0)

pub contents-taken :
    (p : Shared)
    → IsValid p
    → p.start ≢ p.end
    → contents p ≡ get_or p.base p.start 0 ∷ contents (taken p)
contents-taken p v ne =
    window-suc p.base p.start (used p) (used (taken p)) (omega arith)
    ∙ ap (λ l. get_or p.base p.start 0 ∷ l)
        (sym (
          window-set_out p.base p.start 0 (used (taken p)) ((p.start + 1) % pipe_size) v.start_in
            (omega arith) (omega arith)))

-- One byte into the ring.
abbrev pub put : ℕ → Shared → Shared
put b p = record p { base = set p.base p.end b; end = (p.end + 1) % pipe_size }

pub put-IsValid : (b : ℕ) (p : Shared) → IsValid p → IsValid (put b p)
put-IsValid b p v = ground (arith, length-set p.base p.end b)

pub contents-put :
    (b : ℕ) (p : Shared)
    → IsValid p
    → p.start ≢ (p.end + 1) % pipe_size
    → contents (put b p) ≡ contents p ++ (b ∷ [])
contents-put b p v ne =
    let n : ℕ = used p in
    let buf : List ℕ = set p.base p.end b in
    let untouched = window-set_out p.base p.end b n p.start v.end_in v.start_in (omega arith) in
    let last : (p.start + n) % pipe_size ≡ p.end = omega arith in
    let stored = get_or-set_self p.base p.end b (omega arith) in
    window-suc buf p.start (used (put b p)) n (omega arith)
    ∙ window_snoc buf n p.start v.start_in
    ∙ ap₂ (λ l k. l ++ (get_or buf k 0 ∷ [])) untouched last
    ∙ ap (λ x. window p.base p.start n ++ (x ∷ [])) stored

-- `read_bytes` takes the oldest bytes, as many as it may or as there are, and resets the event if it
-- found the pipe empty with both ends open.
pub record ReadsBytes (k : ℕ) (p : Shared) (r : List ℕ × Bool × Shared) : Type 0 where
  pub valid : IsValid r.2
  pub bytes_are : r.0 ≡ take k (contents p)
  pub rest_are : contents r.2 ≡ drop k (contents p)
  pub count_is : r.2.count ≡ p.count
  pub dry : r.1 ≡ ltb (used p) k
  pub event : r.2.signaled ≡ (if r.1 && both_open p then false else p.signaled)

-- The event after a reader has found nothing.
abbrev pub dried : Shared → Shared
dried p = if both_open p then record p { signaled = false } else p

read_bytes_dry : (k : ℕ) (p : Shared) → p.start ≡ p.end → read_bytes (suc k) p ≡ ([], true, dried p)
unfolding read_bytes
read_bytes_dry k p e = ground arith

read_bytes_next :
    (k : ℕ) (p : Shared)
    → p.start ≢ p.end
    → let r = read_bytes k (taken p) in
      read_bytes (suc k) p ≡ (get_or p.base p.start 0 ∷ r.0, r.1, r.2)
unfolding read_bytes
read_bytes_next k p ne = ground arith

contents-empty : (p : Shared) → IsValid p → p.start ≡ p.end → contents p ≡ []
contents-empty p v e =
    let none_used : used p ≡ 0 = omega arith in ap (window p.base p.start) none_used

dried_lem :
    (k : ℕ) (p : Shared) → IsValid p → p.start ≡ p.end → ReadsBytes (suc k) p ([], true, dried p)
dried_lem k p v e = ground (arith, contents-empty p v e)

next_lem :
    (k : ℕ) (p : Shared) (r : List ℕ × Bool × Shared)
    → IsValid p
    → p.start ≢ p.end
    → ReadsBytes k (taken p) r
    → ReadsBytes (suc k) p (get_or p.base p.start 0 ∷ r.0, r.1, r.2)
next_lem k p r v ne h = record {
  valid = h.valid;
  bytes_are = rw (contents-taken p v ne) (ap (λ l. get_or p.base p.start 0 ∷ l) h.bytes_are);
  rest_are = rw (contents-taken p v ne) h.rest_are;
  count_is = h.count_is;
  dry = h.dry ∙ ground arith;
  event = h.event;
}

pub read_bytes_lem : (k : ℕ) (p : Shared) → IsValid p → ReadsBytes k p (read_bytes k p)
read_bytes_lem zero p v =
    unfold read_bytes in
    record {
      valid = v;
      bytes_are = refl;
      rest_are = refl;
      count_is = refl;
      dry = ground arith;
      event = refl;
    }
read_bytes_lem (suc k) p v = elim (ℕ_discrete p.start p.end) [
  | yes e ↦ rw (read_bytes_dry k p e) (dried_lem k p v e)
  | no ne ↦
      rw (read_bytes_next k p ne)
        (next_lem k p _ v ne (read_bytes_lem k (taken p) (taken-IsValid p v)))
]
