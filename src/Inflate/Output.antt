-- ===== src/Inflate/Output.antt =====
-- The buffer of `inflate`: bytes are put and copied within it.
use dancy.Base.{
  ℕ, zero, suc, ◌+◌, ◌-◌, ◌≤◌, ◌<◌, ◌≡◌, refl, ap, sym, ◌∙◌, List, [], ◌∷◌, length, length-set,
  get_elem?, get_elem?-set_self, get_elem?-set_ne, set, drop, lt→ltb, none, some, arith, ℕ_discrete,
}
use dancy.Inflate.{byte_back, copy_loop}

-- The length and what stands behind the first `size` bytes are kept.
pub record Keeps (size : ℕ) (out out' : List ℕ) : Type 0 where
  pub length_is : length out' ≡ length out
  pub rest_is : drop size out' ≡ drop size out

pub Keeps-refl : (size : ℕ) (out : List ℕ) → Keeps size out out
Keeps-refl size out = record { length_is = refl; rest_is = refl }

pub Keeps-trans : (size : ℕ) (a b c : List ℕ) → Keeps size a b → Keeps size b c → Keeps size a c
Keeps-trans size a b c k k' = record {
  length_is = k'.length_is ∙ k.length_is;
  rest_is = k'.rest_is ∙ k.rest_is;
}

drop-set : (size i v : ℕ) (out : List ℕ) → i < size → drop size (set out i v) ≡ drop size out
drop-set zero i v out h = absurd (omega arith)
drop-set (suc size) i v [] h = refl
drop-set (suc size) zero v (c ∷ out) h = refl
drop-set (suc size) (suc i) v (c ∷ out) h = drop-set size i v out (omega arith)

pub set-Keeps : (size i v : ℕ) (out : List ℕ) → i < size → Keeps size out (set out i v)
set-Keeps size i v out h = record {
  length_is = length-set out i v;
  rest_is = drop-set size i v out h;
}

pub get_elem?-lt : (xs : List ℕ) (i : ℕ) → i < length xs → (a : ℕ) × (get_elem? xs i ≡ some a)
get_elem?-lt [] i h = absurd (omega arith)
get_elem?-lt (x ∷ xs) zero h = (x, refl)
get_elem?-lt (x ∷ xs) (suc i) h = get_elem?-lt xs i (omega arith)

-- The first `n` bytes are those of the text.
abbrev pub Agrees : List ℕ → List ℕ → ℕ → Type 0
Agrees text out n = (k : ℕ) → k < n → get_elem? out k ≡ get_elem? text k

pub set-Agrees :
    (text out : List ℕ) (off c : ℕ)
    → off < length out
    → get_elem? text off ≡ some c
    → Agrees text out off
    → Agrees text (set out off c) (off + 1)
set-Agrees text out off c h e agree k hk = elim (ℕ_discrete off k) [
  | yes same ↦ rw (← same) (get_elem?-set_self out off c h ∙ sym e)
  | no ne ↦ get_elem?-set_ne out c ne ∙ agree k (omega (arith, λ (e : off ≡ k). ne e))
]

byte_back-eq :
    (out : List ℕ) (off dist : ℕ) → dist ≤ off → byte_back out off dist ≡ get_elem? out (off - dist)
unfolding byte_back
byte_back-eq out off dist h = ground arith

copy_loop-next :
    (len dist off c : ℕ) (out : List ℕ)
    → dist ≤ off
    → get_elem? out (off - dist) ≡ some c
    → off < length out
    → copy_loop (suc len) dist off out ≡ copy_loop len dist (off + 1) (set out off c)
unfolding copy_loop
copy_loop-next len dist off c out le e h =
    rw (copy_loop, byte_back-eq out off dist le, e, lt→ltb off (length out) h) refl

-- A copy from bytes before `off` to a place with room.
pub copy_loop-Keeps :
    (len dist off size : ℕ) (out : List ℕ)
    → dist ≤ off
    → off + len ≤ size
    → size ≤ length out
    → (out' : List ℕ) × (copy_loop len dist off out ≡ some (out', off + len)) × Keeps size out out'
copy_loop-Keeps zero dist off size out le h h' =
    (out, unfold copy_loop in ap (λ n. some (out, n)) (omega arith), Keeps-refl size out)
copy_loop-Keeps (suc len) dist off size out le h h' =
    let (c, e) = get_elem?-lt out (off - dist) (omega arith) in
    let (out', e', keeps) =
      copy_loop-Keeps len dist (off + 1) size (set out off c) (omega arith) (omega arith)
        (omega (arith, length-set out off c)) in
    (
      out',
      copy_loop-next len dist off c out le e (omega arith)
          ∙ e'
          ∙ ap (λ n. some (out', n)) (omega arith),
      Keeps-trans size out (set out off c) out' (set-Keeps size off c out (omega arith)) keeps,
    )

-- The bytes from `off` on are those that stand `dist` before them.
abbrev pub Repeats : List ℕ → ℕ → ℕ → ℕ → Type 0
Repeats text off len dist =
    (k : ℕ) → k < len → get_elem? text (off - dist + k) ≡ get_elem? text (off + k)

pub copy_loop-Agrees :
    (text : List ℕ) (len dist off : ℕ) (out out' : List ℕ) (n : ℕ)
    → 0 < dist
    → dist ≤ off
    → off + len ≤ length out
    → Repeats text off len dist
    → Agrees text out off
    → copy_loop len dist off out ≡ some (out', n)
    → Agrees text out' (off + len)
copy_loop-Agrees text zero dist off out out' n pos h h' repeats agree e =
    let same : out ≡ out' = unfold copy_loop in cc in
    let stays : off + 0 ≡ off = omega arith in rw (stays, ← same) agree
copy_loop-Agrees text (suc len) dist off out out' n pos h h' repeats agree e =
    let (c, at_c) = get_elem?-lt out (off - dist) (omega arith) in
    let low : off - dist + 0 ≡ off - dist = omega arith in
    let here : off + 0 ≡ off = omega arith in
    let c_is : get_elem? text off ≡ some c =
      ap (λ m. get_elem? text m) (sym here)
      ∙ sym (repeats 0 (omega arith))
      ∙ ap (λ m. get_elem? text m) low
      ∙ sym (agree (off - dist) (omega arith))
      ∙ at_c in
    let next =
      copy_loop-Agrees text len dist (off + 1) (set out off c) out' n pos (omega arith)
        (omega (arith, length-set out off c))
        (λ k hk.
          ap (λ m. get_elem? text m) (omega arith)
          ∙ repeats (suc k) (omega arith)
          ∙ ap (λ m. get_elem? text m) (omega arith))
        (set-Agrees text out off c (omega arith) c_is agree)
        (sym (copy_loop-next len dist off c out h at_c (omega arith)) ∙ e) in
    λ k hk. next k (omega arith)

get_elem?-none : (xs : List ℕ) (i : ℕ) → length xs ≤ i → get_elem? xs i ≡ none
get_elem?-none [] i h = refl
get_elem?-none (x ∷ xs) zero h = absurd (omega arith)
get_elem?-none (x ∷ xs) (suc i) h = get_elem?-none xs i (omega arith)
