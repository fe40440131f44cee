-- ===== src/Deflate/Search.antt =====
-- The matches that `lz77_compress` finds.
use dancy.Base.{
  ℕ, zero, suc, ◌+◌, ◌-◌, ◌≤◌, ◌<◌, min, ◌≡◌, ◌⊎◌, refl, ap, sym, ◌∙◌, List, [], ◌∷◌, length,
  get_or, get_elem?, leb, ◌==◌, some, arith, Bool-cases, Option-cases, inl, inr, ℕ_discrete,
}
use dancy.Deflate.{match_loop, better_match, distance_loop, window_size, find_match}
use dancy.Inflate.Output.{Repeats}

-- The `j`-th byte from `i` on is the byte `dist` before it.
abbrev SameAt : List ℕ → ℕ → ℕ → ℕ → Type 0
SameAt text i dist k = get_or text (i - dist + k) 0 ≡ get_or text (i + k) 0

match_loop-SameAt :
    (n : ℕ) (text : List ℕ) (i dist j : ℕ)
    → let m = match_loop n text i dist j in
      (j ≤ m) × (m ≤ j + n) × ((k : ℕ) → j ≤ k → k < m → SameAt text i dist k)
unfolding match_loop
match_loop-SameAt zero text i dist j = (omega arith, omega arith, λ k h h'. absurd (omega arith))
match_loop-SameAt (suc n) text i dist j =
    elim (Bool-cases (get_or text (i - dist + j) 0 == get_or text (i + j) 0)) [
      | inl e ↦
          let (low, high, same) = match_loop-SameAt n text i dist (j + 1) in
          rw e (
            omega arith,
            omega arith,
            λ k h h'. elim (ℕ_discrete j k) [
              | yes here ↦ rw (← here) (ground arith)
              | no ne ↦ same k (omega (arith, λ (e : j ≡ k). ne e)) h'
            ],
          )
      | inr e ↦ rw e (omega arith, omega arith, λ k h h'. absurd (omega arith))
    ]

better_match-SameAt :
    (text : List ℕ) (i limit dist len j : ℕ)
    → 2 ≤ len
    → better_match text i limit dist len ≡ some j
    → (len < j) × (j ≤ limit) × ((k : ℕ) → k < j → SameAt text i dist k)
unfolding better_match
better_match-SameAt text i limit dist len j h e =
    let (low, high, same) = match_loop-SameAt (limit - 2) text i dist 2 in
    let j_is : match_loop (limit - 2) text i dist 2 ≡ j = ground arith in
    let longer : len < j = ground arith in
    let wide : 2 < limit = omega arith in
    let first : get_or text (i - dist) 0 ≡ get_or text i 0 = ground arith in
    let second : get_or text (i - dist + 1) 0 ≡ get_or text (i + 1) 0 = ground arith in
    (longer, omega arith, λ k hk. by_place k hk j_is first second same)
  where
    by_place :
        (k : ℕ)
        → k < j
        → match_loop (limit - 2) text i dist 2 ≡ j
        → get_or text (i - dist) 0 ≡ get_or text i 0
        → get_or text (i - dist + 1) 0 ≡ get_or text (i + 1) 0
        → ((k : ℕ) → 2 ≤ k → k < match_loop (limit - 2) text i dist 2 → SameAt text i dist k)
        → SameAt text i dist k
    by_place zero hk j_is first second same =
        ap (λ n. get_or text n 0) (omega arith) ∙ first ∙ ap (λ n. get_or text n 0) (omega arith)
    by_place (suc zero) hk j_is first second same = second
    by_place (suc (suc k)) hk j_is first second same =
        same (suc (suc k)) (omega arith) (omega arith)

-- A match is in the bytes before `i` and up to the limit, and not too far away.
pub record Found (text : List ℕ) (i limit window len dist : ℕ) : Type 0 where
  pub long : 3 ≤ len
  pub within : len ≤ limit
  pub apart : 0 < dist
  pub near : (dist ≤ i) × (dist ≤ window)
  pub same : (k : ℕ) → k < len → SameAt text i dist k

distance_loop-Found :
    (n : ℕ) (text : List ℕ) (i limit window dist len from : ℕ)
    → 0 < dist
    → dist + n ≤ min i window + 1
    → 2 ≤ len
    → (from ≡ 0) ⊎ Found text i limit window len from
    → let r = distance_loop n text i limit dist len from in
      (r.1 ≡ 0) ⊎ Found text i limit window r.0 r.1
unfolding distance_loop
distance_loop-Found zero text i limit window dist len from pos h h' old = old
distance_loop-Found (suc n) text i limit window dist len from pos h h' old =
    elim (Option-cases (better_match text i limit dist len)) [
      | inl e ↦
          rw (e, distance_loop)
            (distance_loop-Found n text i limit window (dist + 1) len from (omega arith)
              (omega arith) h' old)
      | inr (j, e) ↦
          let (longer, within, same) = better_match-SameAt text i limit dist len j h' e in
          let found : Found text i limit window j dist = record {
            long = omega arith;
            within = within;
            apart = pos;
            near = omega arith;
            same = same;
          } in
          elim (Bool-cases (leb 64 j)) [
            | inl t ↦ rw (e, distance_loop, t) (inr found)
            | inr t ↦
                rw (e, distance_loop, t)
                  (distance_loop-Found n text i limit window (dist + 1) j dist (omega arith)
                    (omega arith) (omega arith) (inr found))
          ]
    ]

get_or-get_elem? :
    (text : List ℕ) (i j : ℕ)
    → i < length text
    → j < length text
    → get_or text i 0 ≡ get_or text j 0
    → get_elem? text i ≡ get_elem? text j
get_or-get_elem? text i j h h' e = some_of text i h ∙ ap some e ∙ sym (some_of text j h')
  where
    some_of : (text : List ℕ) (i : ℕ) → i < length text → get_elem? text i ≡ some (get_or text i 0)
    some_of [] i h = absurd (omega arith)
    some_of (c ∷ text) zero h = refl
    some_of (c ∷ text) (suc i) h = some_of text i (omega arith)

-- What `put_lendist` is called with.
pub record IsMatch (text : List ℕ) (i len dist : ℕ) : Type 0 where
  pub len_range : (3 ≤ len) × (len ≤ 258)
  pub within : i + len ≤ length text
  pub dist_range : (0 < dist) × (dist ≤ 32768)
  pub near : dist ≤ i
  pub repeats : Repeats text i len dist

window_size-le : (size : ℕ) → window_size size ≤ 32768
window_size-le size = ground arith

-- At a place in the text, `find_match` finds none, or 3 to 258 bytes of the text that repeat the bytes at a
-- distance of at most 32768 before them.
pub find_match-IsMatch :
    (text : List ℕ) (i : ℕ)
    → i < length text
    → let r = find_match text i in (r.1 ≡ 0) ⊎ IsMatch text i r.0 r.1
unfolding find_match
find_match-IsMatch text i h = from_Found (
    distance_loop-Found (min i (window_size (length text))) text i (min (length text - i) 258)
      (window_size (length text)) 1 2 0 (omega arith) (omega arith) (omega arith) (inl refl))
  where
    from_Found :
        ((find_match text i).1 ≡ 0)
          ⊎ Found text i
              (min (length text - i) 258)
              (window_size (length text))
              (find_match text i).0
              (find_match text i).1
        → ((find_match text i).1 ≡ 0) ⊎ IsMatch text i (find_match text i).0 (find_match text i).1
    from_Found (inl none_found) = inl none_found
    from_Found (inr found) = inr (record {
      len_range = omega (arith, found.long, found.within);
      within = omega (arith, found.within);
      dist_range = omega (arith, found.apart, found.near, window_size-le (length text));
      near = omega (arith, found.near);
      repeats = λ k hk.
          get_or-get_elem? text _ _ (omega (arith, found.within, found.near, found.apart))
            (omega (arith, found.within)) (found.same k hk);
    })
