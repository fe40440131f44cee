-- ===== src/Mm/Alloc.antt =====
-- A manager in order, the loop over full bytes, and the search of `mm_alloc_page` for a free frame.
use dancy.Base.{
  ℕ, zero, suc, ◌+◌, ◌-◌, ◌*◌, ◌/◌, ◌%◌, ◌^◌, ◌≤◌, ◌<◌, ◌≡◌, ◌≢◌, inl, inr, refl, ◌∙◌, sym, true,
  false, arith, Bool-cases, List, length, length-set, ℕ_discrete, dec_lt,
}
use dancy.Base.Bits.{bit_and-ones}
use dancy.Mm.{Manager, byte_at, skip_full, take_page}
use dancy.Mm.Bytes.{has_bit_full}
use dancy.Mm.Frames.{in_use, AllBytes, mark, mark-AllBytes, byte_at-set}

abbrev pub FullFrom : List ℕ → ℕ → ℕ → Type 0
FullFrom bm lo hi = (i : ℕ) → lo ≤ i → i < hi → byte_at bm i ≡ 0xff

-- The bitmap has the size that it says, in pages, and the `used` bytes at its top are full.
pub record IsValid (m : Manager) : Type 0 where
  pub length_is : length m.bitmap ≡ m.size
  pub bytes : AllBytes m.bitmap
  pub pages : m.size % 0x1000 ≡ 0
  pub some_size : 0 < m.size
  pub small : m.size ≤ 2 ^ 32
  pub used_le : m.used ≤ m.size
  pub full : FullFrom m.bitmap (m.size - m.used) m.size

-- What the loop over full bytes finds.
pub record Skips (bm : List ℕ) (size : ℕ) (r : ℕ × ℕ) : Type 0 where
  pub at_most : r.0 ≤ size
  pub frame_is : r.1 ≡ (size - r.0) * 8
  pub full : FullFrom bm (size - r.0) size

skip_next :
    (bm : List ℕ) (size : ℕ)
    → byte_at bm size ≡ 0xff
    → skip_full bm (suc size) ≡ ((skip_full bm size).0 + 1, (skip_full bm size).1)
unfolding skip_full
skip_next bm size e = ground arith

skip_stop :
    (bm : List ℕ) (size : ℕ) → byte_at bm size ≢ 0xff → skip_full bm (suc size) ≡ (0, suc size * 8)
unfolding skip_full
skip_stop bm size ne = ground arith

next_Skips :
    (bm : List ℕ) (size : ℕ) (r : ℕ × ℕ)
    → byte_at bm size ≡ 0xff
    → Skips bm size r
    → Skips bm (suc size) (r.0 + 1, r.1)
next_Skips bm size r e s = record {
  at_most = omega (arith, s.at_most);
  frame_is = s.frame_is ∙ omega arith;
  full = λ i lo hi. elim (ℕ_discrete i size) [
    | yes same ↦ rw same e
    | no ne ↦ s.full i (omega arith) (omega arith)
  ];
}

pub skip_full-Skips : (bm : List ℕ) (size : ℕ) → Skips bm size (skip_full bm size)
skip_full-Skips bm zero =
    unfold skip_full in
    record { at_most = omega arith; frame_is = refl; full = λ i lo hi. absurd (omega arith) }
skip_full-Skips bm (suc size) =
    let s = skip_full-Skips bm size in
    elim (ℕ_discrete (byte_at bm size) 0xff) [
      | yes e ↦ rw (skip_next bm size e) (next_Skips bm size _ e s)
      | no ne ↦ rw (skip_stop bm size ne) (record {
        at_most = omega arith;
        frame_is = omega arith;
        full = λ i lo hi. absurd (omega arith);
      })
    ]

in_use_of_full : (bm : List ℕ) (g : ℕ) → byte_at bm (g / 8) ≡ 0xff → in_use bm g ≡ true
unfolding in_use
in_use_of_full bm g e = rw e (has_bit_full (g % 8) (omega arith))

-- The highest free frame below `top` that is not frame 0, as an address, and the bitmap with it marked;
-- or none_free, as there is none.
pub data Takes (bm : List ℕ) (top : ℕ) (page : ℕ) (bm' : List ℕ) : Type 0 where
  none_free :
      page ≡ 0 → bm' ≡ bm → ((g : ℕ) → 0 < g → g < top → in_use bm g ≡ true) → Takes bm top page bm'
  found :
      (f : ℕ)
      → page ≡ f * 0x1000
      → bm' ≡ mark bm f
      → 0 < f
      → f < top
      → in_use bm f ≡ false
      → ((g : ℕ) → f < g → g < top → in_use bm g ≡ true)
      → Takes bm top page bm'

take_page-hit :
    (f : ℕ) (bm : List ℕ)
    → in_use bm (suc f) ≡ false
    → take_page (suc f) bm ≡ (suc f * 0x1000, mark bm (suc f))
unfolding take_page in_use
take_page-hit f bm e = rw (bit_and-ones 3 (suc f), e)

take_page-miss :
    (f : ℕ) (bm : List ℕ) → in_use bm (suc f) ≡ true → take_page (suc f) bm ≡ take_page f bm
unfolding take_page in_use
take_page-miss f bm e = rw (bit_and-ones 3 (suc f), e)

higher_Takes :
    (f : ℕ) (bm : List ℕ) (r : ℕ × List ℕ)
    → in_use bm (suc f) ≡ true
    → Takes bm (suc f) r.0 r.1
    → Takes bm (suc (suc f)) r.0 r.1
higher_Takes f bm r e (none_free z same all) =
    none_free z same (λ g lo hi. elim (ℕ_discrete g (suc f)) [
      | yes top ↦ rw top e
      | no ne ↦ all g lo (omega arith)
    ])
higher_Takes f bm r e (found k page b lo hi idle above) =
    found k page b lo (omega arith) idle (λ g lo' hi'. elim (ℕ_discrete g (suc f)) [
      | yes top ↦ rw top e
      | no ne ↦ above g lo' (omega arith)
    ])

pub take_page-Takes : (f : ℕ) (bm : List ℕ) → Takes bm (suc f) (take_page f bm).0 (take_page f bm).1
take_page-Takes zero bm = unfold take_page in none_free refl refl (λ g lo hi. absurd (omega arith))
take_page-Takes (suc f) bm = elim (Bool-cases (in_use bm (suc f))) [
  | inl busy ↦
      rw (take_page-miss f bm busy) (higher_Takes f bm (take_page f bm) busy (take_page-Takes f bm))
  | inr idle ↦
      rw (take_page-hit f bm idle)
        (found (suc f) refl refl (omega arith) (omega arith) idle (λ g lo hi. absurd (omega arith)))
]

-- More frames in use above do not change what is found.
pub raise_Takes :
    (bm : List ℕ) (top top' page : ℕ) (bm' : List ℕ)
    → top ≤ top'
    → ((g : ℕ) → top ≤ g → g < top' → in_use bm g ≡ true)
    → Takes bm top page bm'
    → Takes bm top' page bm'
raise_Takes bm top top' page bm' h busy (none_free z same all) =
    none_free z same (λ g lo hi. elim (dec_lt g top) [
      | yes low ↦ all g lo low
      | no high ↦ busy g (omega arith) hi
    ])
raise_Takes bm top top' page bm' h busy (found f is_f b lo hi idle above) =
    found f is_f b lo (omega arith) idle (λ g lo' hi'. elim (dec_lt g top) [
      | yes low ↦ above g lo' low
      | no high ↦ busy g (omega arith) hi'
    ])

pub FullFrom-in_use :
    (bm : List ℕ) (lo hi g : ℕ) → FullFrom bm lo hi → lo * 8 ≤ g → g < hi * 8 → in_use bm g ≡ true
FullFrom-in_use bm lo hi g full h h' =
    in_use_of_full bm g (full (g / 8) (omega arith) (omega arith))

-- A byte with a free frame is not full, so marking that frame leaves the full bytes full.
FullFrom-mark :
    (bm : List ℕ) (lo hi f : ℕ)
    → FullFrom bm lo hi
    → in_use bm f ≡ false
    → f / 8 < length bm
    → FullFrom (mark bm f) lo hi
FullFrom-mark bm lo hi f full idle h i lo' hi' =
    byte_at-set bm (f / 8) i _ h ∙ elim (ℕ_discrete (f / 8) i) [
      | yes e ↦ absurd (clash (sym (in_use_of_full bm f (rw e (full i lo' hi'))) ∙ idle))
      | no ne ↦ ground (arith, full i lo' hi')
    ]
  where
    clash : ¬ (true ≡ false)
    clash e = cc

pub FullFrom-append :
    (bm : List ℕ) (a b c : ℕ) → FullFrom bm a b → FullFrom bm b c → FullFrom bm a c
FullFrom-append bm a b c p q i lo hi = elim (dec_lt i b) [
  | yes low ↦ p i lo low
  | no high ↦ q i (omega arith) hi
]

-- What is left in order when `mm_alloc_page` has found its frame.
pub Takes-IsValid :
    (m : Manager) (full page : ℕ) (bm : List ℕ)
    → IsValid m
    → full ≤ m.size - m.used
    → FullFrom m.bitmap (m.size - m.used - full) m.size
    → Takes m.bitmap (m.size * 8) page bm
    → IsValid (record m { used = m.used + full; bitmap = bm })
Takes-IsValid m full page bm v le ff (none_free z same all) = record {
  length_is = rw same v.length_is;
  bytes = rw same v.bytes;
  pages = v.pages;
  some_size = v.some_size;
  small = v.small;
  used_le = omega (arith, v.used_le);
  full = λ i lo hi. rw same (ff i (omega arith) hi);
}
Takes-IsValid m full page bm v le ff (found f is_f b lo hi idle above) = record {
  length_is = rw b (length-set m.bitmap (f / 8) _ ∙ v.length_is);
  bytes = rw b (mark-AllBytes m.bitmap f v.bytes);
  pages = v.pages;
  some_size = v.some_size;
  small = v.small;
  used_le = omega (arith, v.used_le);
  full = λ i lo' hi'. rw b (
      FullFrom-mark m.bitmap (m.size - m.used - full) m.size f ff idle (omega (arith, v.length_is))
        i (omega arith) hi');
}
