-- ===== src/Heap/Words.antt =====
-- The entries of the map of heap.c as an address and a bit.
use dancy.Base.{
  ℕ, ◌+◌, ◌-◌, ◌*◌, ◌/◌, ◌%◌, ◌^◌, ◌<◌, ◌≡◌, ◌∙◌, ap, sym, true, false, not, bit_or, ◌==◌, arith,
}
use dancy.Base.Bits.{bit_and-ones, bit_and-shift, bit_or-add}
use dancy.Heap.{is_used, address, used_entry}

pub is_used_lem : (b : ℕ) → is_used b ≡ not (b % 2 == 0)
unfolding is_used
is_used_lem b = rw (bit_and-ones 1 b)

pub address_lem : (b : ℕ) → b < 2 ^ 32 → address b ≡ b / 2 * 2
unfolding address
address_lem b h =
    bit_and-shift 1 b (2 ^ 31 - 1) ∙ ap (λ y. y * 2) (bit_and-ones 31 (b / 2) ∙ omega arith)

pub used_entry_lem : (a : ℕ) → a < 2 ^ 32 → a % 2 ≡ 0 → used_entry a ≡ a + 1
unfolding used_entry
used_entry_lem a h even =
    let small : a % 2 ^ 32 ≡ a = omega arith in
    let half : a ≡ a / 2 * 2 = omega arith in
    rw small (ap (λ x. bit_or x 1) half ∙ omega (arith, bit_or-add 1 (a / 2) 1 (omega arith)))

-- A word of 32 bits whose address is a multiple of 16.
abbrev pub IsEntry : ℕ → Type 0
IsEntry b = (b < 2 ^ 32) × (b / 2 % 8 ≡ 0)

pub address_of_free : (b : ℕ) → IsEntry b → is_used b ≡ false → address b ≡ b
address_of_free b h free = ground (arith, address_lem b h.0, is_used_lem b)

module _ (a : ℕ) (small : a < 2 ^ 32) (al : a % 16 ≡ 0) where
  entry_lem : used_entry a ≡ a + 1
  entry_lem = used_entry_lem a small (omega arith)

  pub used_entry-IsEntry : IsEntry (used_entry a)
  used_entry-IsEntry = (omega (arith, entry_lem), omega (arith, entry_lem))

  pub address-used_entry : address (used_entry a) ≡ a
  address-used_entry = omega (arith, address_lem (used_entry a) used_entry-IsEntry.0, entry_lem)

  pub is_used-used_entry : is_used (used_entry a) ≡ true
  is_used-used_entry = ground (arith, is_used_lem (used_entry a), entry_lem)

module _ (b : ℕ) (h : IsEntry b) where
  pub address-IsEntry : IsEntry (address b)
  address-IsEntry = (omega (arith, address_lem b h.0, h), omega (arith, address_lem b h.0, h))

  pub address-address : address (address b) ≡ address b
  address-address = omega (arith, address_lem b h.0, h, address_lem (address b) address-IsEntry.0)

  pub is_used-address : is_used (address b) ≡ false
  is_used-address = ground (arith, address_lem b h.0, is_used_lem (address b))

  pub address-lt : address b < 2 ^ 32
  address-lt = address-IsEntry.0

  pub address-mod : address b % 16 ≡ 0
  address-mod = omega (arith, address_lem b h.0, h)

  pub used_of_entry :
      (a : ℕ) → a % 16 ≡ 0 → a < 2 ^ 32 → used_entry a ≡ b → (is_used b ≡ true) × (address b ≡ a)
  used_of_entry a al small e = (
    ap is_used (sym e) ∙ is_used-used_entry a small al,
    ap address (sym e) ∙ address-used_entry a small al,
  )
