-- ===== src/Inflate/Tests.antt =====
-- `inflate` on a few bytes.
use dancy.Base.{ℕ, List, [], ◌∷◌, arith}
use dancy.Bitarray.{bitarray_init}
use dancy.Inflate.{inflate}
use dancy.Inflate.Bounds.{Inflates, inflate-Inflates}

abbrev few_bytes : List ℕ
few_bytes = 99 ∷ 132 ∷ 1 ∷ 166 ∷ 19 ∷ 32 ∷ 2 ∷ 0 ∷ []

inflate-Inflates_example :
    Inflates 3 (7 ∷ 7 ∷ 7 ∷ 7 ∷ []) (inflate (bitarray_init few_bytes []) (7 ∷ 7 ∷ 7 ∷ 7 ∷ []) 3)
inflate-Inflates_example =
    inflate-Inflates (bitarray_init few_bytes []) (7 ∷ 7 ∷ 7 ∷ 7 ∷ []) 3 (omega arith) (omega arith)
