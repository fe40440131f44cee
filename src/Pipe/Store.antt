-- ===== src/Pipe/Store.antt =====
-- The inner loop of `n_write`: what a section stores.
use dancy.Base.{
  ℕ, suc, ◌+◌, ◌-◌, ◌%◌, ◌≡◌, refl, ◌≢◌, ap, ◌∙◌, sym, arith, min, List, [], ◌∷◌, ◌++◌, length,
  take, ℕ_discrete, append-nil, append_assoc,
}
use dancy.Pipe.{pipe_size, Shared, write_bytes}
use dancy.Pipe.Ring.{used, contents, IsValid, put, put-IsValid, contents-put}

-- `write_bytes` appends the first bytes of `bs`, all of them or as many as fit, and touches nothing else.
pub record WritesBytes (bs : List ℕ) (p : Shared) (r : ℕ × Shared) : Type 0 where
  pub valid : IsValid r.1
  pub size_is : r.0 ≡ min (length bs) (pipe_size - 1 - used p)
  pub contents_are : contents r.1 ≡ contents p ++ take r.0 bs
  pub count_is : r.1.count ≡ p.count
  pub start_is : r.1.start ≡ p.start
  pub event : r.1.signaled ≡ p.signaled

write_bytes_full :
    (b : ℕ) (bs : List ℕ) (p : Shared)
    → p.start ≡ (p.end + 1) % pipe_size
    → write_bytes (b ∷ bs) p ≡ (0, p)
unfolding write_bytes
write_bytes_full b bs p e = ground arith

write_bytes_next :
    (b : ℕ) (bs : List ℕ) (p : Shared)
    → p.start ≢ (p.end + 1) % pipe_size
    → let r = write_bytes bs (put b p) in write_bytes (b ∷ bs) p ≡ (suc r.0, r.1)
unfolding write_bytes
write_bytes_next b bs p ne = ground arith

full_lem :
    (b : ℕ) (bs : List ℕ) (p : Shared)
    → IsValid p
    → p.start ≡ (p.end + 1) % pipe_size
    → WritesBytes (b ∷ bs) p (0, p)
full_lem b bs p v e = record {
  valid = v;
  size_is = omega arith;
  contents_are = sym (append-nil _);
  count_is = refl;
  start_is = refl;
  event = refl;
}

next_lem :
    (b : ℕ) (bs : List ℕ) (p : Shared) (r : ℕ × Shared)
    → IsValid p
    → p.start ≢ (p.end + 1) % pipe_size
    → WritesBytes bs (put b p) r
    → WritesBytes (b ∷ bs) p (suc r.0, r.1)
next_lem b bs p r v ne h = record {
  valid = h.valid;
  size_is = omega (arith, h.size_is);
  contents_are =
      h.contents_are
      ∙ ap (λ l. l ++ take r.0 bs) (contents-put b p v ne)
      ∙ append_assoc (contents p) (b ∷ []) (take r.0 bs);
  count_is = h.count_is;
  start_is = h.start_is;
  event = h.event;
}

pub write_bytes_lem : (bs : List ℕ) (p : Shared) → IsValid p → WritesBytes bs p (write_bytes bs p)
write_bytes_lem [] p v =
    unfold write_bytes in
    record {
      valid = v;
      size_is = omega arith;
      contents_are = sym (append-nil _);
      count_is = refl;
      start_is = refl;
      event = refl;
    }
write_bytes_lem (b ∷ bs) p v = elim (ℕ_discrete p.start ((p.end + 1) % pipe_size)) [
  | yes e ↦ rw (write_bytes_full b bs p e) (full_lem b bs p v e)
  | no ne ↦
      rw (write_bytes_next b bs p ne)
        (next_lem b bs p _ v ne (write_bytes_lem bs (put b p) (put-IsValid b p v)))
]
