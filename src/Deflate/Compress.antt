-- ===== src/Deflate/Compress.antt =====
-- `deflate_compress` as a whole.
use dancy.Base.{
  ℕ, ◌+◌, ◌*◌, ◌≤◌, ◌<◌, ◌≡◌, ◌⊎◌, refl, ap, ◌∙◌, Bool, true, false, List, [], ◌++◌, append_assoc,
  length, length-append, get_or, ltb, some, arith, inl, inr,
}
use dancy.Bitarray.{Writer, bitarray_shove}
use dancy.Bitarray.Stream.{bits_of, length-bits_of}
use dancy.Bitarray.Shove.{written, IsWriter, Appends, appended, no_room, bitarray_shove-Appends}
use dancy.Bitarray.RoundTrip.{new_writer}
use dancy.Deflate.{
  lz77_compress, write_stream, finish_stream, code_table, dist_table, deflate_compress,
}
use dancy.Deflate.Bits.{word_bits, make_table-code, make_table-dist, code_table-end}
use dancy.Deflate.Lz77.{text_bits, lz77_compress-Encodes}
use dancy.Deflate.Room.{
  bitarray_shove-Grows, length-written, Compresses, too_long, finish_stream-Compresses, finish_late,
  written-le,
}

-- Bits that have been written.
record Wrote (bits : List ℕ) (w w' : Writer) : Type 0 where
  bits_are : written w' ≡ written w ++ bits
  ok : IsWriter w'
  space : 8 * w.size + w'.count ≤ 8 * w'.size + w.count + length bits

Wrote-trans :
    (bits bits' : List ℕ) (a b c : Writer)
    → Wrote bits a b
    → Wrote bits' b c
    → Wrote (bits ++ bits') a c
Wrote-trans bits bits' a b c one two = record {
  bits_are = two.bits_are ∙ ap (λ l. l ++ bits') one.bits_are ∙ append_assoc (written a) bits bits';
  ok = two.ok;
  space = omega (arith, length-append bits bits', one.space, two.space);
}

Appends-cases :
    (bits : List ℕ) (w : Writer) (r : Bool × Writer)
    → Appends bits w r
    → ((r.0 ≡ true) × Wrote bits w r.1) ⊎ ((r.0 ≡ false) × (8 * w.size + 8 ≤ w.count + length bits))
Appends-cases bits w r (appended t e ok space) =
    inl (t, record { bits_are = e; ok = ok; space = space })
Appends-cases bits w r (no_room t few) = inr (t, few)

-- A few bits, with room for them.
shove-Wrote :
    (n v : ℕ) (w : Writer)
    → IsWriter w
    → w.count + n < 8 * w.size + 8
    → Wrote (bits_of n v) w (bitarray_shove w n v).1
shove-Wrote n v w ok room =
    elim (Appends-cases (bits_of n v) w _ (bitarray_shove-Appends w n v ok)) [
      | inl (t, wrote) ↦ wrote
      | inr (t, few) ↦ absurd (omega (arith, length-bits_of n v))
    ]

-- The whole stream: the last block, which has the static codes, its text, and its end.
abbrev pub stream_bits : List ℕ → List ℕ → List ℕ → List ℕ
stream_bits codes dists text =
    (bits_of 1 1 ++ bits_of 2 1) ++ (text_bits codes dists text ++ word_bits codes 256)

module _ (codes dists text : List ℕ) (long : 4 ≤ length text) (seven : get_or codes 512 0 ≡ 7) where
  abbrev start : Writer
  start = new_writer (length text) []

  start-Wrote :
      Wrote (bits_of 1 1 ++ bits_of 2 1) start (bitarray_shove (bitarray_shove start 1 1).1 2 1).1
  start-Wrote =
      let one =
        shove-Wrote 1 1 start (record { count_lt = omega arith; val_lt = omega arith })
          (omega arith) in
      let two =
        shove-Wrote 2 1 (bitarray_shove start 1 1).1 one.ok
          (omega (arith, one.space, length-bits_of 1 1, (one.ok).count_lt)) in
      Wrote-trans (bits_of 1 1) (bits_of 2 1) start (bitarray_shove start 1 1).1 _ one two

  abbrev begun : Writer
  begun = (bitarray_shove (bitarray_shove start 1 1).1 2 1).1

  length-stream :
      length (stream_bits codes dists text) ≡ 3 + length (text_bits codes dists text) + 7
  length-stream = omega (
    arith,
    length-append (bits_of 1 1 ++ bits_of 2 1) (text_bits codes dists text ++ word_bits codes 256),
    length-append (text_bits codes dists text) (word_bits codes 256),
    length-bits_of (get_or codes 512 0) (get_or codes 513 0),
  )

  -- The end does not fit: the bytes that there are fill the buffer.
  end_too_long :
      (bits : List ℕ) (w : Writer)
      → Wrote bits start w
      → w.size ≡ 0
      → finish_stream text (some (bitarray_shove w (get_or codes 512 0) (get_or codes 513 0)).1)
        ≡ (1, text, length text)
  end_too_long bits w wrote none_left = finish_late text _ (
      omega (
        arith,
        ap (λ l. length l) wrote.bits_are,
        length-written w,
        wrote.space,
        (bitarray_shove-Grows (get_or codes 512 0) (get_or codes 513 0) w).more,
        written-le (bitarray_shove w (get_or codes 512 0) (get_or codes 513 0)).1,
      ))

  end-Compresses :
      (w : Writer)
      → Wrote ((bits_of 1 1 ++ bits_of 2 1) ++ text_bits codes dists text) start w
      → Compresses
          (stream_bits codes dists text)
          text
          (finish_stream text (some (bitarray_shove w (get_or codes 512 0) (get_or codes 513 0)).1))
  end-Compresses w wrote =
      elim (Appends-cases (word_bits codes 256) w _ (bitarray_shove-Appends w _ _ wrote.ok)) [
        | inr (t, few) ↦
            too_long
              (end_too_long _ w wrote (
                omega (
                  arith,
                  (wrote.ok).count_lt,
                  length-bits_of (get_or codes 512 0) (get_or codes 513 0),
                )))
              (omega (
                arith,
                (wrote.ok).count_lt,
                wrote.space,
                length-stream,
                length-append (bits_of 1 1 ++ bits_of 2 1) (text_bits codes dists text),
                length-bits_of (get_or codes 512 0) (get_or codes 513 0),
              ))
        | inl (t, last) ↦
            let all =
              Wrote-trans ((bits_of 1 1 ++ bits_of 2 1) ++ text_bits codes dists text)
                (word_bits codes 256) start w _ wrote last in
            let bits_are =
              all.bits_are
              ∙ append_assoc (bits_of 1 1 ++ bits_of 2 1) (text_bits codes dists text)
                  (word_bits codes 256) in
            finish_stream-Compresses (stream_bits codes dists text) text _ all.ok (omega arith)
              bits_are
              (omega (
                arith,
                all.space,
                ap (λ l. length l)
                    (append_assoc (bits_of 1 1 ++ bits_of 2 1) (text_bits codes dists text)
                      (word_bits codes 256)),
              ))
      ]

  write_stream-fails :
      (lz77_compress codes dists text begun).0 ≡ false
      → finish_stream text (write_stream codes dists text start) ≡ (1, text, length text)
  unfolding write_stream finish_stream
  write_stream-fails e = rw (write_stream, e) refl

  write_stream-ends :
      (lz77_compress codes dists text begun).0 ≡ true
      → finish_stream text (write_stream codes dists text start)
        ≡ finish_stream text (
            some
              (bitarray_shove
                (lz77_compress codes dists text begun).1
                (get_or codes 512 0)
                (get_or codes 513 0)).1)
  unfolding write_stream
  write_stream-ends e = rw (write_stream, e) refl

  pub write_stream-Compresses :
      Compresses
        (stream_bits codes dists text)
        text
        (finish_stream text (write_stream codes dists text start))
  write_stream-Compresses =
      elim (Appends-cases (text_bits codes dists text) begun _
        ((lz77_compress-Encodes codes dists text (omega arith)).1 begun start-Wrote.ok)) [
          | inr (t, few) ↦
              too_long (write_stream-fails t)
                (omega (arith, start-Wrote.space, start-Wrote.ok.count_lt, length-stream))
          | inl (t, wrote) ↦ rw (write_stream-ends t) (
              end-Compresses _ (
                Wrote-trans (bits_of 1 1 ++ bits_of 2 1) (text_bits codes dists text) start begun _
                  start-Wrote wrote))
        ]

-- For a text of at least 4 bytes and with memory for the buffer: either `deflate_compress` returns 0, its
-- bytes are fewer, and they hold the stream of the text with fewer than 8 more bits; or it returns 1 and
-- leaves the text and its size alone, as the stream is longer than all bytes but one.
pub deflate_compress-Compresses :
    (text : List ℕ)
    → 4 ≤ length text
    → Compresses (stream_bits (code_table).1 (dist_table).1 text) text (deflate_compress true text)
unfolding deflate_compress
deflate_compress-Compresses text long =
    let t : ltb (length text) 4 ≡ false = ground arith in
    rw (deflate_compress, t, make_table-code, make_table-dist)
      (write_stream-Compresses (code_table).1 (dist_table).1 text long code_table-end)
