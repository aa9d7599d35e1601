-- ===== src/Image/Png/Frames.antt =====
-- The chunk loop of `decode_png` on chunks that `_chunk` wrote.
use rdc_tools.Prelude.{
  ℕ, suc, ◌+◌, ◌%◌, ◌≤◌, ◌<◌, ◌^◌, ◌≡◌, refl, ap, arith, List, ◌++◌, length, length-append, take,
  drop, some, take-append, drop-append, append_assoc, le→leb, ◌==◌, true,
}
use rdc_tools.Image.Png.{Zlib, png_chunk}
use rdc_tools.Image.Png.Chunks.{
  Found, be32_head, be32, be32_bytes, take_chunk, chunk_round, chunks_from,
}

be32_head-be32_bytes :
    (v : ℕ) (rest : List ℕ) → v < 2 ^ 32 → be32_head (be32_bytes v ++ rest) ≡ some v
unfolding be32_head be32_bytes
be32_head-be32_bytes v rest h = ap some (omega arith)

pub be32-be32_bytes :
    (s p r : List ℕ) (o v : ℕ)
    → s ≡ p ++ (be32_bytes v ++ r)
    → length p ≡ o
    → v < 2 ^ 32
    → be32 s o ≡ some v
unfolding be32
be32-be32_bytes s p r o v e h fits =
    rw (e, drop-append p (be32_bytes v ++ r) o h) (be32_head-be32_bytes v r fits)

length-be32_bytes : (v : ℕ) → length (be32_bytes v) ≡ 4
unfolding be32_bytes
length-be32_bytes v = refl

module _ (z : Zlib) (kind body : List ℕ) (four : length kind ≡ 4) where
  abbrev crc : List ℕ
  crc = be32_bytes (z.crc32 (kind ++ body) % 0x100000000)

  pub length-png_chunk : length (png_chunk z kind body) ≡ 12 + length body
  unfolding png_chunk
  length-png_chunk = omega (
    arith,
    length-append (be32_bytes (length body)) (kind ++ (body ++ crc)),
    length-append kind (body ++ crc),
    length-append body crc,
    length-be32_bytes (length body),
    length-be32_bytes (z.crc32 (kind ++ body) % 0x100000000),
  )

  -- A round on a written chunk takes the chunk and goes on behind it.
  module _ (fits : length body < 2 ^ 32) (p r : List ℕ) (pos : ℕ) (h : length p ≡ pos) where
    abbrev stream : List ℕ
    stream = p ++ (png_chunk z kind body ++ r)

    size_word : be32 stream pos ≡ some (length body)
    unfolding png_chunk
    size_word =
        be32-be32_bytes stream p (kind ++ (body ++ (crc ++ r))) pos (length body)
          (simp append_assoc) h fits

    kind_word : take 4 (drop (pos + 4) stream) ≡ kind
    unfolding png_chunk
    kind_word =
        let front : List ℕ = p ++ be32_bytes (length body) in
        let split : stream ≡ front ++ (kind ++ (body ++ (crc ++ r))) = simp append_assoc in
        let len : length front ≡ pos + 4 =
          omega
            (arith, length-append p (be32_bytes (length body)), length-be32_bytes (length body)) in
        rw (split, drop-append front (kind ++ (body ++ (crc ++ r))) (pos + 4) len)
          (take-append kind (body ++ (crc ++ r)) 4 four)

    body_bytes : take (length body) (drop (pos + 8) stream) ≡ body
    unfolding png_chunk
    body_bytes =
        let front : List ℕ = p ++ (be32_bytes (length body) ++ kind) in
        let split : stream ≡ front ++ (body ++ (crc ++ r)) = simp append_assoc in
        let len : length front ≡ pos + 8 = omega (
          arith,
          length-append p (be32_bytes (length body) ++ kind),
          length-append (be32_bytes (length body)) kind,
          length-be32_bytes (length body),
        ) in
        rw (split, drop-append front (body ++ (crc ++ r)) (pos + 8) len)
          (take-append body (crc ++ r) (length body) refl)

    header_inside : pos + 8 ≤ length stream
    header_inside = omega (
      arith,
      length-append p (png_chunk z kind body ++ r),
      length-append (png_chunk z kind body) r,
      length-png_chunk,
    )

    pub chunks_from-png_chunk :
        (fuel : ℕ) (st : Found)
        → chunks_from (suc fuel) (p ++ (png_chunk z kind body ++ r)) pos st
          ≡ take_chunk
              (chunks_from fuel (p ++ (png_chunk z kind body ++ r)) (pos + 12 + length body))
              st
              kind
              body
    unfolding chunks_from chunk_round
    chunks_from-png_chunk fuel st =
        rw (chunks_from, le→leb (pos + 8) (length stream) header_inside)
          (rw (size_word) (rw (body_bytes, kind_word, same_length (length body))))
      where
        same_length : (n : ℕ) → (n == n) ≡ true
        same_length n = ground arith
