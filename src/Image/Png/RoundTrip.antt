-- ===== src/Image/Png/RoundTrip.antt =====
-- `decode_png` on what `encode_png` writes.
use mathlib.Core.Path.{subst}
use rdc_tools.Prelude.{
  bytes_eq, ℕ, suc, ◌+◌, ◌-◌, ◌*◌, ◌<◌, ◌^◌, ◌≡◌, refl, sym, ap, ◌∙◌, arith, true, false, List, [],
  ◌∷◌, ◌++◌, length, length-append, take, drop, some, append_assoc, append-nil, ltb, gt→ltb,
}
use rdc_tools.Image.{Image, valid}
use rdc_tools.Image.Png.{
  Zlib, to_rgba, channels_of, image_of, decode_rows, decode_body, decode_found, decode_png,
  png_chunk, plain_rows, header_bytes, encode_png,
}
use rdc_tools.Image.Png.Chunks.{
  Png, ok, png_signature, ihdr, idat, iend, Header, header_fields, unpack_header, Found,
  nothing_found, read_header, take_chunk, chunks_from, be32, be32_bytes,
}
use rdc_tools.Image.Png.Filter.{zeros}
use rdc_tools.Image.Png.Filter.Inverse.{AreBytes, AreBytes-zeros}
use rdc_tools.Image.Png.Plain.{length-plain_rows, unfilter_rows-plain_rows}
use rdc_tools.Image.Png.Frames.{be32-be32_bytes, length-png_chunk, chunks_from-png_chunk}

abbrev written_header : Image → Header
written_header image = record {
  width = image.width;
  height = image.height;
  bit_depth = 8;
  colour_type = 6;
  compression = 0;
  filter_method = 0;
  interlace = 0;
}

-- The depth, the colour type, and the three methods.
abbrev header_tail : List ℕ
header_tail = 8 ∷ 6 ∷ 0 ∷ 0 ∷ 0 ∷ []

module _ (image : Image) (w : image.width < 2 ^ 32) (h : image.height < 2 ^ 32) where
  width_word : be32 (header_bytes image) 0 ≡ some image.width
  unfolding header_bytes
  width_word =
      be32-be32_bytes (header_bytes image) [] (be32_bytes image.height ++ header_tail) 0 image.width
        refl refl w

  height_word : be32 (header_bytes image) 4 ≡ some image.height
  unfolding header_bytes be32_bytes
  height_word =
      be32-be32_bytes (header_bytes image) (be32_bytes image.width) header_tail 4 image.height refl
        refl h

  tail_bytes : drop 8 (header_bytes image) ≡ header_tail
  unfolding header_bytes be32_bytes
  tail_bytes = refl

  unpack-header_bytes : unpack_header (header_bytes image) ≡ some (written_header image)
  unfolding unpack_header
  unpack-header_bytes =
      rw (unpack_header, width_word) (rw height_word (rw tail_bytes (unfold header_fields in refl)))

  thirteen_bytes : ltb (length (header_bytes image)) 13 ≡ false
  unfolding header_bytes be32_bytes
  thirteen_bytes = refl

  take_chunk-ihdr :
      (again : Found → Png Found) (st : Found)
      → take_chunk again st ihdr (header_bytes image)
        ≡ again (record st { header = some (written_header image) })
  unfolding take_chunk read_header bytes_eq
  take_chunk-ihdr again st = rw (read_header, thirteen_bytes) (rw unpack-header_bytes)

module _ (z : Zlib) (image : Image) (v : valid image ≡ true) (a : AreBytes image.rgba) where
  abbrev plain : List ℕ
  plain = plain_rows (image.width * 4) image.height image.rgba

  decode_rows-plain_rows : decode_rows (written_header image) 4 plain ≡ ok image
  unfolding decode_rows image_of to_rgba valid
  decode_rows-plain_rows =
      let size : length image.rgba ≡ image.height * (image.width * 4) = ground (arith, v) in
      rw (
        gt→ltb (length plain) ((image.width * 4 + 1) * image.height)
            (omega (arith, length-plain_rows (image.width * 4) image.height image.rgba size)),
        unfilter_rows-plain_rows 4 (image.width * 4) image.height (zeros (image.width * 4))
            image.rgba (AreBytes-zeros (image.width * 4)) a size,
      )

  decode_body-plain_rows : decode_body z (written_header image) true (z.compress plain) ≡ ok image
  unfolding decode_body channels_of valid
  decode_body-plain_rows = ground (arith, v, z.decompress-compress plain, decode_rows-plain_rows)

  module _ (w : image.width < 2 ^ 32) (h : image.height < 2 ^ 32)
      (small : length (z.compress plain) < 2 ^ 32) where
    abbrev header_chunk : List ℕ
    header_chunk = png_chunk z ihdr (header_bytes image)

    abbrev data_chunk : List ℕ
    data_chunk = png_chunk z idat (z.compress plain)

    abbrev file : List ℕ
    file = png_signature ++ (header_chunk ++ (data_chunk ++ png_chunk z iend []))

    abbrev behind_header : ℕ
    behind_header = 8 + 12 + length (header_bytes image)

    header_round :
        (fuel : ℕ)
        → chunks_from (suc fuel) file 8 nothing_found
          ≡ chunks_from fuel file behind_header
              (record nothing_found { header = some (written_header image) })
    header_round fuel =
        chunks_from-png_chunk z ihdr (header_bytes image) refl
          (unfold header_bytes be32_bytes in omega arith) png_signature
          (data_chunk ++ png_chunk z iend []) 8 refl fuel nothing_found
        ∙ take_chunk-ihdr image w h (chunks_from fuel file behind_header) nothing_found

    data_round :
        (fuel : ℕ) (st : Found)
        → chunks_from (suc fuel) file behind_header st
          ≡ chunks_from fuel file
              (behind_header + 12 + length (z.compress plain))
              (record st { has_data = true; body = st.body ++ z.compress plain })
    data_round fuel st =
        chunks_from-png_chunk z idat (z.compress plain) refl small (png_signature ++ header_chunk)
          (png_chunk z iend []) behind_header
          (omega (
            arith,
            length-append png_signature header_chunk,
            length-png_chunk z ihdr (header_bytes image) refl,
          ))
          fuel st
        ∙ unfold take_chunk bytes_eq in refl

    end_round :
        (fuel : ℕ) (st : Found)
        → chunks_from (suc fuel) file (behind_header + 12 + length (z.compress plain)) st ≡ ok st
    end_round fuel st =
        let front : List ℕ = png_signature ++ (header_chunk ++ data_chunk) in
        let split : file ≡ front ++ (png_chunk z iend [] ++ []) = simp (append_assoc, append-nil) in
        subst
          (λ s.
            chunks_from (suc fuel) s (behind_header + 12 + length (z.compress plain)) st ≡ ok st)
          (sym split)
          (chunks_from-png_chunk z iend [] refl (omega arith) front [] _
              (omega (
                arith,
                length-append png_signature (header_chunk ++ data_chunk),
                length-append header_chunk data_chunk,
                length-png_chunk z ihdr (header_bytes image) refl,
                length-png_chunk z idat (z.compress plain) refl,
              ))
              fuel st
            ∙ unfold take_chunk bytes_eq in refl)

    loop :
        chunks_from (length file + 1) file 8 nothing_found
        ≡ ok (record {
          header = some (written_header image);
          has_data = true;
          body = z.compress plain;
        })
    loop =
        let more : ℕ = length file - 2 in
        let enough : length file + 1 ≡ suc (suc (suc more)) = omega arith in
        ap (λ fuel. chunks_from fuel file 8 nothing_found) enough
        ∙ header_round (suc (suc more))
        ∙ data_round (suc more) (record nothing_found { header = some (written_header image) })
        ∙ end_round more _

    same_signature : bytes_eq (take 8 file) png_signature ≡ true
    unfolding bytes_eq
    same_signature = refl

    -- With any zlib that inflates what it deflated, a valid image of bytes whose sizes and whose
    -- compressed rows' length fit their words is encoded, and the file decodes to it.
    pub decode_png-encode_png :
        (bytes : List ℕ) × (encode_png z image ≡ ok bytes) × (decode_png z bytes ≡ ok image)
    unfolding encode_png decode_png decode_found
    decode_png-encode_png = (file, rw v, rw same_signature (rw loop (rw decode_body-plain_rows)))
