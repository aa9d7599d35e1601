-- ===== src/Image/Png/Valid.antt =====
-- What `decode_png` returns on any bytes.
use rdc_tools.Prelude.{
  bytes_eq, ℕ, zero, suc, ◌+◌, ◌-◌, ◌*◌, ◌≤◌, ◌<◌, ◌≡◌, refl, arith, Bool, true, not, List, ◌∷◌,
  length, length-drop, take, drop, some, ◌==◌, ◌&&◌, ◌||◌, leb, ltb, if_cases, bool_cases,
  option_cases,
}
use rdc_tools.Image.{Image, valid}
use rdc_tools.Image.Png.Chunks.{
  Png, ok, err, other_error, out_of_fuel, ihdr, idat, iend, Header, header_fields, unpack_header,
  Found, nothing_found, read_header, take_chunk, chunk_round, chunks_from, be32, be32_head,
  png_signature,
}
use rdc_tools.Image.Png.{
  Zlib, channels_of, image_of, decode_rows, decode_body, decode_found, decode_png,
}
use rdc_tools.Image.Png.Filter.{Unfiltered, rows, bad_filter, no_row, zeros}
use rdc_tools.Image.Png.Sizes.{AreRows, unfilter_rows-AreRows, length-to_rgba}

-- A valid image or a `PngError`.
abbrev pub ReturnsImage : Png Image → Type 0
ReturnsImage (ok image) = valid image ≡ true
ReturnsImage (err e) = Unit {0}
ReturnsImage other_error = ⊥
ReturnsImage out_of_fuel = ⊥

abbrev ReturnsFound : Png Found → Type 0
ReturnsFound (ok st) = Unit {0}
ReturnsFound (err e) = Unit {0}
ReturnsFound other_error = ⊥
ReturnsFound out_of_fuel = ⊥

be32_head_fits : (xs : List ℕ) → 4 ≤ length xs → (v : ℕ) × (be32_head xs ≡ some v)
unfolding be32_head
be32_head_fits (a ∷ b ∷ c ∷ d ∷ xs) h = (_, refl)
be32_head_fits _ h = absurd (omega arith)

be32_fits : (xs : List ℕ) (o : ℕ) → o + 4 ≤ length xs → (v : ℕ) × (be32 xs o ≡ some v)
unfolding be32
be32_fits xs o h = be32_head_fits (drop o xs) (omega (arith, length-drop o xs))

header_fields_fit :
    (w h : ℕ) (xs : List ℕ) → 5 ≤ length xs → (head : Header) × (header_fields w h xs ≡ some head)
unfolding header_fields
header_fields_fit w h (a ∷ b ∷ c ∷ d ∷ e ∷ xs) k = (_, refl)
header_fields_fit w h _ k = absurd (omega arith)

unpack_header_fits :
    (body : List ℕ) → 13 ≤ length body → (head : Header) × (unpack_header body ≡ some head)
unfolding unpack_header
unpack_header_fits body h =
    let (w, ew) = be32_fits body 0 (omega arith) in
    let (k, ek) = be32_fits body 4 (omega arith) in
    let (head, e) = header_fields_fit w k (drop 8 body) (omega (arith, length-drop 8 body)) in
    (head, rw (unpack_header, ew) (rw ek e))

module _ (again : Found → Png Found) (h : (st : Found) → ReturnsFound (again st)) where
  read_header-ReturnsFound : (st : Found) (body : List ℕ) → ReturnsFound (read_header again st body)
  unfolding read_header
  read_header-ReturnsFound st body =
      if_cases ReturnsFound (ltb (length body) 13) _ _ (λ e. tt)
        λ e.
          let (head, r) = unpack_header_fits body (ground arith) in
          rw r (
            if_cases ReturnsFound (head.compression == 0 && head.filter_method == 0) _ _ (λ t. h _)
              (λ t. tt))

  take_chunk-ReturnsFound :
      (st : Found) (kind body : List ℕ) → ReturnsFound (take_chunk again st kind body)
  unfolding take_chunk
  take_chunk-ReturnsFound st kind body =
      if_cases ReturnsFound (bytes_eq kind ihdr) _ _ (λ e. read_header-ReturnsFound st body)
        λ e.
          if_cases ReturnsFound (bytes_eq kind idat) _ _ (λ f. h _)
            λ f. if_cases ReturnsFound (bytes_eq kind iend) _ _ (λ g. tt) (λ g. h _)

chunks_from-ReturnsFound :
    (fuel : ℕ) (bytes : List ℕ) (pos : ℕ) (st : Found)
    → length bytes - pos < fuel
    → ReturnsFound (chunks_from fuel bytes pos st)
unfolding chunks_from chunk_round
chunks_from-ReturnsFound zero bytes pos st h = absurd (omega arith)
chunks_from-ReturnsFound (suc fuel) bytes pos st h =
    bool_cases ReturnsFound (leb (pos + 8) (length bytes)) _ _
      (λ inside.
        let (size, e) = be32_fits bytes pos (ground arith) in
        rw e (
          if_cases ReturnsFound (length (take size (drop (pos + 8) bytes)) == size) _ _
            (λ t.
              take_chunk-ReturnsFound (chunks_from fuel bytes (pos + 12 + size))
                (λ st'. chunks_from-ReturnsFound fuel bytes (pos + 12 + size) st' (ground arith)) st
                _ _)
            (λ t. tt)))
      (λ done. tt)

image_of-ReturnsImage :
    (h : Header) (channels : ℕ) (r : Unfiltered)
    → 0 < h.width
    → 0 < h.height
    → channels_of h.colour_type ≡ some channels
    → AreRows (h.height * (h.width * channels)) r
    → ReturnsImage (image_of h r)
unfolding image_of valid
image_of-ReturnsImage h channels (rows bytes) w k c size =
    let same : length bytes ≡ h.width * h.height * channels = omega (arith, size) in
    ground (arith, w, k, length-to_rgba (h.width * h.height) h.colour_type channels bytes c same)
image_of-ReturnsImage h channels (bad_filter y kind) w k c size = tt
image_of-ReturnsImage h channels no_row w k c size = elim size [ ]

decode_rows-ReturnsImage :
    (h : Header) (channels : ℕ) (raw : List ℕ)
    → 0 < h.width
    → 0 < h.height
    → channels_of h.colour_type ≡ some channels
    → ReturnsImage (decode_rows h channels raw)
unfolding decode_rows
decode_rows-ReturnsImage h channels raw w k c =
    if_cases ReturnsImage (ltb (length raw) ((h.width * channels + 1) * h.height)) _ _ (λ e. tt)
      λ e.
        let enough : (h.width * channels + 1) * h.height ≤ length raw = ground arith in
        image_of-ReturnsImage h channels _ w k c (
          unfilter_rows-AreRows channels (h.width * channels) h.height 0
            (zeros (h.width * channels)) raw (omega arith))

module _ (z : Zlib) where
  decode_body-ReturnsImage :
      (h : Header) (has_data : Bool) (body : List ℕ) → ReturnsImage (decode_body z h has_data body)
  unfolding decode_body
  decode_body-ReturnsImage h has_data body =
      if_cases ReturnsImage (h.width == 0 || h.height == 0) _ _ (λ e. tt)
        λ e.
          if_cases ReturnsImage (not (h.bit_depth == 8)) _ _ (λ f. tt)
            λ f.
              option_cases ReturnsImage (channels_of h.colour_type) _ _ (λ g. tt)
                λ channels g.
                  if_cases ReturnsImage (not (h.interlace == 0)) _ _ (λ i. tt)
                    λ i.
                      if_cases ReturnsImage (not has_data) _ _ (λ j. tt)
                        λ j.
                          option_cases ReturnsImage (z.decompress body) _ _ (λ k. tt)
                            λ raw k.
                              decode_rows-ReturnsImage h channels raw (ground arith) (ground arith)
                                g

  decode_found-ReturnsImage : (r : Png Found) → ReturnsFound r → ReturnsImage (decode_found z r)
  unfolding decode_found
  decode_found-ReturnsImage (ok st) h =
      option_cases ReturnsImage st.header _ _ (λ e. tt)
        (λ head e. decode_body-ReturnsImage head st.has_data st.body)
  decode_found-ReturnsImage (err e) h = tt
  decode_found-ReturnsImage other_error h = elim h [ ]
  decode_found-ReturnsImage out_of_fuel h = elim h [ ]

  -- On any bytes `decode_png` ends, with a valid image or a `PngError`: no other exception leaves it,
  -- and an image that it returns has four bytes for each of its pixels.
  pub decode_png-ReturnsImage : (bytes : List ℕ) → ReturnsImage (decode_png z bytes)
  unfolding decode_png
  decode_png-ReturnsImage bytes =
      if_cases ReturnsImage (bytes_eq (take 8 bytes) png_signature) _ _
        (λ e.
          decode_found-ReturnsImage (chunks_from (length bytes + 1) bytes 8 nothing_found)
            (chunks_from-ReturnsFound (length bytes + 1) bytes 8 nothing_found (omega arith)))
        (λ e. tt)
