-- ===== src/Image/Png.antt =====
-- The PNG codec of src/py/rdc_image.py: `encode_png` and `decode_png`. zlib is not in the repository: it
-- is the record `Zlib`.
pub mod Filter
pub mod Chunks
pub mod Frames
pub mod Plain
pub mod Sizes
pub mod Valid
pub mod RoundTrip
use rdc_tools.Prelude.{
  bytes_eq, ℕ, zero, suc, ◌+◌, ◌-◌, ◌*◌, ◌/◌, ◌%◌, ◌<◌, ◌≡◌, Bool, true, false, not, ◌&&◌, ◌||◌,
  zero, suc, Option, none, some, List, [], ◌∷◌, ◌++◌, length, take, drop, ltb, leb, ◌==◌,
  if◌then◌else◌,
}
use rdc_tools.Image.{Image, valid}
use rdc_tools.Image.Png.Chunks.{
  Found, Header, Png, PngError, bad_colour, bad_depth, bad_method, be32, be32_bytes, be32_head,
  chunk_round, chunks_from, err, filter_error, header_fields, idat, iend, ihdr, interlaced, no_data,
  no_header, no_image, no_signature, not_inflated, not_valid, nothing_found, ok, other_error,
  out_of_fuel, png_signature, read_header, short_data, short_header, take_chunk, truncated,
  unpack_header,
}
use rdc_tools.Image.Png.Filter.{Unfiltered, rows, bad_filter, no_row, unfilter_rows, zeros}

-- `zlib.compress(_, 6)`, `zlib.decompress` with `none` for `zlib.error`, and `zlib.crc32`.
pub record Zlib : Type 0 where
  pub compress : List ℕ → List ℕ
  pub decompress : List ℕ → Option (List ℕ)
  pub crc32 : List ℕ → ℕ
  pub decompress-compress : (xs : List ℕ) → decompress (compress xs) ≡ some xs

-- `CHANNELS.get(colour_type)`
unfoldable pub channels_of : ℕ → Option ℕ
channels_of colour =
    if colour == 0
    then some 1
    else if colour == 2
    then some 3
    else if colour == 4
    then some 2
    else if colour == 6
    then some 4
    else none

-- `_to_rgba`, on rows that have as many bytes as the image needs.
unfoldable pub rgb_to_rgba : List ℕ → List ℕ
rgb_to_rgba (r ∷ g ∷ b ∷ rest) = r ∷ g ∷ b ∷ 255 ∷ rgb_to_rgba rest
rgb_to_rgba _ = []

unfoldable pub grey_alpha_to_rgba : List ℕ → List ℕ
grey_alpha_to_rgba (v ∷ a ∷ rest) = v ∷ v ∷ v ∷ a ∷ grey_alpha_to_rgba rest
grey_alpha_to_rgba _ = []

unfoldable pub grey_to_rgba : List ℕ → List ℕ
grey_to_rgba [] = []
grey_to_rgba (v ∷ rest) = v ∷ v ∷ v ∷ 255 ∷ grey_to_rgba rest

unfoldable pub to_rgba : ℕ → List ℕ → List ℕ
to_rgba colour bytes =
    if colour == 6
    then bytes
    else if colour == 2
    then rgb_to_rgba bytes
    else if colour == 4
    then grey_alpha_to_rgba bytes
    else grey_to_rgba bytes

unfoldable pub image_of : Header → Unfiltered → Png Image
image_of h (rows bytes) =
    ok (record { width = h.width; height = h.height; rgba = to_rgba h.colour_type bytes })
image_of h (bad_filter y kind) = err (filter_error y kind)
image_of h no_row = other_error

-- The inflated data, of an image with `channels` channels.
unfoldable pub decode_rows : Header → ℕ → List ℕ → Png Image
decode_rows h channels raw =
    if ltb (length raw) ((h.width * channels + 1) * h.height)
    then err (short_data (length raw) ((h.width * channels + 1) * h.height))
    else image_of h
        (unfilter_rows channels (h.width * channels) h.height 0 (zeros (h.width * channels)) raw)

-- The tests behind the chunk loop.
unfoldable pub decode_body : Zlib → Header → Bool → List ℕ → Png Image
decode_body z h has_data body =
    if h.width == 0 || h.height == 0
    then err (no_image h.width h.height)
    else if not (h.bit_depth == 8)
    then err (bad_depth h.bit_depth)
    else elim (channels_of h.colour_type) [
      | none ↦ err (bad_colour h.colour_type)
      | some channels ↦
          if not (h.interlace == 0)
          then err interlaced
          else if not has_data
          then err no_data
          else elim (z.decompress body) [
            | none ↦ err not_inflated
            | some raw ↦ decode_rows h channels raw
          ]
    ]

unfoldable pub decode_found : Zlib → Png Found → Png Image
decode_found z (ok st) = elim st.header [
  | none ↦ err no_header
  | some h ↦ decode_body z h st.has_data st.body
]
decode_found z (err e) = err e
decode_found z other_error = other_error
decode_found z out_of_fuel = out_of_fuel

unfoldable pub decode_png : Zlib → List ℕ → Png Image
decode_png z bytes =
    if bytes_eq (take 8 bytes) png_signature
    then decode_found z (chunks_from (length bytes + 1) bytes 8 nothing_found)
    else err no_signature

-- `_chunk`
unfoldable pub png_chunk : Zlib → List ℕ → List ℕ → List ℕ
png_chunk z kind body =
    be32_bytes (length body)
    ++ (kind ++ (body ++ be32_bytes (z.crc32 (kind ++ body) % 0x100000000)))

-- The rows, each behind a filter byte of 0.
unfoldable pub plain_rows : ℕ → ℕ → List ℕ → List ℕ
plain_rows stride zero rgba = []
plain_rows stride (suc height) rgba =
    0 ∷ (take stride rgba ++ plain_rows stride height (drop stride rgba))

unfoldable pub header_bytes : Image → List ℕ
header_bytes image = be32_bytes image.width ++ (be32_bytes image.height ++ (8 ∷ 6 ∷ 0 ∷ 0 ∷ 0 ∷ []))

unfoldable pub encode_png : Zlib → Image → Png (List ℕ)
encode_png z image =
    if valid image
    then ok (
        png_signature
        ++ (png_chunk z ihdr (header_bytes image)
            ++ (png_chunk z idat (z.compress (plain_rows (image.width * 4) image.height image.rgba))
                ++ png_chunk z iend [])))
    else err not_valid
