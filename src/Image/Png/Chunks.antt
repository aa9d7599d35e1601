-- ===== src/Image/Png/Chunks.antt =====
-- The chunk loop of `decode_png` in src/py/rdc_image.py. A refusal is the value that its text prints,
-- without the chunk's name. A chunk takes twelve bytes, so as many rounds as the file has bytes, and
-- one, are enough.
use rdc_tools.Prelude.{
  bytes_eq, ℕ, zero, suc, ◌+◌, ◌-◌, ◌*◌, ◌/◌, ◌%◌, Bool, true, false, ◌&&◌, Option, none, some,
  List, [], ◌∷◌, ◌++◌, length, take, drop, ltb, leb, ◌==◌, if◌then◌else◌,
}

pub data PngError : Type 0 where
  no_signature : PngError
  truncated : ℕ → ℕ → PngError
  short_header : ℕ → PngError
  bad_method : ℕ → ℕ → PngError
  no_header : PngError
  no_image : ℕ → ℕ → PngError
  bad_depth : ℕ → PngError
  bad_colour : ℕ → PngError
  interlaced : PngError
  no_data : PngError
  not_inflated : PngError
  short_data : ℕ → ℕ → PngError
  filter_error : ℕ → ℕ → PngError
  not_valid : PngError

-- `other_error` is an exception that is no `PngError`.
pub data Png {ℓ} (A : Type ℓ) : Type ℓ where
  ok : A → Png A
  err : PngError → Png A
  other_error : Png A
  out_of_fuel : Png A

abbrev pub png_signature : List ℕ
png_signature = 0x89 ∷ b'P' ∷ b'N' ∷ b'G' ∷ 0x0d ∷ 0x0a ∷ 0x1a ∷ 0x0a ∷ []

-- `struct.unpack_from('>I', data, o)[0]`, `none` past the end.
unfoldable pub be32_head : List ℕ → Option ℕ
be32_head (a ∷ b ∷ c ∷ d ∷ rest) = some (((a * 256 + b) * 256 + c) * 256 + d)
be32_head _ = none

unfoldable pub be32 : List ℕ → ℕ → Option ℕ
be32 bytes o = be32_head (drop o bytes)

-- `struct.pack('>I', v)`
unfoldable pub be32_bytes : ℕ → List ℕ
be32_bytes v = (v / 0x1000000 % 256) ∷ (v / 0x10000 % 256) ∷ (v / 256 % 256) ∷ (v % 256) ∷ []

abbrev pub ihdr : List ℕ
ihdr = b'I' ∷ b'H' ∷ b'D' ∷ b'R' ∷ []

abbrev pub idat : List ℕ
idat = b'I' ∷ b'D' ∷ b'A' ∷ b'T' ∷ []

abbrev pub iend : List ℕ
iend = b'I' ∷ b'E' ∷ b'N' ∷ b'D' ∷ []

pub record Header : Type 0 where
  pub width : ℕ
  pub height : ℕ
  pub bit_depth : ℕ
  pub colour_type : ℕ
  pub compression : ℕ
  pub filter_method : ℕ
  pub interlace : ℕ

-- `struct.unpack_from('>IIBBBBB', body, 0)`
unfoldable pub header_fields : ℕ → ℕ → List ℕ → Option Header
header_fields width height (depth ∷ colour ∷ compression ∷ method ∷ interlace ∷ rest) =
    some (record {
      width = width;
      height = height;
      bit_depth = depth;
      colour_type = colour;
      compression = compression;
      filter_method = method;
      interlace = interlace;
    })
header_fields width height _ = none

unfoldable pub unpack_header : List ℕ → Option Header
unpack_header body = elim (be32 body 0) [
  | none ↦ none
  | some width ↦ elim (be32 body 4) [
    | none ↦ none
    | some height ↦ header_fields width height (drop 8 body)
  ]
]

-- What the chunk loop has found: a header, if one was seen, and the data chunks' bodies joined.
pub record Found : Type 0 where
  pub header : Option Header
  pub has_data : Bool
  pub body : List ℕ

abbrev pub nothing_found : Found
nothing_found = record { header = none; has_data = false; body = [] }

unfoldable pub read_header : (Found → Png Found) → Found → List ℕ → Png Found
read_header again st body =
    if ltb (length body) 13 then err (short_header (length body)) else elim (unpack_header body) [
      | none ↦ other_error
      | some h ↦
          if h.compression == 0 && h.filter_method == 0
          then again (record st { header = some h })
          else err (bad_method h.compression h.filter_method)
    ]

-- One chunk, `again` the rounds behind it.
unfoldable pub take_chunk : (Found → Png Found) → Found → List ℕ → List ℕ → Png Found
take_chunk again st kind body =
    if bytes_eq kind ihdr
    then read_header again st body
    else if bytes_eq kind idat
    then again (record st { has_data = true; body = st.body ++ body })
    else if bytes_eq kind iend
    then ok st
    else again st

-- A round at `pos`, whose chunk says that it has `size` bytes.
unfoldable pub chunk_round : List ℕ → ℕ → (ℕ → Found → Png Found) → Found → ℕ → Png Found
chunk_round bytes pos again st size =
    let body = take size (drop (pos + 8) bytes) in
    if length body == size
    then take_chunk (again (pos + 12 + size)) st (take 4 (drop (pos + 4) bytes)) body
    else err (truncated size (size - length body))

unfoldable pub chunks_from : ℕ → List ℕ → ℕ → Found → Png Found
chunks_from zero bytes pos st = out_of_fuel
chunks_from (suc fuel) bytes pos st = elim (leb (pos + 8) (length bytes)) [
  | true ↦ elim (be32 bytes pos) [
    | none ↦ other_error
    | some size ↦ chunk_round bytes pos (chunks_from fuel bytes) st size
  ]
  | false ↦ ok st
]
