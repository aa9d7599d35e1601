-- ===== src/Stream/Lz4.antt =====
-- `decompress_lz4` and `_lz4_dict_size` of src/py/rdc_stream.py: a section body of pages, each a length
-- word and an LZ4 block. The C library is the record `Decoder`: `LZ4_decompress_safe_usingDict` on a
-- block, the room left and the dictionary gives the bytes it wrote, `none` for a negative result. The
-- buffer and its pointers are the output so far: a call writes behind it and reads its tail. A page
-- takes five bytes of the body at least, so as many rounds as the body has bytes, and one, are enough.
pub mod Totality
pub mod RoundTrip
use rdc_tools.Prelude.{
  ℕ, zero, suc, ◌+◌, ◌-◌, ◌≤◌, ◌<◌, le→leb, lt→ltb, arith, ◌≡◌, Bool, true, false, not, Option,
  none, some, List, [], ◌++◌, ◌||◌, ◌&&◌, length, take, drop, ltb, leb, ◌==◌, if◌then◌else◌,
}
use rdc_tools.Stream.Words.{u32}

pub record Decoder : Type 0 where
  pub decode : List ℕ → ℕ → List ℕ → Option (List ℕ)
  -- The library writes no more than the room that it is given.
  pub decode_fits :
      (block dict out : List ℕ) (room : ℕ) → decode block room dict ≡ some out → length out ≤ room

abbrev pub lz4_dict : ℕ
lz4_dict = 0x10000

abbrev pub lz4_c_max : ℕ
lz4_c_max = 0x7fffffff

unfoldable pub lz4_dict_size : ℕ → ℕ
lz4_dict_size written = if ltb written lz4_dict then written else lz4_dict

-- The `FrameError`s of the function, as the values that their texts print.
pub data Lz4Error : Type 0 where
  no_decoder : Lz4Error
  too_large : ℕ → ℕ → Lz4Error
  page_failed : ℕ → ℕ → ℕ → ℕ → ℕ → Lz4Error
  wrong_size : ℕ → ℕ → Lz4Error

pub data Decompressed : Type 0 where
  decompressed : List ℕ → ℕ → Decompressed
  lz4_error : Lz4Error → Decompressed
  lz4_struct_error : Decompressed
  lz4_out_of_fuel : Decompressed

-- The test behind the loop.
unfoldable pub finish_pages : ℕ → List ℕ → ℕ → Decompressed
finish_pages expect out blocks =
    if length out == expect
    then decompressed out blocks
    else lz4_error (wrong_size (length out) expect)

module _ (d : Decoder) (blob : List ℕ) (expect : ℕ) where
  -- One page of `clen` bytes at `o`, with `again` the rounds behind it.
  unfoldable pub decode_page : (ℕ → List ℕ → ℕ → Decompressed) → ℕ → List ℕ → ℕ → ℕ → Decompressed
  decode_page again o out blocks clen =
      let written = length out in
      let dsize = lz4_dict_size written in
      if clen == 0 || ltb (length blob) (o + clen)
      then finish_pages expect out blocks
      else elim (d.decode (take clen (drop o blob)) (expect - written)
          (drop (written - dsize) out)) [
            | none ↦ lz4_error (page_failed blocks written expect clen o)
            | some page ↦ again (o + clen) (out ++ page) (blocks + 1)
          ]

  unfoldable pub decode_from : ℕ → ℕ → List ℕ → ℕ → Decompressed
  decode_from zero o out blocks = lz4_out_of_fuel
  decode_from (suc fuel) o out blocks =
      elim (leb (o + 4) (length blob) && ltb (length out) expect) [
        | true ↦ elim (u32 blob o) [
          | none ↦ lz4_struct_error
          | some clen ↦ decode_page (decode_from fuel) (o + 4) out blocks clen
        ]
        | false ↦ finish_pages expect out blocks
      ]

  -- The two cases of the loop's test.
  module _ (fuel o : ℕ) (out : List ℕ) (blocks : ℕ) where
    pub decode_from_more :
        (clen : ℕ)
        → o + 4 ≤ length blob
        → length out < expect
        → u32 blob o ≡ some clen
        → decode_from (suc fuel) o out blocks
          ≡ decode_page (decode_from fuel) (o + 4) out blocks clen
    unfolding decode_from
    decode_from_more clen a b e = rw (decode_from, le→leb _ _ a, lt→ltb _ _ b) (rw (decode_from, e))

    pub decode_from_done :
        expect ≤ length out → decode_from (suc fuel) o out blocks ≡ finish_pages expect out blocks
    unfolding decode_from
    decode_from_done b = ground arith

-- `_lz4_c_function` finds a library or not.
unfoldable pub decompress_lz4 : Option Decoder → List ℕ → ℕ → Decompressed
decompress_lz4 library blob expect = if leb expect 0 then decompressed [] 0 else (elim library [
  | none ↦ lz4_error no_decoder
  | some d ↦
      if ltb lz4_c_max expect || ltb lz4_c_max (length blob)
      then lz4_error (too_large (length blob) expect)
      else decode_from d blob expect (length blob + 1) 0 [] 0
])
