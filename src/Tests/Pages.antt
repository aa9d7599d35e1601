-- ===== src/Tests/Pages.antt =====
-- Runs of the section decoder of src/py/rdc_stream.py, with a decoder that stores its pages.
use rdc_tools.Prelude.{
  ℕ, ◌≤◌, ◌≡◌, arith, Option, none, some, List, [], ◌∷◌, length, leb, if◌then◌else◌,
}
use rdc_tools.Stream.Words.{bytes_of}
use rdc_tools.Stream.Lz4.{Decoder, lz4_dict_size, decompressed, decompress_lz4}
use rdc_tools.Stream.Lz4.Totality.{IsWhole, decompress_lz4-IsWhole}
use rdc_tools.Stream.Lz4.RoundTrip.{Compressor, write_pages, decompress_lz4-write_pages}

-- A block is a byte and the page.
unfoldable unpack : List ℕ → ℕ → List ℕ → Option (List ℕ)
unpack [] room dict = none
unpack (b ∷ page) room dict = if leb (length page) room then some page else none

unpack_fits :
    (block dict out : List ℕ) (room : ℕ) → unpack block room dict ≡ some out → length out ≤ room
unfolding unpack
unpack_fits [] dict out room h = cc
unpack_fits (b ∷ page) dict out room h = ground arith

abbrev stored : Decoder
stored = record { decode = unpack; decode_fits = unpack_fits }

unpack-pack :
    (page : List ℕ) (room : ℕ) (dict : List ℕ)
    → length page ≤ room
    → unpack (0 ∷ page) room dict ≡ some page
unfolding unpack
unpack-pack page room dict h = ground arith

abbrev storing : Compressor stored
storing = record {
  page_max = 0x100000;
  compress = λ dict page. 0 ∷ page;
  compress_size = λ dict page h. (omega arith, omega arith);
  decode-compress = λ dict page room h fits. unpack-pack page room dict fits;
}

abbrev two_pages : List (List ℕ)
two_pages = (7 ∷ 8 ∷ []) ∷ (9 ∷ []) ∷ []

decompress_lz4-write_pages_example :
    decompress_lz4 (some stored) (write_pages stored storing [] two_pages) 3
    ≡ decompressed (7 ∷ 8 ∷ 9 ∷ []) 2
unfolding write_pages bytes_of lz4_dict_size
decompress_lz4-write_pages_example =
    decompress_lz4-write_pages stored storing two_pages
      (omega arith, omega arith, (omega arith, omega arith, tt)) (omega arith) (omega arith)

-- The second page is cut.
abbrev cut_pages : List ℕ
cut_pages = 3 ∷ 0 ∷ 0 ∷ 0 ∷ 0 ∷ 7 ∷ 8 ∷ 2 ∷ 0 ∷ 0 ∷ 0 ∷ 0 ∷ []

decompress_lz4-IsWhole_example : IsWhole 3 (decompress_lz4 (some stored) cut_pages 3)
decompress_lz4-IsWhole_example = decompress_lz4-IsWhole (some stored) cut_pages 3
