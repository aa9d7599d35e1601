-- ===== src/Tests/Images.antt =====
-- Runs on images of two pixels: src/py/rdc_image.py.
use rdc_tools.Prelude.{
  ℕ, ◌≡◌, ◌↔◌, refl, arith, true, false, Option, none, some, List, [], ◌∷◌, length,
}
use rdc_tools.Image.{Image, valid}
use rdc_tools.Image.Delta.{
  ImageDelta, pixel_delta, pixels_of, heat_pixel, count_pixel, delta_from, image_delta,
}
use rdc_tools.Image.Delta.Bounds.{AreComparable}
use rdc_tools.Image.Delta.Result.{IsMeasured, image_delta-IsMeasured, image_delta_same_iff}
use rdc_tools.Image.Png.{Zlib, plain_rows, encode_png, decode_png}
use rdc_tools.Image.Png.Chunks.{ok}
use rdc_tools.Image.Png.Filter.{rows, unfilter_rows}
use rdc_tools.Image.Png.Filter.Inverse.{nearest, average, filter_rows, unfilter_rows-filter_rows}
use rdc_tools.Image.Png.RoundTrip.{decode_png-encode_png}
use rdc_tools.Image.Png.Valid.{ReturnsImage, decode_png-ReturnsImage}

abbrev dark : Image
dark = record { width = 2; height = 1; rgba = 1 ∷ 2 ∷ 3 ∷ 255 ∷ 4 ∷ 5 ∷ 6 ∷ 255 ∷ [] }

-- The second pixel's green is raised by 40.
abbrev light : Image
light = record { width = 2; height = 1; rgba = 1 ∷ 2 ∷ 3 ∷ 255 ∷ 4 ∷ 45 ∷ 6 ∷ 255 ∷ [] }

abbrev green_delta : ImageDelta
green_delta = record { pixels = 2; differing = 1; max_delta = 40; sum_delta = 40 }

green_measured : image_delta dark light false ≡ some (green_delta, none)
unfolding image_delta valid pixels_of delta_from count_pixel pixel_delta heat_pixel
green_measured = refl

image_delta-IsMeasured_example : IsMeasured dark light false (green_delta, none)
image_delta-IsMeasured_example =
    image_delta-IsMeasured dark light false (green_delta, none) green_measured

dark-AreComparable : AreComparable dark light
unfolding valid
dark-AreComparable = record {
  left_valid = refl;
  right_valid = refl;
  same_width = refl;
  same_height = refl;
}

image_delta_same_iff_example :
    (r : ImageDelta × Option Image) × (image_delta dark light true ≡ some r)
    × ((r.0.differing ≡ 0) ↔ (dark.rgba ≡ light.rgba))
image_delta_same_iff_example = image_delta_same_iff dark light true dark-AreComparable

-- Two rows of one RGB pixel each, the first behind the filter Paeth and the second behind the average.
unfilter_rows-filter_rows_example :
    unfilter_rows 3 3 2 0
      (0 ∷ 0 ∷ 0 ∷ [])
      (filter_rows 3 3 (nearest ∷ average ∷ []) (0 ∷ 0 ∷ 0 ∷ []) (200 ∷ 100 ∷ 7 ∷ 9 ∷ 250 ∷ 3 ∷ []))
    ≡ rows (200 ∷ 100 ∷ 7 ∷ 9 ∷ 250 ∷ 3 ∷ [])
unfilter_rows-filter_rows_example =
    unfilter_rows-filter_rows 3 3 (nearest ∷ average ∷ []) 0 (0 ∷ 0 ∷ 0 ∷ [])
      (200 ∷ 100 ∷ 7 ∷ 9 ∷ 250 ∷ 3 ∷ []) (omega arith, (omega arith, (omega arith, tt)))
      (omega arith, (omega arith, (omega arith, (omega arith, (omega arith, (omega arith, tt))))))
      refl

-- A zlib that stores.
abbrev storing_zlib : Zlib
storing_zlib = record {
  compress = λ xs. xs;
  decompress = λ xs. some xs;
  crc32 = λ xs. length xs;
  decompress-compress = λ xs. refl;
}

dark-valid : valid dark ≡ true
unfolding valid
dark-valid = refl

decode_png-encode_png_example :
    (bytes : List ℕ) × (encode_png storing_zlib dark ≡ ok bytes)
    × (decode_png storing_zlib bytes ≡ ok dark)
unfolding plain_rows
decode_png-encode_png_example =
    decode_png-encode_png storing_zlib dark dark-valid
      (
        omega arith,
        (
          omega arith,
          (
            omega arith,
            (omega arith, (omega arith, (omega arith, (omega arith, (omega arith, tt))))),
          ),
        ),
      )
      (omega arith) (omega arith) (omega arith)

decode_png-ReturnsImage_example :
    ReturnsImage
      (decode_png storing_zlib (0x89 ∷ b'P' ∷ b'N' ∷ b'G' ∷ 0x0d ∷ 0x0a ∷ 0x1a ∷ 0x0a ∷ []))
decode_png-ReturnsImage_example =
    decode_png-ReturnsImage storing_zlib
      (0x89 ∷ b'P' ∷ b'N' ∷ b'G' ∷ 0x0d ∷ 0x0a ∷ 0x1a ∷ 0x0a ∷ [])
