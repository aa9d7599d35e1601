-- ===== src/Tests/Finds.antt =====
-- A run of `find_all` of src/py/rdc_scan.py.
use rdc_tools.Prelude.{
  length, max, ◌≤◌, ℕ, ◌≡◌, refl, arith, true, some, List, [], ◌∷◌, ◌++◌, inr, replicate,
}
use rdc_tools.Scan.{CacheSource, stands_at, find_all}
use rdc_tools.Scan.Places.{between}
use rdc_tools.Scan.Serial.{last_place}
use rdc_tools.Scan.Parallel.{find_all-between}
use rdc_tools.Scan.Ranges.{split_ranges}
use rdc_tools.Scan.Ranges.Split.{Covers, split_ranges-Covers}

-- The pattern stands across the middle of the stream.
abbrev small_stream : List ℕ
small_stream = replicate 63 0 ++ (7 ∷ 8 ∷ replicate 63 0)

abbrev small_source : CacheSource
small_source = record { file = some (5 ∷ small_stream); hdr_len = 1; stream_len = 128 }

find_all-between_example :
    find_all small_stream (7 ∷ 8 ∷ []) (some small_source) 4 (some 2) true
    ≡ some (between (stands_at (7 ∷ 8 ∷ []) small_stream) 0 (last_place small_stream (7 ∷ 8 ∷ [])))
find_all-between_example =
    find_all-between small_stream (7 ∷ 8 ∷ []) (omega arith) (some small_source) 4 (some 2) true
      (inr (5 ∷ [], refl, refl))

split_ranges-Covers_example :
    Covers small_stream 0 (split_ranges small_stream 4)
    × (length (split_ranges small_stream 4) ≤ max 1 4)
split_ranges-Covers_example = split_ranges-Covers small_stream 4
