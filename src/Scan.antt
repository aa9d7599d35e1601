-- ===== src/Scan.antt =====
-- `find_all` of src/py/rdc_scan.py: every offset of a byte pattern in the stream, by one loop or by a
-- loop for each slice. `bytes.find` is `find`: the first place in a window where the pattern stands.
-- The file system and the pool of processes are data: the cache file's bytes, or none where it
-- cannot be read, and whether the pool's work came to an end. A round of a loop moves past a place in
-- the window, so as many rounds as the buffer has bytes, and two, are enough.
pub mod Places
pub mod Serial
pub mod Slices
pub mod Joined
pub mod Ranges
pub mod Parallel
use rdc_tools.Prelude.{
  bytes_eq, ℕ, zero, suc, ◌+◌, ◌-◌, ◌*◌, ◌/◌, Bool, true, false, not, ◌&&◌, ◌||◌, Option, none,
  some, List, [], ◌∷◌, ◌++◌, length, take, drop, ltb, leb, ◌==◌, if◌then◌else◌, min, max,
}

unfoldable pub is_prefix : List ℕ → List ℕ → Bool
is_prefix [] xs = true
is_prefix (n ∷ ns) [] = false
is_prefix (n ∷ ns) (x ∷ xs) = n == x && is_prefix ns xs

-- The pattern stands at a place of the buffer.
unfoldable pub stands_at : List ℕ → List ℕ → ℕ → Bool
stands_at needle bytes at = is_prefix needle (drop at bytes)

-- The first of `count` places from `at` on that passes the test.
unfoldable pub search : (ℕ → Bool) → ℕ → ℕ → Option ℕ
search p at zero = none
search p at (suc count) = let later = search p (at + 1) count in if p at then some at else later

-- `bytes.find(needle, at, limit)`: the places from which the pattern ends within the limit.
unfoldable pub find : List ℕ → List ℕ → ℕ → ℕ → Option ℕ
find bytes needle at limit = search (stands_at needle bytes) at (limit + 1 - length needle - at)

-- The loop of `_find_serial`; `none` where the rounds run out.
unfoldable pub serial_from : ℕ → List ℕ → List ℕ → Option ℕ → Option (List ℕ)
serial_from fuel stream needle none = some []
serial_from zero stream needle (some at) = none
serial_from (suc fuel) stream needle (some at) =
    elim (serial_from fuel stream needle (find stream needle (at + 1) (length stream))) [
      | none ↦ none
      | some hits ↦ some (at ∷ hits)
    ]

unfoldable pub find_serial : List ℕ → List ℕ → Option (List ℕ)
find_serial stream needle =
    serial_from (length stream + 2) stream needle (find stream needle 0 (length stream))

-- The loop of `_find_range`.
unfoldable pub range_from : ℕ → List ℕ → ℕ → ℕ → ℕ → List ℕ → ℕ → Option ℕ → Option (List ℕ)
range_from fuel mapped base start end needle limit none = some []
range_from zero mapped base start end needle limit (some at) = none
range_from (suc fuel) mapped base start end needle limit (some at) =
    let rest =
      range_from fuel mapped base start end needle limit (find mapped needle (at + 1) limit) in
    if leb end (at - base) then some [] else (elim rest [
      | none ↦ none
      | some hits ↦ some (if leb start (at - base) then (at - base) ∷ hits else hits)
    ])

unfoldable pub find_range : List ℕ → ℕ → ℕ → ℕ → List ℕ → Option (List ℕ)
find_range mapped base start end needle =
    let limit = min (length mapped) (base + end + length needle - 1) in
    range_from (length mapped + 2) mapped base start end needle limit
      (find mapped needle (base + (start - (length needle - 1))) limit)

-- A cache entry, with the bytes of its file.
pub record CacheSource : Type 0 where
  pub file : Option (List ℕ)
  pub hdr_len : ℕ
  pub stream_len : ℕ

-- `_source_holds_stream`
unfoldable pub source_holds_stream : List ℕ → CacheSource → Bool
source_holds_stream stream source =
    if not (source.stream_len == length stream) || ltb (length stream) 128
    then false
    else elim source.file [
      | none ↦ false
      | some bytes ↦
          bytes_eq (take 64 (drop source.hdr_len bytes)) (take 64 stream)
          && bytes_eq (take 64 (drop (source.hdr_len + length stream - 64) bytes))
              (drop (length stream - 64) stream)
    ]

abbrev pub find_min_bytes : ℕ
find_min_bytes = 0x40000000

abbrev pub find_max_slices : ℕ
find_max_slices = 8

unfoldable pub worker_count : ℕ → Option ℕ → ℕ
worker_count cpus none = min cpus find_max_slices
worker_count cpus (some procs) = max 1 procs

-- `n` slices from the `i`th on, of a stream of `total` bytes in `workers` slices.
unfoldable pub slices_from : ℕ → ℕ → ℕ → ℕ → List (ℕ × ℕ)
slices_from total workers i zero = []
slices_from total workers i (suc n) =
    (total * i / workers, total * (i + 1) / workers) ∷ slices_from total workers (i + 1) n

-- `procs is None and total < FIND_MIN_BYTES`
abbrev pub too_small : ℕ → Option ℕ → Bool
too_small total none = ltb total find_min_bytes
too_small total (some procs) = false

-- The slices and the bytes that they are found in.
unfoldable pub find_ranges : List ℕ → Option CacheSource → ℕ → Option ℕ → Option (List (ℕ × ℕ))
find_ranges stream none cpus procs = none
find_ranges stream (some source) cpus procs =
    let workers = worker_count cpus procs in
    if leb workers 1 || (too_small (length stream) procs || not (source_holds_stream stream source))
    then none
    else some (slices_from (length stream) workers 0 workers)

-- `hits.extend(part)` for each slice's part.
unfoldable pub find_parts : List ℕ → ℕ → List ℕ → List (ℕ × ℕ) → Option (List ℕ)
find_parts mapped base needle [] = some []
find_parts mapped base needle ((start, end) ∷ rest) =
    elim (find_range mapped base start end needle) [
      | none ↦ none
      | some hits ↦ elim (find_parts mapped base needle rest) [
        | none ↦ none
        | some more ↦ some (hits ++ more)
      ]
    ]

-- The parallel work: `pool_works` where neither the pool nor a worker raises.
unfoldable pub find_in_slices :
    List ℕ → List ℕ → Option CacheSource → Bool → List (ℕ × ℕ) → Option (List ℕ)
find_in_slices stream needle none pool_works ranges = find_serial stream needle
find_in_slices stream needle (some source) false ranges = find_serial stream needle
find_in_slices stream needle (some source) true ranges = elim source.file [
  | none ↦ find_serial stream needle
  | some bytes ↦ find_parts bytes source.hdr_len needle ranges
]

abbrev pub is_empty : List ℕ → Bool
is_empty [] = true
is_empty (x ∷ xs) = false

unfoldable pub find_all :
    List ℕ → List ℕ → Option CacheSource → ℕ → Option ℕ → Bool → Option (List ℕ)
find_all stream needle source cpus procs pool_works =
    if is_empty needle then some [] else (elim (find_ranges stream source cpus procs) [
      | none ↦ find_serial stream needle
      | some ranges ↦ find_in_slices stream needle source pool_works ranges
    ])
