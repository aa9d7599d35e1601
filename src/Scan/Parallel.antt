-- ===== src/Scan/Parallel.antt =====
-- `find_all` against the list of all places, whether it runs in one loop or in slices.
use native.Mathlib.Nat.{
  le-div_iff_mul-le, div-mul-le_self, mul-div_cancel, div-le_self, mul-le-mul_left,
}
use rdc_tools.Prelude.{
  ℕ, zero, suc, ◌+◌, ◌-◌, ◌*◌, ◌/◌, ◌≤◌, ◌<◌, ◌≡◌, refl, sym, ap, ◌∙◌, arith, Bool, true, false,
  Option, none, some, List, [], ◌∷◌, ◌++◌, length, min, option_cases, inl, inr, ◌⊎◌,
}
use rdc_tools.Scan.{
  stands_at, CacheSource, find_serial, find_range, slices_from, find_ranges, find_parts,
  find_in_slices, find_all, worker_count, is_empty,
}
use rdc_tools.Scan.Places.{between, between_at, between_none}
use rdc_tools.Scan.Serial.{last_place, find_serial-between}
use rdc_tools.Scan.Joined.{places, places_join, find_range-places}

cut_le : (total workers i j : ℕ) → 0 < workers → i ≤ j → total * i / workers ≤ total * j / workers
cut_le total workers i j h k =
    (le-div_iff_mul-le h).1
      (omega (arith, div-mul-le_self (total * i) workers, mul-le-mul_left total k))

module _ (head stream needle : List ℕ) (some_needle : 0 < length needle) where
  no_parts : find_parts (head ++ stream) (length head) needle [] ≡ some []
  unfolding find_parts
  no_parts = refl

  places_none : (a : ℕ) → places stream needle a a ≡ []
  places_none a =
      between_none (stands_at needle stream) a (min a (last_place stream needle) - a)
        (λ i x y. absurd (omega arith))

  find_parts_step :
      (start end : ℕ) (rest : List (ℕ × ℕ)) (hits more : List ℕ)
      → find_range (head ++ stream) (length head) start end needle ≡ some hits
      → find_parts (head ++ stream) (length head) needle rest ≡ some more
      → find_parts (head ++ stream) (length head) needle ((start, end) ∷ rest) ≡ some (hits ++ more)
  unfolding find_parts
  find_parts_step start end rest hits more e f = rw (find_parts, e) (rw f)

  find_parts-slices_from :
      (workers i n : ℕ)
      → 0 < workers
      → find_parts (head ++ stream) (length head) needle (slices_from (length stream) workers i n)
        ≡ some
            (places stream needle (length stream * i / workers) (length stream * (i + n) / workers))
  unfolding slices_from
  find_parts-slices_from workers i zero h =
      let here : i + 0 ≡ i = omega arith in
      no_parts
      ∙ sym (
          ap some (
            ap
              (λ k.
                places stream needle (length stream * i / workers) (length stream * k / workers))
              here
            ∙ places_none (length stream * i / workers)))
  find_parts-slices_from workers i (suc n) h =
      let same : i + 1 + n ≡ i + suc n = omega arith in
      find_parts_step (length stream * i / workers) (length stream * (i + 1) / workers)
        (slices_from (length stream) workers (i + 1) n) _ _
        (find_range-places head stream needle some_needle (length stream * i / workers)
          (length stream * (i + 1) / workers))
        (find_parts-slices_from workers (i + 1) n h)
      ∙ ap some (
          places_join stream needle (length stream * i / workers)
            (length stream * (i + 1) / workers) (length stream * (i + 1 + n) / workers)
            (cut_le (length stream) workers i (i + 1) h (omega arith))
            (cut_le (length stream) workers (i + 1) (i + 1 + n) h (omega arith)))
      ∙ ap
          (λ k.
            some (places stream needle (length stream * i / workers) (length stream * k / workers)))
          same

  whole_places :
      (workers : ℕ)
      → 0 < workers
      → places stream needle (length stream * 0 / workers) (length stream * (0 + workers) / workers)
        ≡ between (stands_at needle stream) 0 (last_place stream needle)
  unfolding last_place
  whole_places workers h =
      let first : length stream * 0 / workers ≡ 0 =
        omega (arith, div-le_self (length stream * 0) workers) in
      let all : 0 + workers ≡ workers = omega arith in
      let last : length stream * (0 + workers) / workers ≡ length stream =
        ap (λ w. length stream * w / workers) all ∙ mul-div_cancel (length stream) h in
      between_at (stands_at needle stream) (length stream * 0 / workers) 0 _ _ first
        (omega (arith, first, last, some_needle))

  -- The slices together find what one loop finds.
  find_parts-whole :
      (workers : ℕ)
      → 0 < workers
      → find_parts
          (head ++ stream)
          (length head)
          needle
          (slices_from (length stream) workers 0 workers)
        ≡ find_serial stream needle
  find_parts-whole workers h =
      find_parts-slices_from workers 0 workers h
      ∙ ap some (whole_places workers h)
      ∙ sym (find_serial-between stream needle)

-- A cache entry whose file, where it can be read, has the stream behind its header and nothing behind
-- the stream.
abbrev pub HasStream : List ℕ → Option CacheSource → Type 0
HasStream stream none = Unit {0}
HasStream stream (some source) =
    ((source.file ≡ none)
      ⊎ ((head : List ℕ) × (source.file ≡ some (head ++ stream)) × (source.hdr_len ≡ length head)))

not_empty : (needle : List ℕ) → 0 < length needle → is_empty needle ≡ false
not_empty [] h = absurd (omega arith)
not_empty (x ∷ xs) h = refl

module _ (stream needle : List ℕ) (some_needle : 0 < length needle) where
  find_in_slices_serial :
      (source : Option CacheSource) (pool_works : Bool) (workers : ℕ)
      → HasStream stream source
      → 0 < workers
      → find_in_slices stream needle source pool_works
          (slices_from (length stream) workers 0 workers)
        ≡ find_serial stream needle
  unfolding find_in_slices
  find_in_slices_serial none pool_works workers h k = refl
  find_in_slices_serial (some source) false workers h k = refl
  find_in_slices_serial (some source) true workers (inl e) k = rw e
  find_in_slices_serial (some source) true workers (inr (head, e, f)) k =
      rw (e, f) (find_parts-whole head stream needle some_needle workers k)

  find_ranges-slices_from :
      (source : Option CacheSource) (cpus : ℕ) (procs : Option ℕ) (ranges : List (ℕ × ℕ))
      → find_ranges stream source cpus procs ≡ some ranges
      → (workers : ℕ) × (0 < workers) × (ranges ≡ slices_from (length stream) workers 0 workers)
  unfolding find_ranges
  find_ranges-slices_from none cpus procs ranges h = cc
  find_ranges-slices_from (some source) cpus procs ranges h =
      let workers : ℕ = worker_count cpus procs in (workers, ground arith, ground arith)

  -- However many slices there are, and whether they run in a pool, fail in it or are not made at all,
  -- `find_all` finds for a pattern of one byte or more every place of the stream at which it stands,
  -- in order and once each, where the cache entry's file, if it can be read, has the stream behind
  -- its header.
  pub find_all-between :
      (source : Option CacheSource) (cpus : ℕ) (procs : Option ℕ) (pool_works : Bool)
      → HasStream stream source
      → find_all stream needle source cpus procs pool_works
        ≡ some (between (stands_at needle stream) 0 (last_place stream needle))
  unfolding find_all
  find_all-between source cpus procs pool_works h = rw (not_empty needle some_needle) (
      option_cases (λ r. r ≡ some (between (stands_at needle stream) 0 (last_place stream needle)))
        (find_ranges stream source cpus procs) _ _ (λ e. find_serial-between stream needle)
        λ ranges e.
          let (workers, k, same) = find_ranges-slices_from source cpus procs ranges e in
          rw same (
            find_in_slices_serial source pool_works workers h k
            ∙ find_serial-between stream needle))
