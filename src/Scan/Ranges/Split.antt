-- ===== src/Scan/Ranges/Split.antt =====
-- The ranges of the string scan: they cover the stream, and no run of text crosses a cut.
use rdc_tools.Prelude.{
  ℕ, zero, suc, ◌+◌, ◌-◌, ◌/◌, ◌≤◌, ◌<◌, ◌≡◌, refl, arith, true, some, List, [], ◌∷◌, length, ltb,
  ◌||◌, ◌==◌, max, min, ◌⊎◌, if_cases, option_cases, inl, inr,
}
use rdc_tools.Scan.{search}
use rdc_tools.Scan.Places.{search-some}
use rdc_tools.Scan.Ranges.{can_cut, safe_cut, next_cut, ranges_from, split_ranges}

-- Ranges from `start` to the stream's end, each behind the one before it and not empty but for the
-- last, with a byte that is not printable where one starts behind another.
abbrev pub Covers : List ℕ → ℕ → List (ℕ × ℕ) → Type 0
Covers stream start [] = ⊥
Covers stream start ((a, b) ∷ rest) =
    (a ≡ start)
    × (((b ≡ length stream) × (rest ≡ []))
        ⊎ ((start < b) × (b < length stream) × (can_cut stream b ≡ true) × Covers stream b rest))

next_cut_inside :
    (stream : List ℕ) (step start cut : ℕ)
    → 0 < step
    → next_cut stream step start ≡ some cut
    → (start < cut) × (cut < length stream) × (can_cut stream cut ≡ true)
unfolding next_cut safe_cut
next_cut_inside stream step start cut pos h =
    let at : ℕ = min (length stream) (start + step) in
    let found : search (can_cut stream) at (min (length stream) (at + 0x400000) - at) ≡ some cut =
      ground arith in
    let (a, b, c, d) = search-some (can_cut stream) at _ {k = cut} found in
    (ground (arith, a), ground (arith, b), c)

ranges_from-Covers :
    (stream : List ℕ) (step more start : ℕ)
    → 0 < step
    → Covers stream start (ranges_from stream step more start)
      × (length (ranges_from stream step more start) ≤ more + 1)
unfolding ranges_from
ranges_from-Covers stream step zero start pos = ((refl, inl (refl, refl)), omega arith)
ranges_from-Covers stream step (suc more) start pos =
    option_cases (λ rs. Covers stream start rs × (length rs ≤ suc more + 1))
      (next_cut stream step start) _ _ (λ e. ((refl, inl (refl, refl)), omega arith))
      λ cut e.
        let (a, b, c) = next_cut_inside stream step start cut pos e in
        let (d, f) = ranges_from-Covers stream step more cut pos in
        ((refl, inr (a, b, c, d)), omega (arith, f))

-- The ranges cover the stream from its start to its end, one behind the other; a byte that is not
-- printable stands at the start of each but the first; and there are as many as were asked for at
-- most, or one.
pub split_ranges-Covers :
    (stream : List ℕ) (want : ℕ)
    → Covers stream 0 (split_ranges stream want) × (length (split_ranges stream want) ≤ max 1 want)
unfolding split_ranges
split_ranges-Covers stream want =
    if_cases (λ rs. Covers stream 0 rs × (length rs ≤ max 1 want))
      (ltb want 2 || length stream == 0) _ _ (λ e. ((refl, inl (refl, refl)), omega arith))
      λ e.
        let (a, b) =
          ranges_from-Covers stream (max 1 (length stream / want)) (want - 1) 0 (omega arith) in
        (a, ground (arith, b))
