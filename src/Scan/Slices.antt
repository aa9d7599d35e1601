-- ===== src/Scan/Slices.antt =====
-- The loop of one slice, and the places of the slices together.
use rdc_tools.Prelude.{
  ℕ, zero, suc, ◌+◌, ◌-◌, ◌≤◌, ◌<◌, ◌≡◌, refl, sym, ap, ◌∙◌, arith, Bool, true, false, none, some,
  List, [], ◌∷◌, ◌&&◌, length, leb, ltb, if◌then◌else◌, Bool-cases, Option-cases, inl, inr,
}
use rdc_tools.Scan.{stands_at, find, range_from}
use rdc_tools.Scan.Places.{
  between, search-none, search-some, between_at, between_hit, between_miss, between_none,
  between_skip,
}

-- The pattern stands at a place of the slice, in a buffer whose stream starts at `base`.
abbrev pub in_slice : List ℕ → List ℕ → ℕ → ℕ → ℕ → ℕ → Bool
in_slice mapped needle base start end j =
    leb start j && (ltb j end && stands_at needle mapped (base + j))

and_false : (a b : Bool) → b ≡ false → (a && b) ≡ false
and_false true b h = h
and_false false b h = refl

module _ (mapped : List ℕ) (base start end : ℕ) (needle : List ℕ) (limit : ℕ) where
  unfoldable pub in_place : ℕ → Bool
  in_place = in_slice mapped needle base start end

  pub not_in_place : (j : ℕ) → stands_at needle mapped (base + j) ≡ false → in_place j ≡ false
  unfolding in_place
  not_in_place j h = and_false (leb start j) _ (and_false (ltb j end) _ h)

  pub past_end : (j : ℕ) → end ≤ j → in_place j ≡ false
  unfolding in_place
  past_end j h = ground arith

  module _ (fuel at : ℕ) where
    range_from_end :
        leb end (at - base) ≡ true
        → range_from (suc fuel) mapped base start end needle limit (some at) ≡ some []
    unfolding range_from
    range_from_end e = rw e

    pub range_from_hit :
        (hits : List ℕ)
        → leb end (at - base) ≡ false
        → range_from fuel mapped base start end needle limit (find mapped needle (at + 1) limit)
          ≡ some hits
        → range_from (suc fuel) mapped base start end needle limit (some at)
          ≡ some (if leb start (at - base) then (at - base) ∷ hits else hits)
    unfolding range_from
    range_from_hit hits e f = rw e (rw f)

  pub range_from-none :
      (fuel : ℕ) → range_from fuel mapped base start end needle limit none ≡ some []
  unfolding range_from
  range_from-none zero = refl
  range_from-none (suc fuel) = refl

  places_none :
      (at : ℕ)
      → base ≤ at
      → find mapped needle at limit ≡ none
      → between in_place (at - base) (limit + 1 - length needle - at) ≡ []
  unfolding find
  places_none at b e = between_none in_place (at - base) (limit + 1 - length needle - at) λ i x y.
      not_in_place i (
        search-none (stands_at needle mapped) at (limit + 1 - length needle - at) e (base + i)
          (omega arith) (omega arith))

  -- The first place found, and the places from there on.
  pub places_found :
      (at k : ℕ)
      → base ≤ at
      → find mapped needle at limit ≡ some k
      → (at ≤ k)
        × (k < at + (limit + 1 - length needle - at))
        × (stands_at needle mapped k ≡ true)
        × (between in_place (at - base) (limit + 1 - length needle - at)
            ≡ between in_place (k - base) (suc (limit + 1 - length needle - (k + 1))))
  unfolding find
  places_found at k b e =
      let count : ℕ = limit + 1 - length needle - at in
      let (x, y, t, before) = search-some (stands_at needle mapped) at count {k = k} e in
      (
        x,
        y,
        t,
        between_at in_place (at - base) (at - base) count
              (k - at + suc (limit + 1 - length needle - (k + 1))) refl (omega arith)
            ∙ between_skip in_place (at - base) (k - at) _
                (λ i u v. not_in_place i (before (base + i) (omega arith) (omega arith)))
            ∙ between_at in_place _ _ _ _ (omega arith) refl,
      )

  place_taken :
      (k rest : ℕ)
      → base ≤ k
      → stands_at needle mapped k ≡ true
      → leb end (k - base) ≡ false
      → (if leb start (k - base)
          then (k - base) ∷ between in_place (k + 1 - base) rest
          else between in_place (k + 1 - base) rest)
        ≡ between in_place (k - base) (suc rest)
  unfolding in_place
  place_taken k rest b t f =
      let back : base + (k - base) ≡ k = omega arith in
      let next = between_at in_place (k + 1 - base) (k - base + 1) rest rest (omega arith) refl in
      elim (Bool-cases (leb start (k - base))) [
        | inl e ↦
            rw (e, next)
              (sym (
                between_hit in_place (k - base) rest
                  (ground (arith, ap (stands_at needle mapped) back))))
        | inr e ↦ rw (e, next) (sym (between_miss in_place (k - base) rest (ground (arith, e))))
      ]

  pub range_from-between :
      (fuel at : ℕ)
      → limit + 1 - length needle - at < fuel
      → base ≤ at
      → range_from fuel mapped base start end needle limit (find mapped needle at limit)
        ≡ some (between in_place (at - base) (limit + 1 - length needle - at))
  range_from-between zero at h b = absurd (omega arith)
  range_from-between (suc fuel) at h b = elim (Option-cases (find mapped needle at limit)) [
    | inl e ↦ rw e (range_from-none (suc fuel) ∙ ap some (sym (places_none at b e)))
    | inr (k, e) ↦
        let (x, y, t, places) = places_found at k b e in
        let b' : base ≤ k = omega arith in
        let rest : ℕ = limit + 1 - length needle - (k + 1) in
        let ih : range_from fuel mapped base start end needle limit
              (find mapped needle (k + 1) limit)
            ≡ some (between in_place (k + 1 - base) rest) =
          range_from-between fuel (k + 1) (omega arith) (omega arith) in
        rw (e, places)
          (elim (Bool-cases (leb end (k - base))) [
            | inl f ↦
                range_from_end fuel k f
                ∙ ap some (
                    sym (
                      between_none in_place (k - base) (suc rest)
                        (λ i u v. past_end i (ground arith))))
            | inr f ↦
                range_from_hit fuel k (between in_place (k + 1 - base) rest) f ih
                ∙ ap some (place_taken k rest b' t f)
          ])
  ]
