-- ===== src/Scan/Serial.antt =====
-- The serial loop against the list of all places.
use rdc_tools.Prelude.{
  ℕ, zero, suc, ◌+◌, ◌-◌, ◌<◌, ◌≡◌, refl, sym, ap, ◌∙◌, arith, none, some, List, [], ◌∷◌, length,
  leb, if◌then◌else◌, Option-cases, inl, inr, gt→leb,
}
use rdc_tools.Scan.{stands_at, find, serial_from, find_serial, range_from}
use rdc_tools.Scan.Places.{between, between_same, between_at}
use rdc_tools.Scan.Slices.{
  in_place, places_found, range_from-none, range_from_hit, range_from-between,
}

-- The places from which the pattern ends within the stream.
unfoldable pub last_place : List ℕ → List ℕ → ℕ
last_place stream needle = length stream + 1 - length needle

module _ (stream needle : List ℕ) where
  serial_from-none : (fuel : ℕ) → serial_from fuel stream needle none ≡ some []
  unfolding serial_from
  serial_from-none zero = refl
  serial_from-none (suc fuel) = refl

  serial_from-some :
      (fuel at : ℕ) (hits : List ℕ)
      → serial_from fuel stream needle (find stream needle (at + 1) (length stream)) ≡ some hits
      → serial_from (suc fuel) stream needle (some at) ≡ some (at ∷ hits)
  unfolding serial_from
  serial_from-some fuel at hits e = rw (serial_from, e)

  shown : (k : ℕ) (hits : List ℕ) → (if leb 0 (k - 0) then (k - 0) ∷ hits else hits) ≡ k ∷ hits
  shown k hits = ground arith

  in_whole :
      (i : ℕ)
      → i < length stream + 1
      → in_place stream 0 0 (length stream + 1) needle (length stream) i ≡ stands_at needle stream i
  unfolding in_place
  in_whole i h =
      let same : 0 + i ≡ i = omega arith in ground (arith, ap (stands_at needle stream) same)

  -- The serial loop is that of one slice that is the whole stream.
  serial_from-range_from :
      (fuel at : ℕ)
      → length stream + 1 - length needle - at < fuel
      → serial_from fuel stream needle (find stream needle at (length stream))
        ≡ range_from fuel stream 0 0
            (length stream + 1)
            needle
            (length stream)
            (find stream needle at (length stream))
  serial_from-range_from zero at h = absurd (omega arith)
  serial_from-range_from (suc fuel) at h =
      elim (Option-cases (find stream needle at (length stream))) [
        | inl e ↦ rw e (
            serial_from-none (suc fuel)
            ∙ sym
                (range_from-none stream 0 0 (length stream + 1) needle (length stream) (suc fuel)))
        | inr (k, e) ↦
            let (x, y, t, places) =
              places_found stream 0 0 (length stream + 1) needle (length stream) at k (omega arith)
                e in
            let hits : List ℕ =
              between (in_place stream 0 0 (length stream + 1) needle (length stream)) (k + 1 - 0)
                (length stream + 1 - length needle - (k + 1)) in
            let rest =
              range_from-between stream 0 0 (length stream + 1) needle (length stream) fuel (k + 1)
                (omega arith) (omega arith) in
            rw e (
              serial_from-some fuel k hits
                (serial_from-range_from fuel (k + 1) (omega arith) ∙ rest)
              ∙ sym (
                  range_from_hit stream 0 0 (length stream + 1) needle (length stream) fuel k hits
                    (gt→leb _ _ (omega arith)) rest
                  ∙ ap some (shown k hits)))
      ]

  -- `_find_serial` finds every place at which the pattern stands, in order.
  pub find_serial-between :
      find_serial stream needle
      ≡ some (between (stands_at needle stream) 0 (last_place stream needle))
  unfolding find_serial last_place
  find_serial-between =
      serial_from-range_from (length stream + 2) 0 (omega arith)
      ∙ range_from-between stream 0 0 (length stream + 1) needle (length stream) (length stream + 2)
          0 (omega arith) (omega arith)
      ∙ ap some (
          between_at (in_place stream 0 0 (length stream + 1) needle (length stream)) (0 - 0) 0
            (length stream + 1 - length needle - 0) (length stream + 1 - length needle)
            (omega arith) (omega arith)
          ∙ between_same (in_place stream 0 0 (length stream + 1) needle (length stream))
              (stands_at needle stream) 0 (length stream + 1 - length needle)
              (λ i a b. in_whole i (omega arith)))
