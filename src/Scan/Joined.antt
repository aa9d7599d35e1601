-- ===== src/Scan/Joined.antt =====
-- One slice of a stream that stands in a file, and slices that follow one another.
use rdc_tools.Prelude.{
  ℕ, suc, ◌+◌, ◌-◌, ◌≤◌, ◌<◌, ◌≡◌, refl, sym, ap, ◌∙◌, arith, Bool, false, some, List, [], ◌∷◌,
  ◌++◌, append-nil, length, length-append, drop, leb, min, Bool-cases, inl, inr,
}
use rdc_tools.Scan.{is_prefix, stands_at, find_range}
use rdc_tools.Scan.Places.{
  between, between_at, between_none, between_skip, between_append, between_same,
}
use rdc_tools.Scan.Serial.{last_place}
use rdc_tools.Scan.Slices.{in_place, range_from-between}

drop-past : (head xs : List ℕ) (j : ℕ) → drop (length head + j) (head ++ xs) ≡ drop j xs
drop-past [] xs j = let e : 0 + j ≡ j = omega arith in ap (λ i. drop i xs) e
drop-past (h ∷ head) xs j =
    let e : suc (length head) + j ≡ suc (length head + j) = omega arith in
    ap (λ i. drop i (h ∷ (head ++ xs))) e ∙ drop-past head xs j

-- The places of a slice.
abbrev pub places : List ℕ → List ℕ → ℕ → ℕ → List ℕ
places stream needle start end =
    between (stands_at needle stream) start (min end (last_place stream needle) - start)

pub places_join :
    (stream needle : List ℕ) (a b c : ℕ)
    → a ≤ b
    → b ≤ c
    → places stream needle a b ++ places stream needle b c ≡ places stream needle a c
places_join stream needle a b c h k =
    let p : ℕ → Bool = stands_at needle stream in
    let t : ℕ = last_place stream needle in
    elim (Bool-cases (leb b t)) [
      | inl e ↦
          let at_b : b ≡ a + (min b t - a) = ground arith in
          ap (λ i. between p a (min b t - a) ++ between p i (min c t - b)) at_b
          ∙ sym (between_append p a (min b t - a) (min c t - b))
          ∙ between_at p a a _ (min c t - a) refl (ground arith)
      | inr e ↦
          let no_more : min c t - b ≡ 0 = ground arith in
          ap (λ l. between p a (min b t - a) ++ l)
            (between_none p b (min c t - b) (λ i x y. absurd (omega arith)))
          ∙ append-nil (between p a (min b t - a))
          ∙ between_at p a a _ _ refl (ground arith)
    ]

module _ (head stream needle : List ℕ) (some_needle : 0 < length needle) where
  abbrev base : ℕ
  base = length head

  stands_at-past :
      (j : ℕ) → stands_at needle (head ++ stream) (length head + j) ≡ stands_at needle stream j
  unfolding stands_at
  stands_at-past j = ap (is_prefix needle) (drop-past head stream j)

  slice_limit : ℕ → ℕ
  slice_limit end = min (length (head ++ stream)) (length head + end + length needle - 1)

  slice_start : ℕ → ℕ
  slice_start start = length head + (start - (length needle - 1))

  slice_test : ℕ → ℕ → ℕ → Bool
  slice_test start end = in_place (head ++ stream) (length head) start end needle (slice_limit end)

  before_start : (start end j : ℕ) → j < start → slice_test start end j ≡ false
  unfolding slice_test in_place
  before_start start end j h = ground arith

  in_stream :
      (start end j : ℕ) → start ≤ j → j < end → slice_test start end j ≡ stands_at needle stream j
  unfolding slice_test in_place
  in_stream start end j a b = ground (arith, stands_at-past j)

  slice_places :
      (start end : ℕ)
      → between
          (slice_test start end)
          (slice_start start - length head)
          (slice_limit end + 1 - length needle - slice_start start)
        ≡ places stream needle start end
  unfolding slice_limit slice_start last_place
  slice_places start end =
      let t : ℕ = length stream + 1 - length needle in
      let early : ℕ = start - (length needle - 1) in
      let size = length-append head stream in
      elim (Bool-cases (leb (min end t) start)) [
        | inl e ↦
            between_none (slice_test start end) _ _
              (λ i a b. before_start start end i (ground (arith, size)))
            ∙ sym (
                between_none (stands_at needle stream) start (min end t - start)
                  (λ i a b. absurd (ground (arith, e))))
        | inr e ↦
            between_at (slice_test start end) _ early _ (start - early + (min end t - start))
              (omega arith) (ground (arith, size))
            ∙ between_skip (slice_test start end) early (start - early) _
                (λ i a b. before_start start end i (omega arith))
            ∙ between_at (slice_test start end) _ start _ _ (omega arith) refl
            ∙ between_same (slice_test start end) (stands_at needle stream) start
                (min end t - start) (λ i a b. in_stream start end i a (omega arith))
      ]

  pub find_range-places :
      (start end : ℕ)
      → find_range (head ++ stream) (length head) start end needle
        ≡ some (places stream needle start end)
  unfolding find_range slice_limit slice_start slice_test
  find_range-places start end =
      let limit : ℕ = min (length (head ++ stream)) (length head + end + length needle - 1) in
      let at : ℕ = length head + (start - (length needle - 1)) in
      range_from-between (head ++ stream) (length head) start end needle limit
        (length (head ++ stream) + 2) at (omega arith) (omega arith)
      ∙ ap some (slice_places start end)
