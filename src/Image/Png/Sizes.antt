-- ===== src/Image/Png/Sizes.antt =====
-- The sizes of unfiltered rows, and of their pixels as RGBA.
use mathlib.Core.Path.{subst}
use rdc_tools.Prelude.{
  ℕ, zero, suc, ◌+◌, ◌*◌, ◌%◌, ◌≤◌, ◌≡◌, refl, ap, ◌∙◌, arith, List, [], ◌∷◌, ◌++◌, length,
  length-append, length-take, length-drop, take, drop, get_or, Bool-cases, some, ◌==◌, ltb,
  if_cases, inl, inr,
}
use rdc_tools.Image.Png.{channels_of, rgb_to_rgba, grey_alpha_to_rgba, grey_to_rgba, to_rgba}
use rdc_tools.Image.Png.Filter.{
  Unfiltered, rows, bad_filter, no_row, behind_row, predicted, neighbour, unfilter_line,
  unfilter_rows,
}

length-unfilter_line :
    (kind channels : ℕ) (previous done xs : List ℕ)
    → length (unfilter_line kind channels previous done xs) ≡ length done + length xs
unfolding unfilter_line
length-unfilter_line kind channels previous done [] = omega arith
length-unfilter_line kind channels previous done (x ∷ xs) =
    let i : ℕ = length done in
    let b : ℕ =
      (x
        + predicted kind (neighbour done channels i) (get_or previous i 0)
            (neighbour previous channels i))
      % 256 in
    omega (
      arith,
      length-unfilter_line kind channels previous (done ++ b ∷ []) xs,
      length-append done (b ∷ []),
    )

-- Rows of a known size, or a filter type that is not defined.
abbrev pub AreRows : ℕ → Unfiltered → Type 0
AreRows size (rows bytes) = length bytes ≡ size
AreRows size (bad_filter y kind) = Unit {0}
AreRows size no_row = ⊥

behind_row-AreRows :
    (line : List ℕ) (size : ℕ) (r : Unfiltered)
    → AreRows size r
    → AreRows (length line + size) (behind_row line r)
behind_row-AreRows line size (rows bytes) h = omega (arith, length-append line bytes)
behind_row-AreRows line size (bad_filter y kind) h = tt
behind_row-AreRows line size no_row h = elim h [ ]

pub unfilter_rows-AreRows :
    (channels stride height y : ℕ) (previous raw : List ℕ)
    → height * (stride + 1) ≤ length raw
    → AreRows (height * stride) (unfilter_rows channels stride height y previous raw)
unfolding unfilter_rows
unfilter_rows-AreRows channels stride zero y previous raw h = omega arith
unfilter_rows-AreRows channels stride (suc height) y previous [] h = absurd (omega arith)
unfilter_rows-AreRows channels stride (suc height) y previous (kind ∷ raw) h =
    let line : List ℕ = unfilter_line kind channels previous [] (take stride raw) in
    if_cases (AreRows (suc height * stride)) (ltb 4 kind) _ _ (λ e. tt)
      λ e.
        subst
          (λ n.
            AreRows n (
              behind_row line
                (unfilter_rows channels stride height (y + 1) line (drop stride raw))))
          (omega (
            arith,
            length-unfilter_line kind channels previous [] (take stride raw),
            length-take stride raw,
          ))
          (behind_row-AreRows line (height * stride) _ (
            unfilter_rows-AreRows channels stride height (y + 1) line (drop stride raw)
              (omega (arith, length-drop stride raw))))

length-rgb_to_rgba : (n : ℕ) (xs : List ℕ) → length xs ≡ n * 3 → length (rgb_to_rgba xs) ≡ n * 4
unfolding rgb_to_rgba
length-rgb_to_rgba zero [] h = omega arith
length-rgb_to_rgba zero (x ∷ xs) h = absurd (omega arith)
length-rgb_to_rgba (suc n) (r ∷ g ∷ b ∷ xs) h = omega (arith, length-rgb_to_rgba n xs (omega arith))
length-rgb_to_rgba (suc n) _ h = absurd (omega arith)

length-grey_alpha_to_rgba :
    (n : ℕ) (xs : List ℕ) → length xs ≡ n * 2 → length (grey_alpha_to_rgba xs) ≡ n * 4
unfolding grey_alpha_to_rgba
length-grey_alpha_to_rgba zero [] h = omega arith
length-grey_alpha_to_rgba zero (x ∷ xs) h = absurd (omega arith)
length-grey_alpha_to_rgba (suc n) (v ∷ a ∷ xs) h =
    omega (arith, length-grey_alpha_to_rgba n xs (omega arith))
length-grey_alpha_to_rgba (suc n) _ h = absurd (omega arith)

length-grey_to_rgba : (xs : List ℕ) → length (grey_to_rgba xs) ≡ length xs * 4
unfolding grey_to_rgba
length-grey_to_rgba [] = refl
length-grey_to_rgba (x ∷ xs) = omega (arith, length-grey_to_rgba xs)

-- Whatever the colour type, four bytes a pixel.
pub length-to_rgba :
    (n colour channels : ℕ) (xs : List ℕ)
    → channels_of colour ≡ some channels
    → length xs ≡ n * channels
    → length (to_rgba colour xs) ≡ n * 4
unfolding to_rgba channels_of
length-to_rgba n colour channels xs c h = elim (Bool-cases (colour == 6)) [
  | inl e ↦ ground (arith, e, six (ground (arith, c, e)))
  | inr e ↦ elim (Bool-cases (colour == 2)) [
    | inl f ↦ ground (arith, e, f, two (ground (arith, c, e, f)))
    | inr f ↦ elim (Bool-cases (colour == 4)) [
      | inl g ↦ ground (arith, e, f, g, four (ground (arith, c, e, f, g)))
      | inr g ↦ ground (arith, e, f, g, one (ground (arith, c, e, f, g)))
    ]
  ]
]
  where
    six : channels ≡ 4 → length xs ≡ n * 4
    six e = h ∙ ap (λ k. n * k) e

    two : channels ≡ 3 → length (rgb_to_rgba xs) ≡ n * 4
    two e = length-rgb_to_rgba n xs (h ∙ ap (λ k. n * k) e)

    four : channels ≡ 2 → length (grey_alpha_to_rgba xs) ≡ n * 4
    four e = length-grey_alpha_to_rgba n xs (h ∙ ap (λ k. n * k) e)

    one : channels ≡ 1 → length (grey_to_rgba xs) ≡ n * 4
    one e = omega (arith, length-grey_to_rgba xs, h ∙ ap (λ k. n * k) e)
