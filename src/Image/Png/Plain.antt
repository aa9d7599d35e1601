-- ===== src/Image/Png/Plain.antt =====
-- The rows that `encode_png` writes: each behind filter type 0.
use mathlib.Core.Path.{subst}
use rdc_tools.Prelude.{
  ℕ, zero, suc, ◌+◌, ◌*◌, ◌≡◌, refl, ap, arith, List, [], ◌∷◌, ◌++◌, length, length-append,
  length-take, length-drop, take, drop, replicate, length-replicate,
}
use rdc_tools.Image.Png.{plain_rows}
use rdc_tools.Image.Png.Filter.{rows, unfilter_rows}
use rdc_tools.Image.Png.Filter.Inverse.{
  AreBytes, AreBytes-take, AreBytes-drop, RowFilter, plain, filter_line, filter_rows,
  unfilter_rows-filter_rows,
}

-- A row that is written as it is, is a row with filter 0.
plain_line :
    (channels : ℕ) (previous done xs : List ℕ)
    → AreBytes xs
    → filter_line plain channels previous done xs ≡ xs
unfolding filter_line
plain_line channels previous done [] a = refl
plain_line channels previous done (x ∷ xs) (a, as') =
    rw (plain_line channels previous (done ++ x ∷ []) xs as') (ap (λ b. b ∷ xs) (omega arith))

plain_rows-filter_rows :
    (channels stride height : ℕ) (previous rgba : List ℕ)
    → AreBytes rgba
    → plain_rows stride height rgba
      ≡ filter_rows channels stride (replicate height plain) previous rgba
unfolding plain_rows filter_rows
plain_rows-filter_rows channels stride zero previous rgba a = refl
plain_rows-filter_rows channels stride (suc height) previous rgba a = rw (
  plain_line channels previous [] (take stride rgba) (AreBytes-take stride rgba a),
  plain_rows-filter_rows channels stride height (take stride rgba) (drop stride rgba)
      (AreBytes-drop stride rgba a),
)

pub length-plain_rows :
    (stride height : ℕ) (rgba : List ℕ)
    → length rgba ≡ height * stride
    → length (plain_rows stride height rgba) ≡ height * (stride + 1)
unfolding plain_rows
length-plain_rows stride zero rgba h = omega arith
length-plain_rows stride (suc height) rgba h = omega (
  arith,
  length-append (take stride rgba) (plain_rows stride height (drop stride rgba)),
  length-take stride rgba,
  length-plain_rows stride height (drop stride rgba) (omega (arith, length-drop stride rgba)),
)

pub unfilter_rows-plain_rows :
    (channels stride height : ℕ) (previous rgba : List ℕ)
    → AreBytes previous
    → AreBytes rgba
    → length rgba ≡ height * stride
    → unfilter_rows channels stride height 0 previous (plain_rows stride height rgba) ≡ rows rgba
unfilter_rows-plain_rows channels stride height previous rgba p a h =
    rw (plain_rows-filter_rows channels stride height previous rgba a) (
      subst
        (λ n.
          unfilter_rows channels stride n 0 previous
            (filter_rows channels stride (replicate height plain) previous rgba)
          ≡ rows rgba)
        (length-replicate {A = RowFilter} height plain)
        (unfilter_rows-filter_rows channels stride (replicate height plain) 0 previous rgba p a
          (rw (length-replicate {A = RowFilter} height plain) h)))
