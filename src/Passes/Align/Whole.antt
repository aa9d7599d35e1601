-- ===== src/Passes/Align/Whole.antt =====
-- The alignment of two lists of passes, as a whole.
use rdc_tools.Prelude.{
  ℕ, ◌+◌, ◌<◌, ◌≡◌, refl, ◌∙◌, arith, Option, none, some, List, [], ◌∷◌, ◌++◌, length, ◌>>=◌,
}
use rdc_tools.Passes.Markers.{MarkerPass}
use rdc_tools.Passes.Align.{
  Pair, PassRow, rows_from, added_from, rename_from, added_rows, pairs_of, align_passes,
}
use rdc_tools.Passes.Align.Pairs.{IsMatching, pairs_of-IsMatching}
use rdc_tools.Passes.Align.Places.{
  hits, a_places, count_up, ArePlaced, partner_hits_lem, rows_from-ArePlaced,
}
use rdc_tools.Passes.Align.Additions.{a_places-append, added_hits, added_from-AreAscending}
use rdc_tools.Passes.Align.Renames.{AreRenamed, rename_from-AreRenamed}

hits-append : (j : ℕ) (xs ys : List PassRow) → hits j (xs ++ ys) ≡ hits j xs + hits j ys
unfolding hits
hits-append j [] ys = omega arith
hits-append j (x ∷ xs) ys = omega (arith, hits-append j xs ys)

-- The rows behind the rename, with the additions that are left.
IsAligned : ℕ → ℕ → Option (List PassRow) → Type 0
IsAligned n m none = ⊥
IsAligned n m (some rows) = (a_places rows ≡ count_up 0 n) × ((j : ℕ) → j < m → hits j rows ≡ 1)

finish_rows :
    (ps : List Pair) (n : ℕ) (b : List MarkerPass) (rows : Option (List PassRow))
    → IsMatching n (length b) ps
    → ArePlaced ps 0 n rows
    → IsAligned n (length b) (
        rows >>= λ rows.
        let (renames, consumed) = rename_from (added_from ps 0 b) rows [] in
        some (renames ++ added_rows (added_from ps 0 b) consumed))
unfolding ArePlaced IsAligned AreRenamed
finish_rows ps n b none ok p = absurd p
finish_rows ps n b (some rows) ok (pa, ph, pf) =
    let additions = added_from ps 0 b in
    let (ra, rh) = rename_from-AreRenamed additions rows [] 0 (added_from-AreAscending ps 0 b) pf in
    (
      a_places-append (rename_from additions rows []).0 additions _ ∙ ra ∙ pa,
      λ j h.
          let whole =
            hits-append j (rename_from additions rows []).0
              (added_rows additions (rename_from additions rows []).1) in
          let free = added_hits ps 0 b j in
          let taken = partner_hits_lem ps n (length b) j ok in
          whole ∙ rh j ∙ rw (ph j, taken, free) (ground (arith, h)),
    )

aligned :
    (n m : ℕ) (o : Option (List PassRow))
    → IsAligned n m o
    → (rows : List PassRow) × (o ≡ some rows)
      × (a_places rows ≡ count_up 0 n)
      × ((j : ℕ) → j < m → hits j rows ≡ 1)
unfolding IsAligned
aligned n m none h = absurd h
aligned n m (some rows) (p, q) = (rows, refl, p, q)

-- Two lists of passes are aligned, and each pass is in one row: those of A in order, and those of B
-- once each.
pub align_passes_total :
    (a b : List MarkerPass)
    → (rows : List PassRow) × (align_passes a b ≡ some rows)
      × (a_places rows ≡ count_up 0 (length a))
      × ((j : ℕ) → j < length b → hits j rows ≡ 1)
unfolding align_passes
align_passes_total a b = aligned (length a) (length b) (align_passes a b) (
    finish_rows (pairs_of a b) (length a) b (rows_from b (pairs_of a b) 0 a)
      (pairs_of-IsMatching a b)
      (rows_from-ArePlaced b (pairs_of a b) (length a) 0 a (pairs_of-IsMatching a b)))
