-- ===== src/Passes/Align/Matched.antt =====
-- What a row says of its two passes.
use mathlib.Core.Option
use mathlib.Core.Option.{some_inj}
use rdc_tools.Prelude.{
  All, ℕ, zero, suc, ◌≡◌, refl, sym, ap, ◌∙◌, arith, inl, inr, Bool, true, Option, none, some, List,
  [], ◌∷◌, ◌++◌, get_elem?, ◌==◌, codes, Bool-cases, option_cases, if_cases, ◌>>=◌,
}
use rdc_tools.Uses.{find}
use rdc_tools.Passes.Markers.{MarkerPass}
use rdc_tools.Passes.Paths.{leaf, parent}
use rdc_tools.Passes.Align.{
  Pair, leaf_keys, pairs_of, PassRow, RowStatus, same, added, removed, renamed, row_of, rows_from,
  added_from, is_among, is_renamed, candidate, rename_row, rename_from, added_rows, align_passes,
}
use rdc_tools.Passes.Align.Alike.{
  bytes_eq_sound, suffix_head, suffix_tail, whole_suffix, IsSuffix, SameKey, pairs_of-SameKey,
}
use rdc_tools.Passes.Align.Whole.{align_passes_total}

-- A row's sides are those of its status, passes that are the same have one innermost name, and those
-- of a rename one parent and as many calls.
abbrev pub RowSays : RowStatus → Option MarkerPass → Option MarkerPass → Type 0
RowSays same (some x) (some y) = leaf (codes x.path) ≡ leaf (codes y.path)
RowSays renamed (some x) (some y) =
    (parent (codes y.path) ≡ parent (codes x.path)) × (y.calls ≡ x.calls)
RowSays added none (some y) = Unit
RowSays removed (some x) none = Unit
RowSays _ _ _ = ⊥

abbrev pub IsMatched : PassRow → Type 0
IsMatched row = RowSays row.status row.a row.b

found-All {ℓ κ} :
    {A : Type ℓ} (P : A → Type κ) (q : A → Bool) (xs : List A) (x : A)
    → All P xs
    → find q xs ≡ some x
    → P x × (q x ≡ true)
unfolding find
found-All P q [] x a e = cc
found-All P q (y ∷ ys) x (p, a) e = elim (Bool-cases (q y)) [
  | inl t ↦ let here = some_inj.0 (rw t at e) in rw (sym here) (p, t)
  | inr f ↦ found-All P q ys x a (rw f at e)
]

leaf_at :
    (passes : List MarkerPass) (i : ℕ)
    → get_elem? (leaf_keys passes) i ≡ Option.map (λ p. leaf (codes p.path)) (get_elem? passes i)
leaf_at [] i = refl
leaf_at (p ∷ passes) zero = refl
leaf_at (p ∷ passes) (suc i) = leaf_at passes i

unfoldable AllMatched : Option (List PassRow) → Type 0
AllMatched none = Unit
AllMatched (some rows) = All IsMatched rows

unfoldable RowMatched : Option PassRow → Type 0
RowMatched none = Unit
RowMatched (some row) = IsMatched row

row_of-RowMatched :
    (a b : List MarkerPass) (ps : List Pair) (i : ℕ) (entry : MarkerPass)
    → All (SameKey (leaf_keys a) (leaf_keys b)) ps
    → get_elem? (leaf_keys a) i ≡ some (leaf (codes entry.path))
    → RowMatched (row_of b ps i entry)
unfolding row_of RowMatched
row_of-RowMatched a b ps i entry ok h =
    option_cases RowMatched (find (λ p. p.a_index == i) ps) _ _ (λ e. tt)
      (λ p e.
        option_cases RowMatched (get_elem? b p.b_index) _ _ (λ n. tt)
          (λ other f.
            let (alike, t) =
              found-All (SameKey (leaf_keys a) (leaf_keys b)) (λ p. p.a_index == i) ps p ok e in
            let here : p.a_index ≡ i = ground (arith, t) in
            some_inj.0 (
              sym h
              ∙ ap (get_elem? (leaf_keys a)) (sym here)
              ∙ alike
              ∙ leaf_at b p.b_index
              ∙ ap (Option.map (λ p. leaf (codes p.path))) f)))

both_matched :
    (row : Option PassRow) (rows : Option (List PassRow))
    → RowMatched row
    → AllMatched rows
    → AllMatched (row >>= λ r. rows >>= λ rs. some (r ∷ rs))
unfolding RowMatched AllMatched
both_matched none rows r h = tt
both_matched (some row) none r h = tt
both_matched (some row) (some rows) r h = (r, h)

rows_from-AllMatched :
    (all b : List MarkerPass) (ps : List Pair) (a : List MarkerPass) (s : ℕ)
    → All (SameKey (leaf_keys all) (leaf_keys b)) ps
    → IsSuffix (leaf_keys all) s (leaf_keys a)
    → AllMatched (rows_from b ps s a)
unfolding rows_from
rows_from-AllMatched all b ps [] s ok h = unfold AllMatched in tt
rows_from-AllMatched all b ps (entry ∷ a) s ok h =
    both_matched (row_of b ps s entry) (rows_from b ps (suc s) a)
      (row_of-RowMatched all b ps s entry ok (suffix_head (leaf_keys all) s _ (leaf_keys a) h))
      (rows_from-AllMatched all b ps a (suc s) ok (suffix_tail (leaf_keys all) s _ (leaf_keys a) h))

rename_row-IsMatched :
    (additions : List (ℕ × MarkerPass)) (row : PassRow) (consumed : List ℕ)
    → IsMatched row
    → IsMatched (rename_row additions row consumed).0
unfolding rename_row
rename_row-IsMatched additions row consumed h =
    option_cases (λ (r, c). IsMatched r) (candidate additions consumed row) _ _ (λ e. h)
      (λ (i, entry, other) e.
        if_cases (λ (r, c). IsMatched r) (is_renamed entry other) _ _
          (λ t. (
            bytes_eq_sound (parent (codes other.path)) (parent (codes entry.path))
                (ground (arith, t)),
            ground (arith, t),
          ))
          (λ f. h))

rename_from-AllMatched :
    (additions : List (ℕ × MarkerPass)) (rows : List PassRow) (consumed : List ℕ)
    → All IsMatched rows
    → All IsMatched (rename_from additions rows consumed).0
unfolding rename_from
rename_from-AllMatched additions [] consumed h = tt
rename_from-AllMatched additions (row ∷ rows) consumed (h, hs) = (
  rename_row-IsMatched additions row consumed h,
  rename_from-AllMatched additions rows (rename_row additions row consumed).1 hs,
)

added_rows-AllMatched :
    (additions : List (ℕ × MarkerPass)) (consumed : List ℕ)
    → All IsMatched (added_rows additions consumed)
unfolding added_rows
added_rows-AllMatched [] consumed = tt
added_rows-AllMatched ((j, entry) ∷ additions) consumed =
    let ih = added_rows-AllMatched additions consumed in
    if_cases (All IsMatched) (is_among j consumed) _ _ (λ t. ih) (λ f. (tt, ih))

append-AllMatched :
    (xs ys : List PassRow) → All IsMatched xs → All IsMatched ys → All IsMatched (xs ++ ys)
append-AllMatched [] ys a b = b
append-AllMatched (x ∷ xs) ys (h, a) b = (h, append-AllMatched xs ys a b)

finish-AllMatched :
    (additions : List (ℕ × MarkerPass)) (rows : Option (List PassRow))
    → AllMatched rows
    → AllMatched (
        rows >>= λ rows.
        let (renames, consumed) = rename_from additions rows [] in
        some (renames ++ added_rows additions consumed))
unfolding AllMatched
finish-AllMatched additions none h = tt
finish-AllMatched additions (some rows) h =
    append-AllMatched (rename_from additions rows []).0 _
      (rename_from-AllMatched additions rows [] h)
      (added_rows-AllMatched additions (rename_from additions rows []).1)

align_passes-AllMatched : (a b : List MarkerPass) → AllMatched (align_passes a b)
unfolding align_passes
align_passes-AllMatched a b =
    finish-AllMatched (added_from (pairs_of a b) 0 b) (rows_from b (pairs_of a b) 0 a) (
      rows_from-AllMatched a b (pairs_of a b) a 0 (pairs_of-SameKey a b)
        (whole_suffix (leaf_keys a)))

-- Two lists of passes are aligned in rows that say what is so: passes that are the same have one
-- innermost name, those of a rename have one parent and as many calls, and a row of one side has no
-- other.
pub align_passes-IsMatched :
    (a b : List MarkerPass)
    → (rows : List PassRow) × (align_passes a b ≡ some rows) × All IsMatched rows
unfolding AllMatched
align_passes-IsMatched a b =
    let (rows, e, places, counts) = align_passes_total a b in
    let h = align_passes-AllMatched a b in (rows, e, rw e at h)
