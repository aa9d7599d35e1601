-- ===== src/Bundle/Passes/Touched.antt =====
-- The resources that `reconstruct_passes` finds by two bisections.
use rdc_tools.Prelude.{
  ℕ, zero, suc, ◌≤◌, ◌<◌, ◌≡◌, refl, arith, inl, inr, Bool, true, false, ◌&&◌, List, [], ◌∷◌, map,
  All, IsAscending, sorted_by, insert_sorted, sorted_by-perm, sorted_by-IsAscending, leb, ltb, take,
  drop, ap, sym, ◌∙◌, Bool-cases,
}
use mathlib.Core.List.{Perm}
use mathlib.Core.List.Perm
use rdc_tools.Uses.{keep}
use rdc_tools.Bundle.Rows.{BundleResource}
use rdc_tools.Bundle.Passes.{bisect_left, bisect_right, by_first, touched}

and_false : (b : Bool) → (b && false) ≡ false
and_false b = ground arith

module _ {ℓ} {A : Type ℓ} (key : A → ℕ) (first last : ℕ) where
  abbrev between : A → Bool
  between x = leb first (key x) && leb (key x) last

  abbrev window : List A → List A
  window xs = drop (bisect_left (map key xs) first) (take (bisect_right (map key xs) last) xs)

  -- Nothing is kept of what is past the last place.
  keep_none : (xs : List A) → All (λ y. last < key y) xs → keep between xs ≡ []
  unfolding keep
  keep_none [] a = refl
  keep_none (x ∷ xs) (h, a) = ground (arith, keep_none xs a)

  past : (m : ℕ) (xs : List A) → last < m → All (λ y. m ≤ key y) xs → All (λ y. last < key y) xs
  past m [] h a = tt
  past m (x ∷ xs) h (b, a) = (omega arith, past m xs h a)

  drop_none : (n : ℕ) → drop {A = A} n [] ≡ []
  drop_none zero = refl
  drop_none (suc n) = refl

  left_none : (xs : List A) → All (λ y. first ≤ key y) xs → bisect_left (map key xs) first ≡ 0
  left_none [] a = refl
  left_none (x ∷ xs) (h, a) = ground arith

  from : (m : ℕ) (xs : List A) → first ≤ m → All (λ y. m ≤ key y) xs → All (λ y. first ≤ key y) xs
  from m [] h a = tt
  from m (x ∷ xs) h (b, a) = (omega arith, from m xs h a)

  -- The slice of an ascending list between its two bisections has the items between the two numbers.
  window-keep : (xs : List A) → IsAscending key xs → window xs ≡ keep between xs
  unfolding keep
  window-keep [] s = refl
  window-keep (x ∷ xs) (a, s) = elim (Bool-cases (leb (key x) last)) [
    | inl e ↦ elim (Bool-cases (ltb (key x) first)) [
      | inl f ↦ let g : leb first (key x) ≡ false = ground arith in rw (e, f, g) (window-keep xs s)
      | inr f ↦
          let g : leb first (key x) ≡ true = ground arith in
          let z = left_none xs (from (key x) xs (ground arith) a) in
          rw (e, f, g) (ap (λ l. x ∷ l) (rw z at (window-keep xs s)))
    ]
    | inr e ↦
        rw (e, and_false (leb first (key x)))
          (drop_none (bisect_left (map key (x ∷ xs)) first)
            ∙ sym (keep_none xs (past (key x) xs (ground arith) a)))
  ]

module _ {ℓ} {A : Type ℓ} (p : A → Bool) where
  keep-perm_cons :
      (x : A) (xs ys : List A)
      → Perm (keep p xs) (keep p ys)
      → Perm (keep p (x ∷ xs)) (keep p (x ∷ ys))
  unfolding keep
  keep-perm_cons x xs ys h = elim (Bool-cases (p x)) [
    | inl e ↦ rw e (Perm.cons x h)
    | inr e ↦ rw e h
  ]

  keep-perm_swap : (x y : A) (xs : List A) → Perm (keep p (x ∷ y ∷ xs)) (keep p (y ∷ x ∷ xs))
  unfolding keep
  keep-perm_swap x y xs = elim (Bool-cases (p x)) [
    | inl e ↦ elim (Bool-cases (p y)) [
      | inl f ↦ rw (e, f) (Perm.swap y x (keep p xs))
      | inr f ↦ rw (e, f) Perm.rfl
    ]
    | inr e ↦ rw e Perm.rfl
  ]

  module _ (before : A → A → Bool) where
    keep-insert_sorted :
        (x : A) (xs : List A) → Perm (keep p (insert_sorted before x xs)) (keep p (x ∷ xs))
    unfolding insert_sorted
    keep-insert_sorted x [] = Perm.rfl
    keep-insert_sorted x (y ∷ ys) = elim (Bool-cases (before x y)) [
      | inl e ↦ rw e Perm.rfl
      | inr e ↦
          rw e (Perm.trans (keep-perm_cons y _ _ (keep-insert_sorted x ys)) (keep-perm_swap y x ys))
    ]

    keep-sorted_by : (xs : List A) → Perm (keep p (sorted_by before xs)) (keep p xs)
    unfolding sorted_by
    keep-sorted_by [] = Perm.rfl
    keep-sorted_by (x ∷ xs) =
        Perm.trans (keep-insert_sorted x (sorted_by before xs))
          (keep-perm_cons x _ _ (keep-sorted_by xs))

-- The resources that a pass is said to touch first are those of the bundle whose first event lies
-- between the pass's first and last, each as often as it is there, in the order of their ids.
pub touched_lem :
    (resources : List BundleResource) (first last : ℕ)
    → Perm
        (touched resources first last)
        (keep (λ r. leb first r.first_event && leb r.first_event last) resources)
      × IsAscending (λ r. r.resource) (touched resources first last)
unfolding touched
touched_lem resources first last = (
  Perm.trans (sorted_by-perm _ _) (
      rw
        (window-keep (λ r. r.first_event) first last (by_first resources)
          (sorted_by-IsAscending (λ r. r.first_event) resources))
        (keep-sorted_by (λ r. leb first r.first_event && leb r.first_event last)
          (λ r s. leb r.first_event s.first_event) resources)),
  sorted_by-IsAscending (λ r. r.resource) _,
)
