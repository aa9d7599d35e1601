-- ===== src/Prelude/Sorting.antt =====
-- `sort` by a test that the first may stand before the second, which keeps equals in order.
use Prim.Native.Nat.{ℕ, ◌≤◌, ◌+◌}
use mathlib.Core.Path.{◌≡◌, refl}
use mathlib.Core.Logic.{inl, inr}
use mathlib.Core.Bool.{Bool, true, false}
use mathlib.Core.List.{List, [], ◌∷◌, Perm}
use mathlib.Core.List.Perm
use native.Mathlib.Omega.{arith}
use rdc_tools.Prelude.Lists.{All, sum_of}
use rdc_tools.Prelude.Tests.{leb, leb→le, if◌then◌else◌, Bool-cases, if_cases}

module _ {ℓ} {A : Type ℓ} (before : A → A → Bool) where
  unfoldable pub insert_sorted : A → List A → List A
  insert_sorted x [] = x ∷ []
  insert_sorted x (y ∷ ys) =
      let rest = insert_sorted x ys in if before x y then x ∷ y ∷ ys else y ∷ rest

  unfoldable pub sorted_by : List A → List A
  sorted_by [] = []
  sorted_by (x ∷ xs) = insert_sorted x (sorted_by xs)

  insert_sorted-perm : (x : A) (xs : List A) → Perm (insert_sorted x xs) (x ∷ xs)
  unfolding insert_sorted
  insert_sorted-perm x [] = Perm.rfl
  insert_sorted-perm x (y ∷ ys) = elim (Bool-cases (before x y)) [
    | inl e ↦ rw e Perm.rfl
    | inr e ↦ rw e (Perm.trans (Perm.cons y (insert_sorted-perm x ys)) (Perm.swap x y ys))
  ]

  pub sorted_by-perm : (xs : List A) → Perm (sorted_by xs) xs
  unfolding sorted_by
  sorted_by-perm [] = Perm.rfl
  sorted_by-perm (x ∷ xs) =
      Perm.trans (insert_sorted-perm x (sorted_by xs)) (Perm.cons x (sorted_by-perm xs))

-- Each item may stand before those behind it.
abbrev pub IsOrdered {ℓ} : {A : Type ℓ} → (A → A → Bool) → List A → Type 0
IsOrdered before [] = Unit
IsOrdered before (x ∷ xs) = All (λ y. before x y ≡ true) xs × IsOrdered before xs

-- What holds of every item holds of every item of the sorted list, in any order of them.
module _ {ℓ κ} {A : Type ℓ} (before : A → A → Bool) (P : A → Type κ) where
  All-insert_sorted : (x : A) (xs : List A) → P x → All P xs → All P (insert_sorted before x xs)
  unfolding insert_sorted
  All-insert_sorted x [] h a = (h, tt)
  All-insert_sorted x (y ∷ ys) h (k, a) =
      let ih = All-insert_sorted x ys h a in
      if_cases (All P) (before x y) _ _ (λ t. (h, (k, a))) (λ f. (k, ih))

  pub All-sorted_by : (xs : List A) → All P xs → All P (sorted_by before xs)
  unfolding sorted_by
  All-sorted_by [] a = tt
  All-sorted_by (x ∷ xs) (h, a) = All-insert_sorted x (sorted_by before xs) h (All-sorted_by xs a)

-- A test that does not ask which item is first holds of the items of the sorted list too.
module _ {ℓ} {A : Type ℓ} (before apart : A → A → Bool)
    (turned : (x y : A) → apart x y ≡ true → apart y x ≡ true) where
  insert_sorted-apart :
      (x : A) (xs : List A)
      → All (λ y. apart x y ≡ true) xs
      → IsOrdered apart xs
      → IsOrdered apart (insert_sorted before x xs)
  unfolding insert_sorted
  insert_sorted-apart x [] h o = (tt, tt)
  insert_sorted-apart x (y ∷ ys) (h, hs) (a, o) =
      let ih = insert_sorted-apart x ys hs o in
      let all = All-insert_sorted before (λ z. apart y z ≡ true) x ys (turned x y h) a in
      if_cases (IsOrdered apart) (before x y) _ _ (λ t. ((h, hs), (a, o))) (λ f. (all, ih))

  pub sorted_by-apart : (xs : List A) → IsOrdered apart xs → IsOrdered apart (sorted_by before xs)
  unfolding sorted_by
  sorted_by-apart [] o = tt
  sorted_by-apart (x ∷ xs) (a, o) =
      insert_sorted-apart x (sorted_by before xs)
        (All-sorted_by before (λ y. apart x y ≡ true) xs a) (sorted_by-apart xs o)

-- Sorted by a test that is total and transitive.
module _ {ℓ} {A : Type ℓ} (before : A → A → Bool)
    (total : (x y : A) → before x y ≡ false → before y x ≡ true)
    (trans : (x y z : A) → before x y ≡ true → before y z ≡ true → before x z ≡ true) where
  all_behind :
      (x y : A) (xs : List A)
      → before x y ≡ true
      → All (λ z. before y z ≡ true) xs
      → All (λ z. before x z ≡ true) xs
  all_behind x y [] h a = tt
  all_behind x y (z ∷ xs) h (b, a) = (trans x y z h b, all_behind x y xs h a)

  insert_behind :
      (y x : A) (xs : List A)
      → before y x ≡ true
      → All (λ z. before y z ≡ true) xs
      → All (λ z. before y z ≡ true) (insert_sorted before x xs)
  unfolding insert_sorted
  insert_behind y x [] h a = (h, tt)
  insert_behind y x (z ∷ xs) h (b, a) = elim (Bool-cases (before x z)) [
    | inl e ↦ rw e ((h, (b, a)))
    | inr e ↦ rw e ((b, insert_behind y x xs h a))
  ]

  insert_sorted-IsOrdered :
      (x : A) (xs : List A) → IsOrdered before xs → IsOrdered before (insert_sorted before x xs)
  unfolding insert_sorted
  insert_sorted-IsOrdered x [] s = (tt, tt)
  insert_sorted-IsOrdered x (y ∷ ys) (a, s) = elim (Bool-cases (before x y)) [
    | inl e ↦ rw e (((e, all_behind x y ys e a), (a, s)))
    | inr e ↦ rw e ((insert_behind y x ys (total x y e) a, insert_sorted-IsOrdered x ys s))
  ]

  pub sorted_by-IsOrdered : (xs : List A) → IsOrdered before (sorted_by before xs)
  unfolding sorted_by
  sorted_by-IsOrdered [] = tt
  sorted_by-IsOrdered (x ∷ xs) =
      insert_sorted-IsOrdered x (sorted_by before xs) (sorted_by-IsOrdered xs)

module _ {ℓ} {A : Type ℓ} (before : A → A → Bool) (f : A → ℕ) where
  sum_of-insert_sorted :
      (x : A) (xs : List A) → sum_of f (insert_sorted before x xs) ≡ f x + sum_of f xs
  unfolding insert_sorted
  sum_of-insert_sorted x [] = refl
  sum_of-insert_sorted x (y ∷ ys) = ground (arith, sum_of-insert_sorted x ys)

  pub sum_of-sorted_by : (xs : List A) → sum_of f (sorted_by before xs) ≡ sum_of f xs
  unfolding sorted_by
  sum_of-sorted_by [] = refl
  sum_of-sorted_by (x ∷ xs) =
      omega (arith, sum_of-insert_sorted x (sorted_by before xs), sum_of-sorted_by xs)

-- Sorted by a number that every item has.
module _ {ℓ} {A : Type ℓ} (key : A → ℕ) where
  abbrev pub IsAscending : List A → Type 0
  IsAscending [] = Unit
  IsAscending (x ∷ xs) = All (λ y. key x ≤ key y) xs × IsAscending xs

  abbrev pub by_key : A → A → Bool
  by_key x y = leb (key x) (key y)

  all_above : (m n : ℕ) (xs : List A) → m ≤ n → All (λ y. n ≤ key y) xs → All (λ y. m ≤ key y) xs
  all_above m n [] h a = tt
  all_above m n (x ∷ xs) h (a, b) = (omega arith, all_above m n xs h b)

  insert_above :
      (m : ℕ) (x : A) (xs : List A)
      → m ≤ key x
      → All (λ y. m ≤ key y) xs
      → All (λ y. m ≤ key y) (insert_sorted by_key x xs)
  unfolding insert_sorted
  insert_above m x [] h a = (h, tt)
  insert_above m x (y ∷ ys) h (a, b) = elim (Bool-cases (by_key x y)) [
    | inl e ↦ rw e ((h, (a, b)))
    | inr e ↦ rw e ((a, insert_above m x ys h b))
  ]

  insert_sorted-IsAscending :
      (x : A) (xs : List A) → IsAscending xs → IsAscending (insert_sorted by_key x xs)
  unfolding insert_sorted
  insert_sorted-IsAscending x [] s = (tt, tt)
  insert_sorted-IsAscending x (y ∷ ys) (a, s) = elim (Bool-cases (by_key x y)) [
    | inl e ↦ let le = leb→le (key x) (key y) e in rw e (((le, all_above _ _ ys le a), (a, s)))
    | inr e ↦ rw e ((insert_above (key y) x ys (ground arith) a, insert_sorted-IsAscending x ys s))
  ]

  pub sorted_by-IsAscending : (xs : List A) → IsAscending (sorted_by by_key xs)
  unfolding sorted_by
  sorted_by-IsAscending [] = tt
  sorted_by-IsAscending (x ∷ xs) =
      insert_sorted-IsAscending x (sorted_by by_key xs) (sorted_by-IsAscending xs)
