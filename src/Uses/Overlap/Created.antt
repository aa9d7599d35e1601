-- ===== src/Uses/Overlap/Created.antt =====
-- The resources that `alias_conflicts` pairs: those of the ledger that are created and placed, heap by
-- heap.
use mathlib.Core.List.{Memᴰ}
use rdc_tools.Prelude.{
  All, ℕ, ◌≡◌, ◌≢◌, refl, arith, Bool, true, not, ◌&&◌, List, [], ◌∷◌, ◌==◌, Bool-cases, inl, inr,
  IsOrdered, All-sorted_by, sorted_by-apart,
}
use rdc_tools.Uses.{Placement, placed, keep}
use rdc_tools.Uses.Overlap.{Placed, is_placed, created_placed, in_heap}

abbrev pub apart : Placed → Placed → Bool
apart x y = not (x.0 == y.0)

-- The ledger has each id once.
abbrev pub IsKeyed : List Placed → Type 0
IsKeyed resources = IsOrdered apart resources

apart_turned : (x y : Placed) → apart x y ≡ true → apart y x ≡ true
apart_turned x y h = ground (arith, h)

All_of_mem {ℓ κ} :
    {A : Type ℓ} (P : A → Type κ) (xs : List A) → ((x : A) → Memᴰ x xs → P x) → All P xs
All_of_mem P [] h = tt
All_of_mem P (x ∷ xs) h = (h x (Memᴰ.head refl), All_of_mem P xs (λ y m. h y (Memᴰ.tail m)))

module _ {ℓ κ} {A : Type ℓ} (P Q : A → Type κ) (p : A → Bool) where
  All-keep : (xs : List A) → ((x : A) → p x ≡ true → P x → Q x) → All P xs → All Q (keep p xs)
  unfolding keep
  All-keep [] h a = tt
  All-keep (x ∷ xs) h (b, a) = elim (Bool-cases (p x)) [
    | inl t ↦ rw t (h x t b, All-keep xs h a)
    | inr f ↦ rw f (All-keep xs h a)
  ]

module _ (p : Placed → Bool) where
  IsKeyed-keep : (xs : List Placed) → IsKeyed xs → IsKeyed (keep p xs)
  unfolding keep
  IsKeyed-keep [] o = tt
  IsKeyed-keep (x ∷ xs) (a, o) = elim (Bool-cases (p x)) [
    | inl t ↦
        let all = All-keep (λ y. apart x y ≡ true) (λ y. apart x y ≡ true) p xs (λ y t h. h) a in
        rw t (all, IsKeyed-keep xs o)
    | inr f ↦ rw f (IsKeyed-keep xs o)
  ]

module _ (resources : List Placed) where
  -- A resource of the ledger that was created and placed.
  abbrev pub IsCreated : Placed → Type 0
  IsCreated x = Memᴰ x resources × (x.1.created ≢ 0) × (x.1.placement ≡ placed)

  -- One of them in a heap.
  abbrev pub StandsIn : ℕ → Placed → Type 0
  StandsIn heap x = IsCreated x × (x.1.heap ≡ heap)

  is_placed_lem : (placement : Placement) → is_placed placement ≡ true → placement ≡ placed
  is_placed_lem placed e = refl
  is_placed_lem _ e = cc

  created_of :
      (x : Placed)
      → (not (x.1.created == 0) && is_placed x.1.placement) ≡ true
      → Memᴰ x resources
      → IsCreated x
  created_of x t m =
      let (made, where') : (not (x.1.created == 0) ≡ true) × (is_placed x.1.placement ≡ true) =
        ground (arith, t) in
      (m, λ z. ground (arith, made, z), is_placed_lem x.1.placement where')

  created_placed-IsCreated : All IsCreated (created_placed resources)
  created_placed-IsCreated =
      All-keep (λ x. Memᴰ x resources) IsCreated _ resources (λ x t m. created_of x t m)
        (All_of_mem (λ x. Memᴰ x resources) resources (λ x m. m))

  pub in_heap-StandsIn : (heap : ℕ) → All (StandsIn heap) (in_heap heap (created_placed resources))
  in_heap-StandsIn heap = All-sorted_by _ (StandsIn heap) _ (
      All-keep IsCreated (StandsIn heap) _ (created_placed resources)
        (λ x t c. (c, ground (arith, t))) created_placed-IsCreated)

  pub in_heap-IsKeyed :
      (heap : ℕ) → IsKeyed resources → IsKeyed (in_heap heap (created_placed resources))
  in_heap-IsKeyed heap o =
      sorted_by-apart _ apart apart_turned _ (IsKeyed-keep _ _ (IsKeyed-keep _ resources o))
