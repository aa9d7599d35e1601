-- ===== src/Passes/Align/Alike.antt =====
-- What the two passes of a pair have in common.
use mathlib.Core.Option
use rdc_tools.Prelude.{
  All, ℕ, zero, suc, ◌+◌, ◌≡◌, refl, sym, ap, ◌∙◌, arith, Bool, true, false, not, ◌&&◌, ◌||◌,
  Option, none, some, List, [], ◌∷◌, get_elem?, bytes_eq, option_cases, if_cases,
}
use rdc_tools.Passes.Markers.{MarkerPass}
use rdc_tools.Passes.Paths.{leaf}
use rdc_tools.Passes.Align.{
  Pair, taken_a, taken_b, is_empty_key, Waiting, waiting, pop_first, pair_one, pair_from, pair_by,
  path_keys, leaf_keys, pairs_of,
}

pub bytes_eq_sound : (xs ys : List ℕ) → bytes_eq xs ys ≡ true → xs ≡ ys
unfolding bytes_eq
bytes_eq_sound [] [] h = refl
bytes_eq_sound [] (y ∷ ys) h = cc
bytes_eq_sound (x ∷ xs) [] h = cc
bytes_eq_sound (x ∷ xs) (y ∷ ys) h =
    let here : x ≡ y = ground (arith, h) in
    let rest = bytes_eq_sound xs ys (ground (arith, h)) in rw (here, rest)

Keys : Type 0
Keys = List (List ℕ)

-- The keys that are left, from a place of all of them on.
unfoldable pub IsSuffix : List (List ℕ) → ℕ → List (List ℕ) → Type 0
IsSuffix all s keys = (x : ℕ) → get_elem? all (s + x) ≡ get_elem? keys x

pub suffix_head :
    (all : List (List ℕ)) (s : ℕ) (key : List ℕ) (keys : List (List ℕ))
    → IsSuffix all s (key ∷ keys)
    → get_elem? all s ≡ some key
unfolding IsSuffix
suffix_head all s key keys h = let e : s ≡ s + 0 = omega arith in ap (get_elem? all) e ∙ h 0

pub suffix_tail :
    (all : List (List ℕ)) (s : ℕ) (key : List ℕ) (keys : List (List ℕ))
    → IsSuffix all s (key ∷ keys)
    → IsSuffix all (suc s) keys
unfolding IsSuffix
suffix_tail all s key keys h x =
    let e : suc s + x ≡ s + suc x = omega arith in ap (get_elem? all) e ∙ h (suc x)

pub whole_suffix : (all : List (List ℕ)) → IsSuffix all 0 all
unfolding IsSuffix
whole_suffix all x = let e : 0 + x ≡ x = omega arith in ap (get_elem? all) e

-- Each place that waits has its key.
unfoldable IsKeyed : List (List ℕ) → Waiting → Type 0
IsKeyed all [] = Unit {0}
IsKeyed all ((k, i) ∷ queue) = (get_elem? all i ≡ some k) × IsKeyed all queue

waiting-IsKeyed :
    (all : List (List ℕ)) (ps : List Pair) (keys : List (List ℕ)) (s : ℕ)
    → IsSuffix all s keys
    → IsKeyed all (waiting ps s keys)
unfolding waiting IsKeyed
waiting-IsKeyed all ps [] s h = tt
waiting-IsKeyed all ps (key ∷ keys) s h =
    let ih = waiting-IsKeyed all ps keys (suc s) (suffix_tail all s key keys h) in
    if_cases (IsKeyed all) (not (taken_a ps s) && not (is_empty_key key)) _ _
      (λ t. (suffix_head all s key keys h, ih)) (λ f. ih)

-- What is popped has the key that is asked for.
unfoldable HasKey : List (List ℕ) → List ℕ → Option (ℕ × Waiting) → Type 0
HasKey all key none = Unit {0}
HasKey all key (some (i, left)) = (get_elem? all i ≡ some key) × IsKeyed all left

pop_first-HasKey :
    (all : List (List ℕ)) (key : List ℕ) (queue : Waiting)
    → IsKeyed all queue
    → HasKey all key (pop_first key queue)
unfolding pop_first IsKeyed HasKey
pop_first-HasKey all key [] h = tt
pop_first-HasKey all key ((k, i) ∷ queue) (e, h) =
    let ih = pop_first-HasKey all key queue h in
    if_cases (HasKey all key) (bytes_eq key k) _ _
      (λ t. (e ∙ ap some (sym (bytes_eq_sound key k t)), h))
      (λ f.
        option_cases (HasKey all key) (pop_first key queue) _ _ (λ n. tt)
          (λ (x, left) g. let (a, b) = rw g at ih in (a, (e, b))))

-- The passes of a pair have one key.
abbrev pub SameKey : List (List ℕ) → List (List ℕ) → Pair → Type 0
SameKey keys_a keys_b p = get_elem? keys_a p.a_index ≡ get_elem? keys_b p.b_index

module _ (all_a all_b : List (List ℕ)) where
  AreKeyed : Waiting × List Pair → Type 0
  AreKeyed (queue, ps) = IsKeyed all_a queue × All (SameKey all_a all_b) ps

  pair_one-AreKeyed :
      (explain : Bool) (j : ℕ) (key : List ℕ) (queue : Waiting) (ps : List Pair)
      → get_elem? all_b j ≡ some key
      → AreKeyed (queue, ps)
      → AreKeyed (pair_one explain j key (queue, ps))
  unfolding AreKeyed pair_one HasKey
  pair_one-AreKeyed explain j key queue ps e (q, ok) =
      let popped = pop_first-HasKey all_a key queue q in
      if_cases AreKeyed (taken_b ps j || is_empty_key key) _ _ (λ t. (q, ok))
        (λ f.
          option_cases AreKeyed (pop_first key queue) _ _ (λ n. (q, ok))
            (λ (other, left) g. let (a, b) = rw g at popped in (b, (a ∙ sym e, ok))))

  pair_from-SameKey :
      (explain : Bool) (keys : List (List ℕ)) (j : ℕ) (state : Waiting × List Pair)
      → IsSuffix all_b j keys
      → AreKeyed state
      → All (SameKey all_a all_b) (pair_from explain j keys state)
  unfolding pair_from AreKeyed
  pair_from-SameKey explain [] j state h (q, ok) = ok
  pair_from-SameKey explain (key ∷ keys) j (queue, ps) h s =
      pair_from-SameKey explain keys (suc j) (pair_one explain j key (queue, ps))
        (suffix_tail all_b j key keys h)
        (pair_one-AreKeyed explain j key queue ps (suffix_head all_b j key keys h) s)

  pair_by-SameKey :
      (explain : Bool) (ps : List Pair)
      → All (SameKey all_a all_b) ps
      → All (SameKey all_a all_b) (pair_by explain all_a all_b ps)
  unfolding pair_by AreKeyed
  pair_by-SameKey explain ps ok =
      pair_from-SameKey explain all_b 0 _ (whole_suffix all_b)
        (waiting-IsKeyed all_a ps all_a 0 (whole_suffix all_a), ok)

All-map {ℓ κ} :
    {A : Type ℓ} {P Q : A → Type κ} → ((x : A) → P x → Q x) → (xs : List A) → All P xs → All Q xs
All-map h [] a = tt
All-map h (x ∷ xs) (p, a) = (h x p, All-map h xs a)

leaf_of-path :
    (passes : List MarkerPass) (i : ℕ)
    → get_elem? (leaf_keys passes) i ≡ Option.map leaf (get_elem? (path_keys passes) i)
leaf_of-path [] i = refl
leaf_of-path (p ∷ passes) zero = refl
leaf_of-path (p ∷ passes) (suc i) = leaf_of-path passes i

-- The passes of a pair have the same innermost name.
pub pairs_of-SameKey :
    (a b : List MarkerPass) → All (SameKey (leaf_keys a) (leaf_keys b)) (pairs_of a b)
unfolding pairs_of
pairs_of-SameKey a b =
    let by_path = pair_by-SameKey (path_keys a) (path_keys b) false [] tt in
    pair_by-SameKey (leaf_keys a) (leaf_keys b) true _ (
      All-map
        (λ p h. leaf_of-path a p.a_index ∙ ap (Option.map leaf) h ∙ sym (leaf_of-path b p.b_index))
        _ by_path)
