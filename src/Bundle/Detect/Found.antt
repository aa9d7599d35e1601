-- ===== src/Bundle/Detect/Found.antt =====
-- What the usage detectors find, in terms of the rows of a resource.
use rdc_tools.Prelude.{
  ℕ, ◌≤◌, ◌<◌, ◌≡◌, refl, arith, inl, inr, Bool, true, false, ◌&&◌, Option, none, some, List, [],
  ◌∷◌, All, IsAscending, sorted_by-IsAscending, leb, ltb, ◌==◌, Bool-cases, Option-cases, ◌∙◌, sym,
  ap, codes,
}
use mathlib.Core.Option.{some_inj}
use rdc_tools.Uses.{any, find}
use rdc_tools.Passes.Align.Alike.{bytes_eq_sound}
use rdc_tools.Bundle.Rows.{Text, texts_eq, BundleUsage, BundleResource}
use rdc_tools.Bundle.Usage.{
  Entry, UsageChain, UsageChains, text_in, usage_chain, meets, can_judge, untracked, usage_judged,
  chain_of,
}
use rdc_tools.Bundle.Usage.Chain.{is_of, any-usage_chain}

-- A row of these kinds has this event.
abbrev pub IsAt : List Text → ℕ → List BundleUsage → Type 0
IsAt kinds eid us = any (λ u. (u.eid == eid) && is_of kinds u) us ≡ true

-- The first event of the rows of some kinds.
abbrev pub IsFirst : List Text → ℕ → List BundleUsage → Type 0
IsFirst kinds eid us = IsAt kinds eid us × All (λ u. is_of kinds u ≡ true → eid ≤ u.eid) us

abbrev pub IsLast : List Text → ℕ → List BundleUsage → Type 0
IsLast kinds eid us = IsAt kinds eid us × All (λ u. is_of kinds u ≡ true → u.eid ≤ eid) us

module _ {ℓ κ} {A : Type ℓ} (p : A → Bool) (P : A → Type κ) where
  none-All : ((x : A) → p x ≡ false → P x) → (xs : List A) → any p xs ≡ false → All P xs
  unfolding any
  none-All f [] h = tt
  none-All f (x ∷ xs) h = elim (Bool-cases (p x)) [
    | inl e ↦ ground arith
    | inr e ↦ (f x e, none-All f xs (rw e at h))
  ]

  All-none : ((x : A) → P x → p x ≡ false) → (xs : List A) → All P xs → any p xs ≡ false
  unfolding any
  All-none f [] a = refl
  All-none f (x ∷ xs) (h, a) = rw (f x h) (All-none f xs a)

module _ (p : Entry → Bool) where
  below_none :
      (m : ℕ) (xs : UsageChain) → All (λ e. m ≤ e.0) xs → any (λ e. ltb e.0 m && p e) xs ≡ false
  unfolding any
  below_none m [] a = refl
  below_none m (x ∷ xs) (h, a) = ground (arith, below_none m xs a)

  -- What `find` finds in an ascending chain is the first.
  find_first :
      (xs : UsageChain) (x : Entry)
      → IsAscending (λ e. e.0) xs
      → find p xs ≡ some x
      → (any (λ e. (e.0 == x.0) && p e) xs ≡ true) × (any (λ e. ltb e.0 x.0 && p e) xs ≡ false)
  unfolding any find
  find_first [] x s h = ground arith
  find_first (y ∷ ys) x (a, s) h = elim (Bool-cases (p y)) [
    | inl e ↦
        let same : y.0 ≡ x.0 = ap (λ z. z.0) (some_inj.0 (rw e at h)) in
        (ground arith, ground (arith, below_none y.0 ys a))
    | inr e ↦ let (b, c) = find_first ys x s (rw e at h) in (ground arith, ground arith)
  ]

  pub find-none :
      (xs : UsageChain) → find p xs ≡ none → (t : ℕ → Bool) → any (λ e. t e.0 && p e) xs ≡ false
  unfolding any find
  find-none [] h t = refl
  find-none (x ∷ xs) h t = elim (Bool-cases (p x)) [
    | inl e ↦ ground arith
    | inr e ↦ ground (arith, find-none xs (rw e at h) t)
  ]

module _ (kinds : List Text) (us : List BundleUsage) where
  pub not_before :
      (eid : ℕ)
      → any (λ u. ltb u.eid eid && is_of kinds u) us ≡ false
      → All (λ u. is_of kinds u ≡ true → eid ≤ u.eid) us
  not_before eid h = none-All _ _ (λ u e t. ground arith) us h

  pub not_behind :
      (eid : ℕ)
      → any (λ u. ltb eid u.eid && is_of kinds u) us ≡ false
      → All (λ u. is_of kinds u ≡ true → u.eid ≤ eid) us
  not_behind eid h = none-All _ _ (λ u e t. ground arith) us h

  pub none_behind :
      (eid : ℕ)
      → All (λ u. is_of kinds u ≡ true → u.eid ≤ eid) us
      → any (λ u. ltb eid u.eid && is_of kinds u) us ≡ false
  none_behind eid h = All-none _ _ (λ u e. ground arith) us h

  pub not_until :
      (eid : ℕ)
      → any (λ u. leb u.eid eid && is_of kinds u) us ≡ false
      → All (λ u. is_of kinds u ≡ true → eid < u.eid) us
  not_until eid h = none-All _ _ (λ u e t. ground arith) us h

  pub none_until :
      (eid : ℕ)
      → All (λ u. is_of kinds u ≡ true → eid < u.eid) us
      → any (λ u. leb u.eid eid && is_of kinds u) us ≡ false
  none_until eid h = All-none _ _ (λ u e. ground arith) us h

  pub none_before :
      (eid : ℕ)
      → All (λ u. is_of kinds u ≡ true → eid ≤ u.eid) us
      → any (λ u. ltb u.eid eid && is_of kinds u) us ≡ false
  none_before eid h = All-none _ _ (λ u e. ground arith) us h

-- Two events that are both first are one.
pub at_least :
    (kinds : List Text) (m n : ℕ) (us : List BundleUsage)
    → IsAt kinds m us
    → All (λ u. is_of kinds u ≡ true → n ≤ u.eid) us
    → n ≤ m
unfolding any
at_least kinds m n [] h a = ground arith
at_least kinds m n (u ∷ us) h (f, a) = ground (arith, f, at_least kinds m n us)

pub at_most :
    (kinds : List Text) (m n : ℕ) (us : List BundleUsage)
    → IsAt kinds m us
    → All (λ u. is_of kinds u ≡ true → u.eid ≤ n) us
    → m ≤ n
unfolding any
at_most kinds m n [] h a = ground arith
at_most kinds m n (u ∷ us) h (f, a) = ground (arith, f, at_most kinds m n us)

unused_meets :
    (kinds ns : List Text)
    → text_in (codes "Unused") kinds ≡ false
    → texts_eq ns (codes "Unused" ∷ []) ≡ true
    → meets kinds ns ≡ false
unfolding any
unused_meets kinds [] h e = refl
unused_meets kinds (n ∷ []) h e =
    let same = bytes_eq_sound n (codes "Unused") (ground arith) in rw same (ground (arith, h))
unused_meets kinds (n ∷ m ∷ ns) h e = ground arith

untracked_none :
    (kinds : List Text)
    → text_in (codes "Unused") kinds ≡ false
    → (t : ℕ → Bool) (chain : UsageChain) → untracked chain ≡ true
    → any (λ (eid, ns). t eid && meets kinds ns) chain ≡ false
unfolding any
untracked_none kinds h t [] e = refl
untracked_none kinds h t ((eid, ns) ∷ []) e = ground (arith, unused_meets kinds ns h e)
untracked_none kinds h t (a ∷ b ∷ chain) e = ground arith

module _ (resource : BundleResource) (chains : Option UsageChains)
    (judged : can_judge resource ≡ true)
    (own : chain_of resource chains ≡ usage_chain resource) where
  pub judge_tracked :
      untracked (usage_chain resource) ≡ false
      → usage_judged resource chains ≡ some (usage_chain resource)
  unfolding usage_judged
  judge_tracked e = rw (judged, own, e) refl

  pub judge_untracked :
      untracked (usage_chain resource) ≡ true → usage_judged resource chains ≡ none
  unfolding usage_judged
  judge_untracked e = rw (judged, own, e) refl

  abbrev rows : List BundleUsage
  rows = resource.usage

  -- A resource that is not tracked has no use of the kinds that name one.
  pub no_rows :
      untracked (usage_chain resource) ≡ true
      → (kinds : List Text) → text_in (codes "Unused") kinds ≡ false
      → (t : ℕ → Bool) → any (λ u. t u.eid && is_of kinds u) rows ≡ false
  no_rows e kinds h t =
      sym (any-usage_chain t kinds resource) ∙ untracked_none kinds h t (usage_chain resource) e

-- The outcomes of the search for a first read.
module _ (resource : BundleResource) where
  abbrev chain : UsageChain
  chain = usage_chain resource

  pub ascending : IsAscending (λ e. e.0) chain
  unfolding usage_chain
  ascending = sorted_by-IsAscending (λ e. e.0) _

  pub found-IsFirst :
      (kinds : List Text) (eid : ℕ) (names : List Text)
      → find (λ (e, ns). meets kinds ns) chain ≡ some (eid, names)
      → IsFirst kinds eid resource.usage
  found-IsFirst kinds eid names h =
      let (a, b) = find_first (λ (e, ns). meets kinds ns) chain (eid, names) ascending h in
      (
        sym (any-usage_chain (λ e. e == eid) kinds resource) ∙ a,
        not_before kinds resource.usage eid
            (sym (any-usage_chain (λ e. ltb e eid) kinds resource) ∙ b),
      )

  -- Where the rows have a first event of some kinds, the chain has it.
  pub found_of :
      (kinds : List Text) (eid : ℕ)
      → IsFirst kinds eid resource.usage
      → (names : List Text) × (find (λ (e, ns). meets kinds ns) chain ≡ some (eid, names))
  found_of kinds eid (at, first) = elim (Option-cases (find (λ (e, ns). meets kinds ns) chain)) [
    | inl e ↦
        let h = any-usage_chain (λ e. e == eid) kinds resource in
        let n = find-none (λ (e, ns). meets kinds ns) chain e (λ e. e == eid) in
        absurd (ground (arith, h, n, at))
    | inr ((other, names), e) ↦
        let (b, c) = found-IsFirst kinds other names e in
        let same : other ≡ eid = omega (
          arith,
          at_least kinds eid other resource.usage at c,
          at_least kinds other eid resource.usage b first,
        ) in
        (names, e ∙ ap (λ m. some (m, names)) same)
  ]
