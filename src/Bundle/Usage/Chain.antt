-- ===== src/Bundle/Usage/Chain.antt =====
-- What a usage chain says of the rows that it is built from.
use rdc_tools.Prelude.{
  ℕ, ◌≡◌, refl, arith, inl, inr, Bool, ◌&&◌, ◌||◌, List, [], ◌∷◌, bytes_eq, leb, sorted_by,
  insert_sorted, Bool-cases, ◌∙◌,
}
use rdc_tools.Uses.{any}
use rdc_tools.Passes.Align.Alike.{bytes_eq_sound}
use rdc_tools.Bundle.Rows.{Text, BundleUsage, BundleResource}
use rdc_tools.Bundle.Usage.{
  Entry, UsageChain, text_in, usage_name, add_name, add_usage, per_event, usage_chain, meets,
}

module _ {ℓ} {A : Type ℓ} (p : A → Bool) (before : A → A → Bool) where
  any-insert_sorted : (x : A) (xs : List A) → any p (insert_sorted before x xs) ≡ (p x || any p xs)
  unfolding any insert_sorted
  any-insert_sorted x [] = refl
  any-insert_sorted x (y ∷ ys) = ground (arith, any-insert_sorted x ys)

  any-sorted_by : (xs : List A) → any p (sorted_by before xs) ≡ any p xs
  unfolding any sorted_by
  any-sorted_by [] = refl
  any-sorted_by (x ∷ xs) =
      ground (arith, any-insert_sorted x (sorted_by before xs), any-sorted_by xs)

any-add_name :
    (p : Text → Bool) (name : Text) (names : List Text)
    → any p (add_name name names) ≡ (p name || any p names)
unfolding any add_name
any-add_name p name [] = refl
any-add_name p name (n ∷ ns) = elim (Bool-cases (bytes_eq name n)) [
  | inl e ↦ let same = bytes_eq_sound name n e in rw (e, same) (ground arith)
  | inr e ↦ rw e (ground (arith, any-add_name p name ns))
]

-- The row is of one of these kinds.
abbrev pub is_of : List Text → BundleUsage → Bool
is_of kinds u = text_in (usage_name u.usage) kinds

module _ (t : ℕ → Bool) (kinds : List Text) where
  abbrev hit : Entry → Bool
  hit (eid, names) = t eid && meets kinds names

  any-add_usage :
      (eid : ℕ) (name : Text) (chain : UsageChain)
      → any hit (add_usage eid name chain) ≡ ((t eid && text_in name kinds) || any hit chain)
  unfolding any add_usage
  any-add_usage eid name [] = ground arith
  any-add_usage eid name ((other, names) ∷ chain) =
      ground (arith, any-add_usage eid name chain, any-add_name (λ n. text_in n kinds) name names)

  any-per_event :
      (chain : UsageChain) (us : List BundleUsage)
      → any hit (per_event chain us) ≡ (any hit chain || any (λ u. t u.eid && is_of kinds u) us)
  unfolding any per_event
  any-per_event chain [] = ground arith
  any-per_event chain (u ∷ us) = ground (
    arith,
    any-per_event (add_usage u.eid (usage_name u.usage) chain) us,
    any-add_usage u.eid (usage_name u.usage) chain,
  )

  -- An event of the chain passes a test and has a use of some kinds, where one of the rows does.
  pub any-usage_chain :
      (resource : BundleResource)
      → any (λ (eid, names). t eid && meets kinds names) (usage_chain resource)
        ≡ any (λ u. t u.eid && is_of kinds u) resource.usage
  unfolding usage_chain any
  any-usage_chain resource =
      any-sorted_by hit (λ a b. leb a.0 b.0) (per_event [] resource.usage)
      ∙ any-per_event [] resource.usage
