-- ===== src/Bundle/Usage/Shared.antt =====
-- The map of the chains is a cache.
use rdc_tools.Prelude.{
  ℕ, ◌≡◌, refl, arith, inl, inr, none, some, List, [], ◌∷◌, All, ◌==◌, Bool-cases,
}
use rdc_tools.Bundle.Rows.{BundleResource}
use rdc_tools.Bundle.Usage.{
  UsageChain, UsageChains, usage_chain, put_chain, chains_from, usage_chain_map, chain_at, chain_of,
}

module _ (r : BundleResource) where
  -- What is stored under the resource's id is its own chain.
  abbrev HasOwn : UsageChains → Type 0
  HasOwn chains = All (λ (k, c). k ≡ r.resource → c ≡ usage_chain r) chains

  put_chain-HasOwn :
      (key : ℕ) (chain : UsageChain) (chains : UsageChains)
      → (key ≡ r.resource → chain ≡ usage_chain r)
      → HasOwn chains
      → HasOwn (put_chain key chain chains)
  unfolding put_chain
  put_chain-HasOwn key chain [] h a = (h, tt)
  put_chain-HasOwn key chain ((k, c) ∷ chains) h (a, b) = elim (Bool-cases (k == key)) [
    | inl e ↦ rw e ((λ t. h (ground arith), b))
    | inr e ↦ rw e ((a, put_chain-HasOwn key chain chains h b))
  ]

  chains_from-HasOwn :
      (chains : UsageChains) (rs : List BundleResource)
      → HasOwn chains
      → All (λ s. s.resource ≡ r.resource → usage_chain s ≡ usage_chain r) rs
      → HasOwn (chains_from chains rs)
  unfolding chains_from
  chains_from-HasOwn chains [] a b = a
  chains_from-HasOwn chains (s ∷ rs) a (h, b) =
      chains_from-HasOwn (put_chain s.resource (usage_chain s) chains) rs
        (put_chain-HasOwn s.resource (usage_chain s) chains h a) b

  own_or_none :
      (chains : UsageChains)
      → HasOwn chains
      → (elim (chain_at r.resource chains) [ none ↦ usage_chain r | some chain ↦ chain ])
        ≡ usage_chain r
  own_or_none [] a = refl
  own_or_none ((k, c) ∷ chains) (h, a) = elim (Bool-cases (k == r.resource)) [
    | inl e ↦ rw e (h (ground arith))
    | inr e ↦ rw e (own_or_none chains a)
  ]

  -- With the map of the chains of some resources, of which any with the id of this one has its chain,
  -- the answer is the chain that is built without the map.
  pub chain_of-usage_chain_map :
      (resources : List BundleResource)
      → All (λ s. s.resource ≡ r.resource → usage_chain s ≡ usage_chain r) resources
      → chain_of r (some (usage_chain_map resources)) ≡ chain_of r none
  unfolding chain_of usage_chain_map
  chain_of-usage_chain_map resources h =
      own_or_none (chains_from [] resources) (chains_from-HasOwn [] resources tt h)
