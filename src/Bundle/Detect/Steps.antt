-- ===== src/Bundle/Detect/Steps.antt =====
-- Each usage detector over the chain that it is given.
use rdc_tools.Prelude.{
  ℕ, ◌≤◌, ◌<◌, ◌≡◌, refl, arith, inl, inr, Bool, true, false, not, ◌&&◌, ◌||◌, Option, none, some,
  List, [], ◌∷◌, leb, ltb, ◌==◌, if◌then◌else◌, Bool-cases, ◌>>=◌, max,
}
use rdc_tools.Uses.{any, find, keep}
use rdc_tools.Bundle.Rows.{Text, BundleResource}
use rdc_tools.Bundle.Usage.{Entry, UsageChain, usage_reads, usage_writes, usage_targets, meets}
use rdc_tools.Bundle.Detect.{
  ReadFinding, WriteFinding, TargetFinding, first_read, last_write, last_eid, writes_at,
  first_target, dead_in, bound_at, reads_at,
}

-- The event that a finding is of.
abbrev pub read_of : Option ReadFinding → Option ℕ
read_of found = found >>= λ f. some f.read

pub no_hit {ℓ} : {A : Type ℓ} (p : A → Bool) (xs : List A) → any p xs ≡ false → find p xs ≡ none
unfolding any find
no_hit p [] h = refl
no_hit p (x ∷ xs) h = ground (arith, no_hit p xs)

pub read_none :
    (resource : BundleResource) (chain : UsageChain)
    → find reads_at chain ≡ none
    → read_of (first_read resource chain) ≡ none
unfolding first_read
read_none resource chain e = rw (first_read, e) refl

pub read_some :
    (resource : BundleResource) (chain : UsageChain) (eid : ℕ) (names : List Text)
    → find reads_at chain ≡ some (eid, names)
    → read_of (first_read resource chain)
      ≡ (if any (λ (e, ns). leb e eid && meets usage_writes ns) chain then none else some eid)
unfolding first_read
read_some resource chain eid names e =
    rw (first_read, e)
      (elim (Bool-cases (any (λ (e, ns). leb e eid && meets usage_writes ns) chain)) [
        | inl t ↦ rw t refl
        | inr t ↦ rw t refl
      ])

abbrev pub target_of : Option TargetFinding → Option ℕ
target_of found = found >>= λ f. some f.target

any-keep {ℓ} :
    {A : Type ℓ} (p q : A → Bool) (xs : List A) → any q (keep p xs) ≡ any (λ x. p x && q x) xs
unfolding any keep
any-keep p q [] = refl
any-keep p q (x ∷ xs) = ground (arith, any-keep p q xs)

abbrev pub targets_at : Entry → Bool
targets_at (eid, names) = meets usage_targets names

pub target_none :
    (resource : BundleResource) (chain : UsageChain)
    → find targets_at chain ≡ none
    → target_of (first_target resource chain) ≡ none
unfolding first_target
target_none resource chain e = rw (first_target, e) refl

pub target_some :
    (resource : BundleResource) (chain : UsageChain) (eid : ℕ) (names : List Text)
    → find targets_at chain ≡ some (eid, names)
    → target_of (first_target resource chain)
      ≡ (if any (λ (e, ns). ltb e eid && meets usage_writes ns) chain then none else some eid)
unfolding first_target
target_some resource chain eid names e =
    let kept = any-keep (λ (e, ns). ltb e eid) (λ (e, ns). meets usage_writes ns) chain in
    rw (first_target, e, kept)
      (elim (Bool-cases (any (λ (e, ns). ltb e eid && meets usage_writes ns) chain)) [
        | inl t ↦ rw t refl
        | inr t ↦ rw t refl
      ])

abbrev pub write_of : Option WriteFinding → Option ℕ
write_of found = found >>= λ f. some f.write

pub last_none :
    (p : Entry → Bool) (m : ℕ) (chain : UsageChain)
    → last_eid p chain ≤ m
    → any (λ e. ltb m e.0 && p e) chain ≡ false
unfolding any
last_none p m [] h = refl
last_none p m (x ∷ chain) h = elim (Bool-cases (p x)) [
  | inl e ↦
      let le : max x.0 (last_eid p chain) ≤ m = rw e at h in
      ground (arith, last_none p m chain (omega arith))
  | inr e ↦ rw e (ground (arith, last_none p m chain (rw e at h)))
]

pub last_some :
    (p : Entry → Bool) (m : ℕ) (chain : UsageChain)
    → last_eid p chain ≡ m
    → 0 < m
    → any (λ e. (e.0 == m) && p e) chain ≡ true
unfolding any
last_some p m [] h l = ground arith
last_some p m (x ∷ chain) h l = elim (Bool-cases (p x)) [
  | inl e ↦
      let eq : max x.0 (last_eid p chain) ≡ m = rw e at h in ground (arith, last_some p m chain)
  | inr e ↦ rw e (ground (arith, last_some p m chain (rw e at h) l))
]

pub last_zero : (p : Entry → Bool) (chain : UsageChain) → any p chain ≡ false → last_eid p chain ≡ 0
unfolding any
last_zero p [] h = refl
last_zero p (x ∷ chain) h = ground (arith, last_zero p chain)

pub write_step :
    (resource : BundleResource) (chain : UsageChain) (eid : ℕ)
    → last_eid writes_at chain ≡ eid
    → write_of (last_write resource chain) ≡ (
        if eid == 0 || any (λ (e, ns). ltb eid e && meets usage_reads ns) chain
        then none
        else some eid)
unfolding last_write
write_step resource chain eid e =
    rw (last_write, e)
      (elim (Bool-cases (eid == 0 || any (λ (e, ns). ltb eid e && meets usage_reads ns) chain)) [
        | inl t ↦ rw t refl
        | inr t ↦ rw t refl
      ])

-- Whether there is a finding.
abbrev pub has {ℓ} : {A : Type ℓ} → Option A → Bool
has none = false
has (some x) = true

pub and_true : (a b : Bool) → (a && b) ≡ true → (a ≡ true) × (b ≡ true)
and_true a b h = ground arith

pub negated : (b : Bool) → not b ≡ true → b ≡ false
negated b h = ground arith

pub dead_step :
    (first last : ℕ) (resource : BundleResource) (chain : UsageChain)
    → has (dead_in first last resource chain) ≡ (
        any (bound_at first last) chain
        && not (any (λ (e, ns). ltb last e && meets usage_reads ns) chain))
unfolding dead_in
dead_step first last resource chain = elim (Bool-cases (any (bound_at first last) chain)) [
  | inl t ↦ elim (Bool-cases (any (λ (e, ns). ltb last e && meets usage_reads ns) chain)) [
    | inl u ↦ rw (dead_in, t, u) refl
    | inr u ↦ rw (dead_in, t, u) refl
  ]
  | inr t ↦ rw (dead_in, t) refl
]

abbrev pub last_write_fails : UsageChain → Bool
last_write_fails chain =
    last_eid writes_at chain == 0
    || any (λ (e, ns). ltb (last_eid writes_at chain) e && meets usage_reads ns) chain

pub or_false : (a b : Bool) → (a || b) ≡ false → (a ≡ false) × (b ≡ false)
or_false a b h = ground arith
