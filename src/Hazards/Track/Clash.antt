-- ===== src/Hazards/Track/Clash.antt =====
-- Which resources `_state_track` leaves ambiguous.
use rdc_tools.Prelude.{
  ℕ, ◌≡◌, refl, sym, ap, ◌∙◌, arith, inl, inr, Bool, true, false, not, ◌&&◌, ◌||◌, some, List, [],
  ◌∷◌, ◌++◌, append_assoc, append-nil, Bool-cases, ◌==◌, if◌then◌else◌,
}
use rdc_tools.Names.{ChunkNames}
use rdc_tools.Stream.Walk.{iter_chunks}
use rdc_tools.Uses.{any}
use rdc_tools.Hazards.Track.{
  Row, Claim, Tracked, is_whole, same_key, rows_of, claimed_row, other_part, other_whole, disagrees,
  claim, claim_all, nothing_tracked, claims_from, state_track,
}
use rdc_tools.Hazards.Track.Rows.{rows_in, rows_of-claim, claimed_row-is_whole}
use rdc_tools.Hazards.Track.Latest.{tracked_claims}

-- Two claims of one command list on one resource, one on the whole of it and one on a part, that
-- leave it in two states.
abbrev pub clash : Claim → Claim → Bool
clash c d =
    same_key c.list_id c.rid d.list_id d.rid
    && (not (d.after == c.after)
        && (if is_whole c.subresource
            then not (is_whole d.subresource)
            else is_whole d.subresource))

-- A claim on a resource clashes with one that comes before it.
unfoldable pub has_clash : ℕ → List Claim → List Claim → Bool
has_clash rid earlier [] = false
has_clash rid earlier (c ∷ cs) =
    (c.rid == rid && any (clash c) earlier) || has_clash rid (earlier ++ (c ∷ [])) cs

abbrev pub contains : ℕ → List ℕ → Bool
contains x xs = any (λ y. y == x) xs

or_assoc : (a b c : Bool) → ((a || b) || c) ≡ (a || (b || c))
or_assoc a b c = ground arith

module _ {ℓ} {A : Type ℓ} where
  any-append : (p : A → Bool) (xs ys : List A) → any p (xs ++ ys) ≡ (any p xs || any p ys)
  unfolding any
  any-append p [] ys = refl
  any-append p (x ∷ xs) ys = rw (any-append p xs ys) (sym (or_assoc (p x) _ _))

  any_cong : (p q : A → Bool) → ((a : A) → p a ≡ q a) → (xs : List A) → any p xs ≡ any q xs
  unfolding any
  any_cong p q h [] = refl
  any_cong p q h (x ∷ xs) = rw (h x, any_cong p q h xs)

any-rows_in :
    (p : Row → Bool) (l r : ℕ) (cs : List Claim)
    → any p (rows_in l r cs) ≡ any (λ d. same_key l r d.list_id d.rid && p (claimed_row d)) cs
unfolding any rows_in
any-rows_in p l r [] = refl
any-rows_in p l r (c ∷ cs) = elim (Bool-cases (same_key l r c.list_id c.rid)) [
  | inl e ↦ rw (e, any-rows_in p l r cs)
  | inr e ↦ rw (e, any-rows_in p l r cs)
]

-- A row that its claim has just left does not disagree with it.
own_row : (c : Claim) → disagrees c (claimed_row c ∷ []) ≡ false
unfolding disagrees any
own_row c = let w = claimed_row-is_whole c in ground (arith, w)

disagrees-append :
    (c : Claim) (xs ys : List Row) → disagrees c (xs ++ ys) ≡ (disagrees c xs || disagrees c ys)
unfolding disagrees
disagrees-append c xs ys = elim (Bool-cases (is_whole c.subresource)) [
  | inl e ↦ rw e (any-append (other_part c.after) xs ys)
  | inr e ↦ rw e (any-append (other_whole c.after) xs ys)
]

or_false : (a : Bool) → (a || false) ≡ a
or_false a = ground arith

-- The rows that a claim disagrees with are those of the claims that it clashes with.
disagrees-rows_in :
    (c : Claim) (cs : List Claim) → disagrees c (rows_in c.list_id c.rid cs) ≡ any (clash c) cs
unfolding disagrees
disagrees-rows_in c cs = elim (Bool-cases (is_whole c.subresource)) [
  | inl e ↦ rw e (
      any-rows_in (other_part c.after) c.list_id c.rid cs
      ∙ any_cong _ (clash c) (λ d. rw (e, claimed_row-is_whole d)) cs)
  | inr e ↦ rw e (
      any-rows_in (other_whole c.after) c.list_id c.rid cs
      ∙ any_cong _ (clash c) (λ d. rw (e, claimed_row-is_whole d)) cs)
]

-- What a claim is compared with, on a track that holds the rows of the claims before it.
disagrees-claim :
    (t : Tracked) (c : Claim) (earlier : List Claim)
    → rows_of t.track c.list_id c.rid ≡ rows_in c.list_id c.rid earlier
    → disagrees c (rows_of (claim t c).track c.list_id c.rid) ≡ any (clash c) earlier
disagrees-claim t c earlier e =
    let same : same_key c.list_id c.rid c.list_id c.rid ≡ true = ground arith in
    ap (disagrees c) (rows_of-claim t c c.list_id c.rid ∙ rw (e, same))
    ∙ disagrees-append c (rows_in c.list_id c.rid earlier) (claimed_row c ∷ [])
    ∙ rw (own_row c, disagrees-rows_in c earlier) (or_false (any (clash c) earlier))

contains-if :
    (b : Bool) (x y : ℕ) (xs : List ℕ)
    → contains y (if b then x ∷ xs else xs) ≡ (contains y xs || (x == y && b))
unfolding any
contains-if true x y xs = ground arith
contains-if false x y xs = ground arith

rows_in-snoc :
    (l r : ℕ) (c : Claim) (cs : List Claim)
    → rows_in l r (cs ++ (c ∷ []))
      ≡ rows_in l r cs ++ (if same_key l r c.list_id c.rid then claimed_row c ∷ [] else [])
unfolding rows_in
rows_in-snoc l r c [] = append-nil _
rows_in-snoc l r c (d ∷ cs) = rw (rows_in-snoc l r c cs) (sym (append_assoc _ (rows_in l r cs) _))

HoldsRows : Tracked → List Claim → Type 0
HoldsRows t cs = (l r : ℕ) → rows_of t.track l r ≡ rows_in l r cs

claim-HoldsRows :
    (t : Tracked) (c : Claim) (cs : List Claim)
    → HoldsRows t cs
    → HoldsRows (claim t c) (cs ++ (c ∷ []))
unfolding HoldsRows
claim-HoldsRows t c cs h l r = rows_of-claim t c l r ∙ rw (h l r, rows_in-snoc l r c cs)

claim_ambiguous :
    (t : Tracked) (c : Claim) (earlier : List Claim) (rid : ℕ)
    → HoldsRows t earlier
    → contains rid (claim t c).ambiguous
      ≡ (contains rid t.ambiguous || (c.rid == rid && any (clash c) earlier))
unfolding HoldsRows claim
claim_ambiguous t c earlier rid h =
    let d = disagrees-claim t c earlier (h c.list_id c.rid) in
    contains-if _ c.rid rid t.ambiguous ∙ rw d

ambiguous_iff_clash :
    (cs : List Claim) (t : Tracked) (earlier : List Claim) (rid : ℕ)
    → HoldsRows t earlier
    → contains rid (claim_all t cs).ambiguous
      ≡ (contains rid t.ambiguous || has_clash rid earlier cs)
unfolding claim_all has_clash
ambiguous_iff_clash [] t earlier rid h = sym (or_false (contains rid t.ambiguous))
ambiguous_iff_clash (c ∷ cs) t earlier rid h =
    ambiguous_iff_clash cs (claim t c) (earlier ++ (c ∷ [])) rid (claim-HoldsRows t c earlier h)
    ∙ ap (λ b. b || has_clash rid (earlier ++ (c ∷ [])) cs) (claim_ambiguous t c earlier rid h)
    ∙ or_assoc (contains rid t.ambiguous) _ _

-- The resources that _state_track leaves ambiguous are those with two transitions on one command list,
-- one of the whole resource and one of a part, that leave it in two states.
pub ambiguous-state_track :
    (names : ChunkNames) (stream : List ℕ) (t : Tracked) (rid : ℕ)
    → state_track names stream ≡ some t
    → (cs : List Claim) × (claims_from names stream 1 (iter_chunks stream 0 false).chunks ≡ some cs)
      × (contains rid t.ambiguous ≡ has_clash rid [] cs)
unfolding HoldsRows rows_of rows_in any
ambiguous-state_track names stream t rid h =
    let (cs, e, f) = tracked_claims names stream t h in
    (
      cs,
      e,
      ap (λ t. contains rid t.ambiguous) f
          ∙ ambiguous_iff_clash cs nothing_tracked [] rid (λ l r. refl),
    )
