-- ===== src/Hazards/Track/Latest.antt =====
-- What `_state_at` answers of a track that `_state_track` has filled.
use rdc_tools.Prelude.{
  ℕ, ◌≤◌, ◌≡◌, refl, sym, ap, ◌∙◌, arith, inl, inr, true, false, ◌&&◌, Option, none, some, List, [],
  ◌∷◌, Bool-cases, leb, ltb, leb→le, ◌==◌, if◌then◌else◌, ◌>>=◌,
}
use rdc_tools.Names.{ChunkNames}
use rdc_tools.Stream.Walk.{iter_chunks, Ending, returned, raised, raised_struct_error, out_of_fuel}
use rdc_tools.Hazards.Track.{
  Row, Claim, Tracked, all_subresources, is_whole, same_key, rows_of, claimed_row, claim_all,
  nothing_tracked, if_returned, claims_from, state_track, state_from, state_at,
}
use rdc_tools.Hazards.Track.Rows.{rows_in, claimed_row-is_whole, rows_of-claim_all}
use rdc_tools.Hazards.Track.Order.{IsOrdered, claims_from-IsOrdered}

-- The state of the last claim on the whole resource, on one command list and before an event.
unfoldable pub last_claim : ℕ → ℕ → ℕ → Option ℕ → List Claim → Option ℕ
last_claim list_id rid eid state [] = state
last_claim list_id rid eid state (c ∷ cs) =
    last_claim list_id rid eid
      (if same_key list_id rid c.list_id c.rid && (is_whole c.subresource && ltb c.eid eid)
        then some c.after
        else state)
      cs

rest-IsOrdered : (n : ℕ) (c : Claim) (cs : List Claim) → IsOrdered n (c ∷ cs) → IsOrdered c.eid cs
unfolding IsOrdered
rest-IsOrdered n c cs o = o.1

from_here :
    (n : ℕ) (c : Claim) (cs : List Claim) {m : ℕ}
    → IsOrdered n (c ∷ cs)
    → m ≤ c.eid
    → IsOrdered m (c ∷ cs)
unfolding IsOrdered
from_here n c cs o h = (h, o.1)

module _ (l r eid : ℕ) where
  last_claim_passes :
      (state : Option ℕ) (c : Claim) (cs : List Claim)
      → same_key l r c.list_id c.rid && (is_whole c.subresource && ltb c.eid eid) ≡ false
      → last_claim l r eid state (c ∷ cs) ≡ last_claim l r eid state cs
  unfolding last_claim
  last_claim_passes state c cs e = rw (last_claim, e)

  -- Claims that are not before the event change nothing.
  last_claim_late :
      (state : Option ℕ) (n : ℕ) (cs : List Claim)
      → IsOrdered n cs
      → eid ≤ n
      → last_claim l r eid state cs ≡ state
  unfolding IsOrdered
  last_claim_late state n [] o h = unfold last_claim in refl
  last_claim_late state n (c ∷ cs) (o, p) h =
      last_claim_passes state c cs (ground (arith, h, o))
      ∙ last_claim_late state c.eid cs p (omega (arith, h, o))

  rows_in_other :
      (c : Claim) (cs : List Claim)
      → same_key l r c.list_id c.rid ≡ false
      → rows_in l r (c ∷ cs) ≡ rows_in l r cs
  unfolding rows_in
  rows_in_other c cs e = rw (rows_in, e)

  rows_in_own :
      (c : Claim) (cs : List Claim)
      → same_key l r c.list_id c.rid ≡ true
      → rows_in l r (c ∷ cs) ≡ claimed_row c ∷ rows_in l r cs
  unfolding rows_in
  rows_in_own c cs e = rw (rows_in, e)

  state_from_late :
      (state : Option ℕ) (row : Row) (rows : List Row)
      → leb eid row.row_eid ≡ true
      → state_from eid state (row ∷ rows) ≡ state
  unfolding state_from
  state_from_late state row rows e = rw (state_from, e)

  state_from_early :
      (state : Option ℕ) (row : Row) (rows : List Row)
      → leb eid row.row_eid ≡ false
      → state_from eid state (row ∷ rows)
        ≡ state_from eid (if row.sub == all_subresources then some row.word else state) rows
  unfolding state_from
  state_from_early state row rows e = rw (state_from, e)

  -- What a claim before the event leaves behind.
  early_claim :
      (state : Option ℕ) (c : Claim) (cs : List Claim)
      → same_key l r c.list_id c.rid ≡ true
      → leb eid c.eid ≡ false
      → last_claim l r eid state (c ∷ cs)
        ≡ last_claim l r eid
            (if (claimed_row c).sub == all_subresources then some c.after else state)
            cs
  unfolding last_claim
  early_claim state c cs e f =
      let g : (is_whole c.subresource && ltb c.eid eid) ≡ is_whole c.subresource =
        ground (arith, f) in
      rw (last_claim, claimed_row-is_whole c, e, g)

  state_from-rows_in :
      (n : ℕ) (state : Option ℕ) (cs : List Claim)
      → IsOrdered n cs
      → state_from eid state (rows_in l r cs) ≡ last_claim l r eid state cs
  state_from-rows_in n state [] o = unfold rows_in in unfold state_from in unfold last_claim in refl
  state_from-rows_in n state (c ∷ cs) o = elim (Bool-cases (same_key l r c.list_id c.rid)) [
    | inr e ↦
        ap (state_from eid state) (rows_in_other c cs e)
        ∙ state_from-rows_in c.eid state cs (rest-IsOrdered n c cs o)
        ∙ sym (last_claim_passes state c cs (rw e))
    | inl e ↦ ap (state_from eid state) (rows_in_own c cs e) ∙ (elim (Bool-cases (leb eid c.eid)) [
      | inl f ↦
          state_from_late state (claimed_row c) (rows_in l r cs) f
          ∙ sym
              (last_claim_late state eid (c ∷ cs) (from_here n c cs o (leb→le _ _ f)) (omega arith))
      | inr f ↦
          state_from_early state (claimed_row c) (rows_in l r cs) f
          ∙ state_from-rows_in c.eid _ cs (rest-IsOrdered n c cs o)
          ∙ sym (early_claim state c cs e f)
    ])
  ]

ended :
    (e : Ending) (o : Option (List Claim)) (t : Tracked)
    → if_returned e (o >>= λ cs. some (claim_all nothing_tracked cs)) ≡ some t
    → (cs : List Claim) × (o ≡ some cs) × (t ≡ claim_all nothing_tracked cs)
ended returned none t h = cc
ended returned (some cs) t h = (cs, refl, cc)
ended (raised x) o t h = cc
ended raised_struct_error o t h = cc
ended out_of_fuel o t h = cc

-- A track that is returned is that of the stream's claims, in the order of their events.
pub tracked_claims :
    (names : ChunkNames) (stream : List ℕ) (t : Tracked)
    → state_track names stream ≡ some t
    → (cs : List Claim) × (claims_from names stream 1 (iter_chunks stream 0 false).chunks ≡ some cs)
      × (t ≡ claim_all nothing_tracked cs)
unfolding state_track
tracked_claims names stream t h = ended (iter_chunks stream 0 false).ending _ t h

-- The state that _state_at gives a resource on a command list before an event is that of the last
-- transition of the whole resource that the list records before the event, and none where the list
-- records no such transition.
pub state_at-state_track :
    (names : ChunkNames) (stream : List ℕ) (t : Tracked) (rid list_id eid : ℕ)
    → state_track names stream ≡ some t
    → (cs : List Claim) × (claims_from names stream 1 (iter_chunks stream 0 false).chunks ≡ some cs)
      × (state_at t.track rid list_id eid ≡ last_claim list_id rid eid none cs)
unfolding state_at rows_of
state_at-state_track names stream t rid list_id eid h =
    let (cs, e, f) = tracked_claims names stream t h in
    (
      cs,
      e,
      ap (λ t. state_from eid none (rows_of t.track list_id rid)) f
          ∙ ap (state_from eid none) (rows_of-claim_all cs nothing_tracked list_id rid)
          ∙ state_from-rows_in list_id rid eid 1 none cs
              (claims_from-IsOrdered names stream (iter_chunks stream 0 false).chunks 1 cs e),
    )
