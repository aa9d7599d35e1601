-- ===== src/Uses/Record/Transition.antt =====
-- What one barrier payload adds to the use list of each resource.
use Prim.Native.String.{String}
use text.Mathlib.Text.{◌==◌ as str_eq}
use rdc_tools.Prelude.{
  ℕ, ◌≡◌, refl, inl, inr, Bool, true, false, some, List, [], ◌∷◌, ◌++◌, codes, if◌then◌else◌,
  Bool-cases,
}
use rdc_tools.Uses.{discards, discard, barrier, access_of}
use rdc_tools.Barriers.{
  Decoded, parsed, refused, struct_error, BarrierKind, BarrierInfo, transition, aliasing,
  GroupBarrier, parse_barriers, parse_barrier_groups,
}
use rdc_tools.Uses.Record.{
  UseLedger, state_writes, state_reads, barrier_text, kind_use, entry_uses, group_access,
  group_text, drops_contents, drop_use, group_uses, barrier_uses, BarrierAnswer, read_whole,
  not_read, raised,
}
use rdc_tools.Uses.Record.Recorded.{
  uses_of, Claim, uses_in, Adds, skip-Adds, record_use-Adds, append-Adds, cons-Adds,
}

-- A transition into a state that reads or writes is a use; a discard is one beside its barrier's.
abbrev pub kind_claim : BarrierKind → BarrierInfo → List Claim
kind_claim transition e =
    record {
      resource = e.resource;
      access = access_of state_writes state_reads e.after;
      how = barrier;
      detail = barrier_text e.before e.after;
    }
    ∷ []
kind_claim _ e = []

abbrev pub entry_claims : List BarrierInfo → List Claim
entry_claims [] = []
entry_claims (e ∷ entries) = kind_claim e.kind e ++ entry_claims entries

abbrev pub drop_claims : GroupBarrier → Bool → List Claim
drop_claims g false = []
drop_claims g true =
    record {
      resource = g.resource;
      access = some discards;
      how = discard;
      detail = codes "barrier discard";
    }
    ∷ []

abbrev pub group_claims : List GroupBarrier → List Claim
group_claims [] = []
group_claims (g ∷ groups) =
    record { resource = g.resource; access = group_access g; how = barrier; detail = group_text g }
    ∷ (drop_claims g (drops_contents g) ++ group_claims groups)

-- What a payload claims, with the outcome of its parser.
abbrev pub blob_claims : String → List ℕ → Decoded (List Claim)
blob_claims call blob =
    if str_eq call "List_ResourceBarrier"
    then (elim (parse_barriers blob) [
      | parsed entries ↦ parsed (entry_claims entries)
      | refused ↦ refused
      | struct_error ↦ struct_error
    ])
    else (elim (parse_barrier_groups blob) [
      | parsed groups ↦ parsed (group_claims groups)
      | refused ↦ refused
      | struct_error ↦ struct_error
    ])

module _ (eid : ℕ) (call : String) (rid : ℕ) where
  kind_use-Adds :
      (kind : BarrierKind) (e : BarrierInfo)
      → Adds eid call rid (kind_claim kind e) (kind_use eid call kind e)
  kind_use-Adds transition e =
      record_use-Adds eid call rid e.resource (access_of state_writes state_reads e.after) barrier
        (barrier_text e.before e.after)
  kind_use-Adds aliasing e = skip-Adds eid call rid
  kind_use-Adds BarrierKind.uav e = skip-Adds eid call rid

  entry_uses-Adds :
      (entries : List BarrierInfo)
      → Adds eid call rid (entry_claims entries) (entry_uses eid call entries)
  unfolding entry_uses
  entry_uses-Adds [] = skip-Adds eid call rid
  entry_uses-Adds (e ∷ entries) =
      append-Adds eid call rid (kind_claim e.kind e) (entry_claims entries)
        (kind_use eid call e.kind e) (entry_uses eid call entries) (kind_use-Adds e.kind e)
        (entry_uses-Adds entries)

  drop_use-Adds :
      (g : GroupBarrier) (drops : Bool)
      → Adds eid call rid (drop_claims g drops) (drop_use eid call g drops)
  drop_use-Adds g false = skip-Adds eid call rid
  drop_use-Adds g true =
      record_use-Adds eid call rid g.resource (some discards) discard (codes "barrier discard")

  group_uses-Adds :
      (groups : List GroupBarrier)
      → Adds eid call rid (group_claims groups) (group_uses eid call groups)
  unfolding group_uses
  group_uses-Adds [] = skip-Adds eid call rid
  group_uses-Adds (g ∷ groups) =
      cons-Adds eid call rid g.resource (group_access g) barrier (group_text g)
        (drop_claims g (drops_contents g) ++ group_claims groups)
        (λ l. group_uses eid call groups (drop_use eid call g (drops_contents g) l))
        (append-Adds eid call rid (drop_claims g (drops_contents g)) (group_claims groups)
          (drop_use eid call g (drops_contents g)) (group_uses eid call groups)
          (drop_use-Adds g (drops_contents g)) (group_uses-Adds groups))

  -- The answer and the ledger behind the payload: as it was, unless the payload is read whole, and then
  -- with the uses of its claims.
  unfoldable pub IsRecorded : UseLedger → Decoded (List Claim) → BarrierAnswer × UseLedger → Type 0
  IsRecorded ledger (parsed cs) (answer, after) =
      (answer ≡ read_whole) × (uses_of rid after ≡ uses_of rid ledger ++ uses_in eid call rid cs)
  IsRecorded ledger refused (answer, after) = (answer ≡ not_read) × (after ≡ ledger)
  IsRecorded ledger struct_error (answer, after) = (answer ≡ raised) × (after ≡ ledger)

  entries-IsRecorded :
      (ledger : UseLedger) (d : Decoded (List BarrierInfo))
      → IsRecorded ledger
          (elim d [
            | parsed entries ↦ parsed (entry_claims entries)
            | refused ↦ refused
            | struct_error ↦ struct_error
          ])
          (elim d [
            | parsed entries ↦ (read_whole, entry_uses eid call entries ledger)
            | refused ↦ (not_read, ledger)
            | struct_error ↦ (raised, ledger)
          ])
  unfolding IsRecorded
  entries-IsRecorded ledger (parsed entries) = (refl, entry_uses-Adds entries ledger)
  entries-IsRecorded ledger refused = (refl, refl)
  entries-IsRecorded ledger struct_error = (refl, refl)

  groups-IsRecorded :
      (ledger : UseLedger) (d : Decoded (List GroupBarrier))
      → IsRecorded ledger
          (elim d [
            | parsed groups ↦ parsed (group_claims groups)
            | refused ↦ refused
            | struct_error ↦ struct_error
          ])
          (elim d [
            | parsed groups ↦ (read_whole, group_uses eid call groups ledger)
            | refused ↦ (not_read, ledger)
            | struct_error ↦ (raised, ledger)
          ])
  unfolding IsRecorded
  groups-IsRecorded ledger (parsed groups) = (refl, group_uses-Adds groups ledger)
  groups-IsRecorded ledger refused = (refl, refl)
  groups-IsRecorded ledger struct_error = (refl, refl)

  -- A barrier payload that is read whole adds to the use list of a resource, at its end, a use for each
  -- of its entries that names the resource and whose state, access or layout reads or writes, and one
  -- for each discard, in order. One that its parser refuses or fails on leaves the whole ledger as it
  -- was. The answer is True, False and the exception in turn.
  pub barrier_uses-IsRecorded :
      (blob : List ℕ) (ledger : UseLedger)
      → IsRecorded ledger (blob_claims call blob) (barrier_uses eid call blob ledger)
  unfolding barrier_uses
  barrier_uses-IsRecorded blob ledger = elim (Bool-cases (str_eq call "List_ResourceBarrier")) [
    | inl e ↦ rw e (entries-IsRecorded ledger (parse_barriers blob))
    | inr e ↦ rw e (groups-IsRecorded ledger (parse_barrier_groups blob))
  ]
