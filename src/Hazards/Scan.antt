-- ===== src/Hazards/Scan.antt =====
-- The uses' half of `scan_hazards` in src/py/rdc_hazards.py: the uses of the ledger against the states
-- of the track. The ledger's resources are a list in the order of their ids, and the resource table is
-- the names that it gives the ids. The sorting of the findings is left out.
pub mod Found
use rdc_tools.Prelude.{
  ℕ, ◌+◌, Bool, true, false, Option, none, some, List, [], ◌∷◌, ◌++◌, ◌==◌, if◌then◌else◌, codes,
}
use rdc_tools.Uses.{How, barrier, discard, UseInfo, ResourceUse}
use rdc_tools.Names.{ChunkNames}
use rdc_tools.Stream.Walk.{iter_chunks}
use rdc_tools.Barriers.{Decoded, parsed, refused, struct_error}
use rdc_tools.Barriers.Words.{state_text}
use rdc_tools.Hazards.States.{Certainty, check_state, without_list}
use rdc_tools.Hazards.Track.{state_track, list_at, Tracked, state_at}
use rdc_tools.Hazards.Track.Clash.{contains}

-- `KIND_STATE` and `KIND_LOOP`
pub data HazardKind : Type 0 where
  state_kind loop_kind : HazardKind

pub record HazardFinding : Type 0 where
  pub kind : HazardKind
  pub certainty : Certainty
  pub rid : ℕ
  pub name : List ℕ
  pub eid : ℕ
  pub call : List ℕ
  pub how : How
  pub detail : List ℕ
  pub state : List ℕ
  pub needed : List ℕ

pub record HazardCounts : Type 0 where
  pub findings : List HazardFinding
  pub uses : ℕ
  pub unknown : ℕ

-- `use['how'] in ('barrier', 'discard')`
abbrev pub is_passed : How → Bool
is_passed barrier = true
is_passed discard = true
is_passed _ = false

module _ (t : Tracked) (lists : ℕ → ℕ) (table : ℕ → List ℕ) where
  -- `_state_at(...) if list_id else None`
  abbrev pub use_state : ℕ → UseInfo → Option ℕ
  use_state rid u = if lists u.eid == 0 then none else state_at t.track rid (lists u.eid) u.eid

  abbrev pub state_finding : ℕ → UseInfo → ℕ → Certainty × ℕ → HazardFinding
  state_finding rid u state (sure, needed) = record {
    kind = state_kind;
    certainty = sure;
    rid = rid;
    name = table rid;
    eid = u.eid;
    call = without_list 0 (codes u.call);
    how = u.how;
    detail = u.detail;
    state = state_text state;
    needed = state_text needed;
  }

  unfoldable pub scan_use : ℕ → HazardCounts → UseInfo → HazardCounts
  scan_use rid counts u =
      let counted = counts.uses + 1 in
      if is_passed u.how then counts else (elim (use_state rid u) [
        | none ↦ record { findings = counts.findings; uses = counted; unknown = counts.unknown + 1 }
        | some state ↦ elim (check_state u.how u.call state) [
          | none ↦ record { findings = counts.findings; uses = counted; unknown = counts.unknown }
          | some verdict ↦ record {
            findings = counts.findings ++ (state_finding rid u state verdict ∷ []);
            uses = counted;
            unknown = counts.unknown;
          }
        ]
      ])

  unfoldable pub scan_uses : ℕ → HazardCounts → List UseInfo → HazardCounts
  scan_uses rid counts [] = counts
  scan_uses rid counts (u ∷ us) = scan_uses rid (scan_use rid counts u) us

  unfoldable pub scan_states : HazardCounts → List (ℕ × ResourceUse) → HazardCounts
  scan_states counts [] = counts
  scan_states counts ((rid, record') ∷ resources) =
      scan_states (if contains rid t.ambiguous then counts else scan_uses rid counts record'.uses)
        resources

abbrev pub no_counts : HazardCounts
no_counts = record { findings = []; uses = 0; unknown = 0 }

-- `lists.get(eid, 0)`
abbrev pub lists_of : ChunkNames → List ℕ → ℕ → ℕ
lists_of names stream eid = list_at names stream 1 (iter_chunks stream 0 false).chunks eid

-- The track of the stream, and the ledger's uses against it; `refused` is the None of a map with no
-- name.
unfoldable pub scan_hazards :
    ChunkNames → List ℕ → (ℕ → List ℕ) → List (ℕ × ResourceUse) → Decoded HazardCounts
scan_hazards [] stream table resources = refused
scan_hazards (entry ∷ names) stream table resources = elim (state_track (entry ∷ names) stream) [
  | none ↦ struct_error
  | some t ↦ parsed (scan_states t (lists_of (entry ∷ names) stream) table no_counts resources)
]
