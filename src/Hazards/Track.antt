-- ===== src/Hazards/Track.antt =====
-- `_state_track` and `_state_at` of src/py/rdc_hazards.py: the states
-- that each command list's barriers leave a resource in. The dictionaries are association lists, each
-- with a key once, and the set of ambiguous resources is a list. `none` is the `struct.error` of a
-- barrier payload.
pub mod Rows
pub mod Order
pub mod Clash
pub mod Latest
use Prim.Native.String.{String}
use rdc_tools.Prelude.{
  ℕ, zero, suc, ◌+◌, Bool, true, false, not, ◌&&◌, ◌||◌, Option, none, some, List, [], ◌∷◌, ◌++◌,
  length, leb, ltb, ◌==◌, if◌then◌else◌, ◌>>=◌,
}
use rdc_tools.Names.{
  ChunkNames, name_of, is_in, draw_chunks, clear_chunks, copy_chunks, resolve_chunks,
  discard_chunks, barrier_chunks,
}
use rdc_tools.Stream.Words.{u64}
use rdc_tools.Stream.Frame.{ChunkInfo, chunk_payload}
use rdc_tools.Stream.Walk.{iter_chunks, Ending, returned}
use rdc_tools.Barriers.{
  Decoded, parsed, refused, struct_error, BarrierKind, transition, BarrierInfo, GroupBarrier,
  parse_barriers, parse_barrier_groups,
}
use rdc_tools.Uses.{any, How, barrier, discard, UseInfo, ResourceUse}
use rdc_tools.Hazards.States.{access_state, check_state}

abbrev pub all_subresources : ℕ
all_subresources = 0xffffffff

-- `sub in WHOLE_RESOURCE`
abbrev pub is_whole : ℕ → Bool
is_whole sub = sub == 0 || sub == all_subresources

-- One row of the track: the event, the subresource and the state.
pub record Row : Type 0 where
  pub row_eid : ℕ
  pub sub : ℕ
  pub word : ℕ

-- The arguments of one call of `claim`.
pub record Claim : Type 0 where
  pub rid : ℕ
  pub list_id : ℕ
  pub subresource : ℕ
  pub after : ℕ
  pub eid : ℕ

abbrev pub Rows : Type 0
Rows = List (ℕ × ℕ × List Row)

pub record Tracked : Type 0 where
  pub track : Rows
  pub ambiguous : List ℕ
  pub transitions : ℕ

abbrev pub same_key : ℕ → ℕ → ℕ → ℕ → Bool
same_key l r list_id rid = l == list_id && r == rid

-- `track.get((list_id, rid), ())`
unfoldable pub rows_of : Rows → ℕ → ℕ → List Row
rows_of [] l r = []
rows_of ((list_id, rid, rows) ∷ track) l r =
    if same_key l r list_id rid then rows else rows_of track l r

-- `track.setdefault((list_id, rid), []).append(row)`
unfoldable pub append_row : Rows → ℕ → ℕ → Row → Rows
append_row [] l r row = (l, r, row ∷ []) ∷ []
append_row ((list_id, rid, rows) ∷ track) l r row =
    let rest = append_row track l r row in
    if same_key l r list_id rid
    then (list_id, rid, rows ++ (row ∷ [])) ∷ track
    else (list_id, rid, rows) ∷ rest

-- Another state, in a row for a part of the resource or in one for the whole.
abbrev pub other_part : ℕ → Row → Bool
other_part after row = not (row.word == after) && not (row.sub == all_subresources)

abbrev pub other_whole : ℕ → Row → Bool
other_whole after row = not (row.word == after) && row.sub == all_subresources

abbrev pub claimed_row : Claim → Row
claimed_row c = record {
  row_eid = c.eid;
  sub = if is_whole c.subresource then all_subresources else c.subresource;
  word = c.after;
}

unfoldable pub disagrees : Claim → List Row → Bool
disagrees c rows =
    if is_whole c.subresource then any (other_part c.after) rows else any (other_whole c.after) rows

unfoldable pub claim : Tracked → Claim → Tracked
claim t c =
    let track = append_row t.track c.list_id c.rid (claimed_row c) in
    record {
      track = track;
      ambiguous =
          if disagrees c (rows_of track c.list_id c.rid) then c.rid ∷ t.ambiguous else t.ambiguous;
      transitions = t.transitions + 1;
    }

unfoldable pub claim_all : Tracked → List Claim → Tracked
claim_all t [] = t
claim_all t (c ∷ cs) = claim_all (claim t c) cs

abbrev pub is_transition : BarrierInfo → Bool
is_transition entry = elim entry.kind [ transition ↦ true | _ ↦ false ]

-- `entry['kind'] != 'transition' or not entry['resource']` passes an entry over.
unfoldable pub entry_claims : ℕ → ℕ → List BarrierInfo → List Claim
entry_claims list_id eid [] = []
entry_claims list_id eid (entry ∷ entries) =
    let rest = entry_claims list_id eid entries in
    if is_transition entry && not (entry.resource == 0)
    then (record {
      rid = entry.resource;
      list_id = list_id;
      subresource = entry.subresource;
      after = entry.after;
      eid = eid;
    }
        ∷ rest)
    else rest

unfoldable pub group_claims : ℕ → ℕ → List GroupBarrier → List Claim
group_claims list_id eid [] = []
group_claims list_id eid (group ∷ groups) =
    let rest = group_claims list_id eid groups in
    if group.resource == 0
    then rest
    else (record {
      rid = group.resource;
      list_id = list_id;
      subresource = all_subresources;
      after = access_state group.access group.layout;
      eid = eid;
    }
        ∷ rest)

-- The claims of one barrier chunk, by the form that reads it.
unfoldable pub payload_claims : List ℕ → ℕ → ℕ → Option (List Claim)
payload_claims blob list_id eid = elim (parse_barriers blob) [
  | parsed entries ↦ some (entry_claims list_id eid entries)
  | refused ↦ elim (parse_barrier_groups blob) [
    | parsed groups ↦ some (group_claims list_id eid groups)
    | refused ↦ some []
    | struct_error ↦ none
  ]
  | struct_error ↦ none
]

abbrev pub in_list_chunks : String → Bool
in_list_chunks name =
    is_in name draw_chunks
    || is_in name clear_chunks
    || is_in name copy_chunks
    || is_in name resolve_chunks
    || is_in name discard_chunks
    || is_in name barrier_chunks

module _ (names : ChunkNames) (stream : List ℕ) where
  -- The command list that a chunk names, where it names one.
  unfoldable pub list_of : ChunkInfo → Option ℕ
  list_of ch =
      if in_list_chunks (name_of names ch.id) then u64 (chunk_payload stream ch) 0 else none

  abbrev pub chunk_claims : ChunkInfo → ℕ → Option (List Claim)
  chunk_claims ch eid = elim (list_of ch) [
    | none ↦ some []
    | some list_id ↦
        if is_in (name_of names ch.id) barrier_chunks
        then payload_claims (chunk_payload stream ch) list_id eid
        else some []
  ]

  -- The loop from a chunk's number on, and all that it hands to `claim`.
  unfoldable pub claims_from : ℕ → List ChunkInfo → Option (List Claim)
  claims_from eid [] = some []
  claims_from eid (ch ∷ chunks) = do
    here ← chunk_claims ch eid
    rest ← claims_from (suc eid) chunks
    some (here ++ rest)

  -- `lists.get(eid, 0)` of the chunks from a number on.
  unfoldable pub list_at : ℕ → List ChunkInfo → ℕ → ℕ
  list_at i [] eid = 0
  list_at i (ch ∷ chunks) eid =
      let rest = list_at (suc i) chunks eid in
      if eid == i then (elim (list_of ch) [ none ↦ 0 | some list_id ↦ list_id ]) else rest

abbrev pub nothing_tracked : Tracked
nothing_tracked = record { track = []; ambiguous = []; transitions = 0 }

abbrev pub if_returned {ℓ} : {A : Type ℓ} → Ending → Option A → Option A
if_returned returned o = o
if_returned _ o = none

unfoldable pub state_track : ChunkNames → List ℕ → Option Tracked
state_track names stream =
    let walked = iter_chunks stream 0 false in
    if_returned walked.ending (do
      claims ← claims_from names stream 1 walked.chunks
      some (claim_all nothing_tracked claims))

-- `_state_at`, from a row and a state on.
unfoldable pub state_from : ℕ → Option ℕ → List Row → Option ℕ
state_from eid state [] = state
state_from eid state (row ∷ rows) =
    let rest = state_from eid (if row.sub == all_subresources then some row.word else state) rows in
    if leb eid row.row_eid then state else rest

unfoldable pub state_at : Rows → ℕ → ℕ → ℕ → Option ℕ
state_at track rid list_id eid = state_from eid none (rows_of track list_id rid)
