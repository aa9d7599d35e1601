-- ===== src/Tests/Records.antt =====
-- One draw and one barrier payload.
use rdc_tools.Prelude.{
  ℕ, ◌≡◌, ◌≢◌, refl, ◌==◌, if◌then◌else◌, length, replicate, false, none, some, List, [], ◌∷◌, ◌++◌,
  sorted_by, insert_sorted,
}
use rdc_tools.Uses.Ledger.{lookup, append_use, use_resource, va_resource}
use rdc_tools.Uses.Record.{
  UseLedger, DrawState, read_slot, Heaps, bind_uses, root_uses, table_uses, buffer_uses,
  target_uses, barrier_uses,
}
use rdc_tools.Uses.Record.Recorded.{uses_of, uses_in}
use rdc_tools.Uses.Record.Draw.{draw_claims, bind_uses_lem}
use rdc_tools.Uses.Record.Transition.{blob_claims, IsRecorded, barrier_uses-IsRecorded}
use rdc_tools.Barriers.{struct_error, parse_barrier_groups}
use rdc_tools.Payloads.{parse_targets, clear_target, discard_target, copy_pair, parse_resolve}
use rdc_tools.Payloads.Total.{decoders_total}

abbrev empty_ledger : UseLedger
empty_ledger = record { resources = []; aliases = []; unresolved = 0 }

-- A root buffer 4, a table whose first slot is a texture 7, and the target 7.
abbrev small_state : DrawState
small_state = record {
  gfx_cbv = (1, 4, 0) ∷ [];
  comp_cbv = [];
  gfx_srv = [];
  comp_srv = [];
  gfx_uav = [];
  comp_uav = [];
  gfx_table = (2, 9, 0) ∷ (3, 9, 5) ∷ [];
  comp_table = [];
  vbs = [];
  index_buffer = none;
  rtv = 7 ∷ [];
  dsv = 0;
}

abbrev small_heaps : Heaps
small_heaps heap index =
    if index == 0 then some (record { kind = read_slot; resource = 7 }) else none

bind_uses_lem_example :
    uses_of 7 (bind_uses 12 "List_DrawInstanced" small_state false small_heaps [] empty_ledger)
    ≡ uses_of 7 empty_ledger
      ++ uses_in 12 "List_DrawInstanced" 7 (draw_claims small_state false small_heaps [])
bind_uses_lem_example =
    bind_uses_lem 12 "List_DrawInstanced" 7 small_state false small_heaps [] empty_ledger

abbrev count_uses : UseLedger → ℕ → ℕ
count_uses ledger rid = length (uses_of rid ledger)

uses_of_the_draw :
    count_uses (bind_uses 12 "List_DrawInstanced" small_state false small_heaps [] empty_ledger) 7
    ≡ 2
unfolding bind_uses root_uses table_uses buffer_uses target_uses sorted_by insert_sorted lookup
    append_use use_resource va_resource
uses_of_the_draw = refl

-- One transition of 7, from a pixel shader's resource to a render target.
abbrev one_transition : List ℕ
one_transition =
    0 ∷ 0 ∷ 0 ∷ 0 ∷ 0 ∷ 0 ∷ 0 ∷ 0 ∷ 1 ∷ 0 ∷ 0 ∷ 0 ∷ 1 ∷ 0 ∷ 0 ∷ 0 ∷ 0 ∷ 0 ∷ 0 ∷ 0 ∷ 0 ∷ 0 ∷ 0 ∷ 0
    ∷ 0 ∷ 0 ∷ 0 ∷ 0 ∷ 7 ∷ 0 ∷ 0 ∷ 0 ∷ 0 ∷ 0 ∷ 0 ∷ 0 ∷ 255 ∷ 255 ∷ 255 ∷ 255 ∷ 128 ∷ 0 ∷ 0 ∷ 0 ∷ 4
    ∷ 0 ∷ 0 ∷ 0 ∷ []

barrier_uses-IsRecorded_example :
    IsRecorded 12 "List_ResourceBarrier" 7 empty_ledger
      (blob_claims "List_ResourceBarrier" one_transition)
      (barrier_uses 12 "List_ResourceBarrier" one_transition empty_ledger)
barrier_uses-IsRecorded_example =
    barrier_uses-IsRecorded 12 "List_ResourceBarrier" 7 one_transition empty_ledger

-- A copy of textures whose source location is cut off behind its type.
abbrev cut_copy : List ℕ
cut_copy = replicate 48 0 ++ (1 ∷ 2 ∷ [])

decoders_total_example :
    (parse_barrier_groups cut_copy ≢ struct_error)
    × (parse_targets cut_copy ≢ struct_error)
    × (clear_target cut_copy ≢ struct_error)
    × (discard_target cut_copy ≢ struct_error)
    × (copy_pair "List_CopyTextureRegion" cut_copy ≢ struct_error)
    × (parse_resolve "List_CopyTextureRegion" cut_copy ≢ struct_error)
decoders_total_example = decoders_total "List_CopyTextureRegion" cut_copy
