-- ===== src/Uses/Record.antt =====
-- `_bind_uses` and `_barrier_uses` of src/py/rdc_uses.py: the uses that one draw's bindings are, and
-- those of one barrier payload. A dictionary with numbers for keys is the list of its entries.
pub mod Recorded
pub mod Draw
pub mod Transition
use Prim.Native.String.{String}
use text.Mathlib.Text.{◌==◌ as str_eq}
use rdc_tools.Prelude.{
  ℕ, ◌+◌, ◌*◌, bit_and, Bool, true, false, not, ◌&&◌, ◌||◌, Option, none, some, List, [], ◌∷◌, ◌++◌,
  ◌==◌, leb, codes, decimal, sorted_by, if◌then◌else◌,
}
use rdc_tools.Uses.{
  Access, read, write, read_write, discards, How, cbv, srv, uav, vb, ib, rtv, dsv, discard, barrier,
  access_of,
}
use rdc_tools.Uses.Ledger.{Table, Extent, use_resource, va_resource}
use rdc_tools.Hazards.States.{state_writes}
use rdc_tools.Barriers.{
  Decoded, parsed, refused, struct_error, BarrierKind, BarrierInfo, transition, aliasing,
  GroupBarrier, GroupKind, texture_barrier, parse_barriers, parse_barrier_groups,
}
use rdc_tools.Barriers.Words.{state_text, access_text, layout_from, barrier_layouts}

-- The fields that a walk of the stream fills.
pub record UseLedger : Type 0 where
  pub resources : Table
  pub aliases : List (ℕ × ℕ × ℕ)
  pub unresolved : ℕ

-- A root parameter with its resource or heap, and the offset or the slot.
abbrev pub Roots : Type 0
Roots = List (ℕ × ℕ × ℕ)

-- `vbs` and `index_buffer` hold the resource of each view.
pub record DrawState : Type 0 where
  pub gfx_cbv : Roots
  pub comp_cbv : Roots
  pub gfx_srv : Roots
  pub comp_srv : Roots
  pub gfx_uav : Roots
  pub comp_uav : Roots
  pub gfx_table : Roots
  pub comp_table : Roots
  pub vbs : List (ℕ × ℕ)
  pub index_buffer : Option ℕ
  pub rtv : List ℕ
  pub dsv : ℕ

pub data DescriptorKind : Type 0 where
  buffer_slot read_slot write_slot target_slot depth_slot sampler_slot : DescriptorKind

pub record DescriptorInfo : Type 0 where
  pub kind : DescriptorKind
  pub resource : ℕ

-- `heaps.get(heap, {}).get(index)`
abbrev pub Heaps : Type 0
Heaps = ℕ → ℕ → Option DescriptorInfo

-- `ACCESS_BY_KIND`, for the five that it has.
abbrev pub access_by_kind : How → Option Access
access_by_kind How.cbv = some read
access_by_kind How.srv = some read
access_by_kind How.uav = some read_write
access_by_kind How.rtv = some write
access_by_kind How.dsv = some write
access_by_kind _ = none

-- The kind by its name; a sampler names nothing.
abbrev pub kind_name : DescriptorKind → Option How
kind_name buffer_slot = some How.cbv
kind_name read_slot = some How.srv
kind_name write_slot = some How.uav
kind_name target_slot = some How.rtv
kind_name depth_slot = some How.dsv
kind_name sampler_slot = none

abbrev pub how_text : How → List ℕ
how_text How.cbv = codes "cbv"
how_text How.srv = codes "srv"
how_text How.uav = codes "uav"
how_text How.rtv = codes "rtv"
how_text _ = codes "dsv"

abbrev pub sorted_roots : Roots → Roots
sorted_roots items = sorted_by (λ x y. leb x.0 y.0) items

abbrev pub sorted_views : List (ℕ × ℕ) → List (ℕ × ℕ)
sorted_views items = sorted_by (λ x y. leb x.0 y.0) items

abbrev pub slot_text : ℕ → List ℕ
slot_text rp = codes "rp" ++ decimal rp

abbrev pub table_text : ℕ → How → List ℕ
table_text rp how = slot_text rp ++ (codes " (table " ++ (how_text how ++ codes ")"))

-- A constant buffer's slot holds an address.
abbrev pub slot_resource : List (ℕ × Extent) → DescriptorInfo → How → ℕ
slot_resource extents info How.cbv = va_resource extents info.resource
slot_resource extents info _ = info.resource

abbrev pub state_reads : ℕ
state_reads =
    0x1 + 0x2 + 0x8 + 0x20 + 0x40 + 0x80 + 0x200 + 0x800 + 0x2000 + 0x10000 + 0x40000 + 0x200000
    + 0x400000 + 0x1000000

abbrev pub access_writes : ℕ
access_writes = 0x8 + 0x10 + 0x20 + 0x100 + 0x400 + 0x1000 + 0x8000 + 0x40000 + 0x100000 + 0x400000

abbrev pub access_reads : ℕ
access_reads =
    0x1 + 0x2 + 0x4 + 0x10 + 0x40 + 0x80 + 0x200 + 0x800 + 0x2000 + 0x4000 + 0x10000 + 0x20000
    + 0x80000 + 0x200000

abbrev pub barrier_text : ℕ → ℕ → List ℕ
barrier_text before after = state_text before ++ (codes " -> " ++ state_text after)

abbrev pub is_texture : GroupBarrier → Bool
is_texture g = elim g.kind [ texture_barrier ↦ true | _ ↦ false ]

-- `LAYOUT_WRITES` and `LAYOUT_READS`
abbrev pub layout_access : ℕ → Option Access
layout_access layout =
    if (layout == 2 || layout == 3) || (layout == 4 || (layout == 8 || layout == 10))
    then some write
    else if (layout == 1 || (layout == 5 || layout == 6))
        || (layout == 7 || (layout == 9 || layout == 11))
    then some read
    else none

abbrev pub group_access : GroupBarrier → Option Access
group_access g = elim (access_of access_writes access_reads g.access) [
  | some access ↦ some access
  | none ↦ (if is_texture g then layout_access g.layout else none)
]

abbrev pub group_text : GroupBarrier → List ℕ
group_text g =
    if is_texture g
    then access_text g.access
      ++ (codes " (layout " ++ (layout_from barrier_layouts g.layout ++ codes ")"))
    else access_text g.access

-- `TEXTURE_BARRIER_DISCARD`
abbrev pub drops_contents : GroupBarrier → Bool
drops_contents g = is_texture g && not (bit_and g.flags 1 == 0)

-- True, False, and the `struct.error` of the payload's parser.
pub data BarrierAnswer : Type 0 where
  read_whole not_read raised : BarrierAnswer

module _ (eid : ℕ) (call : String) where
  abbrev pub record_use : UseLedger → ℕ → Option Access → How → List ℕ → UseLedger
  record_use ledger rid access how detail = record ledger {
    resources = use_resource ledger.resources rid eid access how call detail;
  }

  unfoldable pub root_uses : How → Roots → UseLedger → UseLedger
  root_uses how [] ledger = ledger
  root_uses how ((rp, res, off) ∷ roots) ledger =
      root_uses how roots (record_use ledger res (access_by_kind how) how (slot_text rp))

  abbrev pub slot_use : List (ℕ × Extent) → ℕ → DescriptorInfo → Option How → UseLedger → UseLedger
  slot_use extents rp info none ledger = ledger
  slot_use extents rp info (some how) ledger =
      record_use ledger (slot_resource extents info how) (access_by_kind how) how
        (table_text rp how)

  abbrev pub table_use : List (ℕ × Extent) → ℕ → Option DescriptorInfo → UseLedger → UseLedger
  table_use extents rp none ledger = record ledger { unresolved = ledger.unresolved + 1 }
  table_use extents rp (some info) ledger = slot_use extents rp info (kind_name info.kind) ledger

  unfoldable pub table_uses : Heaps → List (ℕ × Extent) → Roots → UseLedger → UseLedger
  table_uses heaps extents [] ledger = ledger
  table_uses heaps extents ((rp, heap, index) ∷ tables) ledger =
      table_uses heaps extents tables (table_use extents rp (heaps heap index) ledger)

  unfoldable pub buffer_uses : List (ℕ × ℕ) → UseLedger → UseLedger
  buffer_uses [] ledger = ledger
  buffer_uses ((slot, res) ∷ vbs) ledger =
      buffer_uses vbs (record_use ledger res (some read) vb (codes "slot " ++ decimal slot))

  unfoldable pub target_uses : List ℕ → UseLedger → UseLedger
  target_uses [] ledger = ledger
  target_uses (res ∷ targets) ledger =
      target_uses targets (record_use ledger res (some write) How.rtv [])

  abbrev pub index_use : Option ℕ → UseLedger → UseLedger
  index_use none ledger = ledger
  index_use (some res) ledger = record_use ledger res (some read) ib []

  unfoldable pub bind_uses : DrawState → Bool → Heaps → List (ℕ × Extent) → UseLedger → UseLedger
  bind_uses state compute heaps extents ledger =
      let cbvs = if compute then state.comp_cbv else state.gfx_cbv in
      let srvs = if compute then state.comp_srv else state.gfx_srv in
      let uavs = if compute then state.comp_uav else state.gfx_uav in
      let tables = if compute then state.comp_table else state.gfx_table in
      let roots =
        root_uses How.uav (sorted_roots uavs)
          (root_uses How.srv (sorted_roots srvs) (root_uses How.cbv (sorted_roots cbvs) ledger)) in
      let resolved = table_uses heaps extents (sorted_roots tables) roots in
      let buffers = index_use state.index_buffer (buffer_uses (sorted_views state.vbs) resolved) in
      let targets = record_use (target_uses state.rtv buffers) state.dsv (some write) How.dsv [] in
      if compute then resolved else targets

  -- A UAV barrier is no use.
  abbrev pub kind_use : BarrierKind → BarrierInfo → UseLedger → UseLedger
  kind_use aliasing e ledger = record ledger {
    aliases = ledger.aliases ++ ((eid, e.resource, e.resource2) ∷ []);
  }
  kind_use transition e ledger =
      record_use ledger e.resource (access_of state_writes state_reads e.after) barrier
        (barrier_text e.before e.after)
  kind_use _ e ledger = ledger

  unfoldable pub entry_uses : List BarrierInfo → UseLedger → UseLedger
  entry_uses [] ledger = ledger
  entry_uses (e ∷ entries) ledger = entry_uses entries (kind_use e.kind e ledger)

  abbrev pub drop_use : GroupBarrier → Bool → UseLedger → UseLedger
  drop_use g false ledger = ledger
  drop_use g true ledger =
      record_use ledger g.resource (some discards) discard (codes "barrier discard")

  abbrev pub group_use : GroupBarrier → UseLedger → UseLedger
  group_use g ledger =
      drop_use g (drops_contents g)
        (record_use ledger g.resource (group_access g) barrier (group_text g))

  unfoldable pub group_uses : List GroupBarrier → UseLedger → UseLedger
  group_uses [] ledger = ledger
  group_uses (g ∷ groups) ledger = group_uses groups (group_use g ledger)

  -- The answer, and the ledger as the call leaves it.
  unfoldable pub barrier_uses : List ℕ → UseLedger → BarrierAnswer × UseLedger
  barrier_uses blob ledger =
      if str_eq call "List_ResourceBarrier"
      then (elim (parse_barriers blob) [
        | parsed entries ↦ (read_whole, entry_uses entries ledger)
        | refused ↦ (not_read, ledger)
        | struct_error ↦ (raised, ledger)
      ])
      else (elim (parse_barrier_groups blob) [
        | parsed groups ↦ (read_whole, group_uses groups ledger)
        | refused ↦ (not_read, ledger)
        | struct_error ↦ (raised, ledger)
      ])
