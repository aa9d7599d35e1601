-- ===== src/Barriers.antt =====
-- `parse_barriers` and `parse_barrier_groups` of src/py/rdc_payloads.py: the two barrier payloads.
pub mod Words
pub mod RoundTrip
pub mod Total
use rdc_tools.Prelude.{
  ℕ, zero, suc, ◌+◌, ◌*◌, Bool, true, false, ◌&&◌, Option, none, some, List, [], ◌∷◌, ◌++◌, length,
  ltb, leb, ◌==◌, if◌then◌else◌, ◌>>=◌,
}
use rdc_tools.Stream.Words.{u32, u64}

-- What a parser of a payload does: it returns its entries or None, or `struct.error` is raised.
pub data Decoded {ℓ} (A : Type ℓ) : Type ℓ where
  parsed : A → Decoded A
  refused : Decoded A
  struct_error : Decoded A

pub data BarrierKind : Type 0 where
  transition aliasing uav : BarrierKind

pub record BarrierInfo : Type 0 where
  pub kind : BarrierKind
  pub resource : ℕ
  pub resource2 : ℕ
  pub before : ℕ
  pub after : ℕ
  pub subresource : ℕ

pub data GroupKind : Type 0 where
  global_barrier texture_barrier buffer_barrier : GroupKind

pub record GroupBarrier : Type 0 where
  pub kind : GroupKind
  pub resource : ℕ
  pub sync : ℕ
  pub access : ℕ
  pub layout : ℕ
  pub flags : ℕ

-- The three arms of an entry at a position, with the position behind it.
unfoldable pub read_transition : List ℕ → ℕ → Option (BarrierInfo × ℕ)
read_transition blob o = do
  resource ← u64 blob (o + 8)
  before ← u32 blob (o + 20)
  after ← u32 blob (o + 24)
  subresource ← u32 blob (o + 16)
  some (
    record {
      kind = transition;
      resource = resource;
      resource2 = 0;
      before = before;
      after = after;
      subresource = subresource;
    },
    o + 28,
  )

unfoldable pub read_aliasing : List ℕ → ℕ → Option (BarrierInfo × ℕ)
read_aliasing blob o = do
  resource ← u64 blob (o + 8)
  resource2 ← u64 blob (o + 16)
  some (
    record {
      kind = aliasing;
      resource = resource;
      resource2 = resource2;
      before = 0;
      after = 0;
      subresource = 0;
    },
    o + 24,
  )

unfoldable pub read_uav : List ℕ → ℕ → Option (BarrierInfo × ℕ)
read_uav blob o = do
  resource ← u64 blob (o + 8)
  some (
    record {
      kind = uav;
      resource = resource;
      resource2 = 0;
      before = 0;
      after = 0;
      subresource = 0;
    },
    o + 16,
  )

abbrev pub or_raise {ℓ} : {A : Type ℓ} → Option A → Decoded A
or_raise none = struct_error
or_raise (some a) = parsed a

unfoldable pub read_arm : List ℕ → ℕ → ℕ → Decoded (BarrierInfo × ℕ)
read_arm blob o kind =
    if kind == 0 && leb (o + 28) (length blob)
    then or_raise (read_transition blob o)
    else if kind == 1 && leb (o + 24) (length blob)
    then or_raise (read_aliasing blob o)
    else if kind == 2 && leb (o + 16) (length blob)
    then or_raise (read_uav blob o)
    else refused

unfoldable pub read_entry : List ℕ → ℕ → Decoded (BarrierInfo × ℕ)
read_entry blob o = elim (u32 blob o) [ none ↦ struct_error | some kind ↦ read_arm blob o kind ]

-- `out if len(out) == count and o == len(blob) else None`
unfoldable pub at_the_end : List ℕ → ℕ → ℕ → List BarrierInfo → Decoded (List BarrierInfo)
at_the_end blob count o out =
    if length out == count && o == length blob then parsed out else refused

-- The rounds that are left of the loop, with the count, the position and the list so far.
unfoldable pub barriers_from : ℕ → List ℕ → ℕ → ℕ → List BarrierInfo → Decoded (List BarrierInfo)
barriers_from zero blob count o out = at_the_end blob count o out
barriers_from (suc rounds) blob count o out = elim (read_entry blob o) [
  | parsed (entry, next) ↦ barriers_from rounds blob count next (out ++ (entry ∷ []))
  | refused ↦ refused
  | struct_error ↦ struct_error
]

abbrev pub count_words : List ℕ → Option (ℕ × ℕ)
count_words blob = do count ← u32 blob 8; again ← u64 blob 12; some (count, again)

unfoldable pub parse_barriers : List ℕ → Decoded (List BarrierInfo)
parse_barriers blob = if ltb (length blob) 20 then refused else (elim (count_words blob) [
  | none ↦ struct_error
  | some (count, again) ↦ if again == count then barriers_from count blob count 20 [] else refused
])

-- `{0: 16, 1: 60, 2: 40}.get(kind)`
abbrev pub arm_length : ℕ → Option ℕ
arm_length kind =
    if kind == 0
    then some 16
    else if kind == 1
    then some 60
    else if kind == 2
    then some 40
    else none

unfoldable pub read_texture : List ℕ → ℕ → Option GroupBarrier
read_texture blob e = do
  resource ← u64 blob (e + 24)
  sync ← u32 blob (e + 4)
  access ← u32 blob (e + 12)
  layout ← u32 blob (e + 20)
  flags ← u32 blob (e + 56)
  some (record {
    kind = texture_barrier;
    resource = resource;
    sync = sync;
    access = access;
    layout = layout;
    flags = flags;
  })

unfoldable pub read_buffer : List ℕ → ℕ → Option GroupBarrier
read_buffer blob e = do
  resource ← u64 blob (e + 16)
  sync ← u32 blob (e + 4)
  access ← u32 blob (e + 12)
  some (record {
    kind = buffer_barrier;
    resource = resource;
    sync = sync;
    access = access;
    layout = 0;
    flags = 0;
  })

unfoldable pub read_global : List ℕ → ℕ → Option GroupBarrier
read_global blob e = do
  sync ← u32 blob (e + 4)
  access ← u32 blob (e + 12)
  some (record {
    kind = global_barrier;
    resource = 0;
    sync = sync;
    access = access;
    layout = 0;
    flags = 0;
  })

abbrev pub read_element : List ℕ → ℕ → ℕ → Option GroupBarrier
read_element blob kind e =
    if kind == 1
    then read_texture blob e
    else if kind == 2
    then read_buffer blob e
    else read_global blob e

-- The elements that are left of a group, from the position of the next.
unfoldable pub elements_from :
    ℕ → List ℕ → ℕ → ℕ → ℕ → List GroupBarrier → Option (List GroupBarrier)
elements_from zero blob kind arm e out = some out
elements_from (suc n) blob kind arm e out = do
  element ← read_element blob kind e
  elements_from n blob kind arm (e + arm) (out ++ (element ∷ []))

-- A group's kind, its count and the count again.
abbrev pub group_words : List ℕ → ℕ → Option (ℕ × ℕ × ℕ)
group_words blob o = do
  kind ← u32 blob o
  count ← u32 blob (o + 4)
  again ← u64 blob (o + 8)
  some (kind, count, again)

-- A group of a known arm, whose elements are inside the payload.
unfoldable pub read_elements :
    List ℕ → ℕ → ℕ → ℕ → ℕ → ℕ → List GroupBarrier → Decoded (List GroupBarrier × ℕ)
read_elements blob o kind count again arm out =
    if again == count && leb (o + 16 + count * arm) (length blob)
    then (elim (elements_from count blob kind arm (o + 16) out) [
      | none ↦ struct_error
      | some elements ↦ parsed (elements, o + (16 + count * arm))
    ])
    else refused

unfoldable pub read_group : List ℕ → ℕ → List GroupBarrier → Decoded (List GroupBarrier × ℕ)
read_group blob o out = if ltb (length blob) (o + 16) then refused else (elim (group_words blob o) [
  | none ↦ struct_error
  | some (kind, count, again) ↦ elim (arm_length kind) [
    | none ↦ refused
    | some arm ↦ read_elements blob o kind count again arm out
  ]
])

unfoldable pub groups_from : ℕ → List ℕ → ℕ → List GroupBarrier → Decoded (List GroupBarrier)
groups_from zero blob o out = if o == length blob then parsed out else refused
groups_from (suc rounds) blob o out = elim (read_group blob o out) [
  | parsed (more, next) ↦ groups_from rounds blob next more
  | refused ↦ refused
  | struct_error ↦ struct_error
]

unfoldable pub parse_barrier_groups : List ℕ → Decoded (List GroupBarrier)
parse_barrier_groups blob = if ltb (length blob) 20 then refused else (elim (count_words blob) [
  | none ↦ struct_error
  | some (groups, again) ↦ if again == groups then groups_from groups blob 20 [] else refused
])
