-- ===== src/Payloads.antt =====
-- The decoders of src/py/rdc_payloads.py that the walk of the ledger reads: the targets that a call
-- binds, clears, discards, copies and resolves. A payload that does not fit is refused, and
-- `struct_error` is the exception of a word that is read past the end.
pub mod Total
use Prim.Native.String.{String}
use text.Mathlib.Text.{◌==◌ as str_eq}
use rdc_tools.Prelude.{
  ℕ, zero, suc, ◌+◌, ◌-◌, Bool, true, false, not, ◌&&◌, ◌||◌, Option, none, some, List, [], ◌∷◌,
  ◌++◌, length, get_elem?, ltb, leb, ◌==◌, if◌then◌else◌,
}
use rdc_tools.Stream.Words.{u32, u64}
use rdc_tools.Barriers.{Decoded, parsed, refused, struct_error, or_raise}

infixl 5 ◌>=>◌
unfoldable pub ◌>=>◌ {ℓ κ} : {A : Type ℓ} {B : Type κ} → Decoded A → (A → Decoded B) → Decoded B
parsed a >=> f = f a
refused >=> f = refused
struct_error >=> f = struct_error

abbrev pub word32 : List ℕ → ℕ → Decoded ℕ
word32 blob o = or_raise (u32 blob o)

abbrev pub word64 : List ℕ → ℕ → Decoded ℕ
word64 blob o = or_raise (u64 blob o)

-- `blob[o]`, whose IndexError is the exception here.
abbrev pub byte_at : List ℕ → ℕ → Decoded ℕ
byte_at blob o = or_raise (get_elem? blob o)

-- What goes on only where a test holds.
unfoldable pub unless {ℓ} : {A : Type ℓ} → Bool → Decoded A → Decoded A
unless true d = refused
unless false d = d

-- A key of a table of lengths that is not there refuses.
abbrev pub arm_of : List (ℕ × ℕ) → ℕ → Decoded ℕ
arm_of [] dimension = refused
arm_of ((key, arm) ∷ arms) dimension =
    if key == dimension then parsed arm else arm_of arms dimension

abbrev pub rtv_arms : List (ℕ × ℕ)
rtv_arms = (0, 0) ∷ (1, 12) ∷ (2, 4) ∷ (3, 12) ∷ (4, 8) ∷ (5, 16) ∷ (6, 0) ∷ (7, 8) ∷ (8, 12) ∷ []

abbrev pub dsv_arms : List (ℕ × ℕ)
dsv_arms = (0, 0) ∷ (1, 4) ∷ (2, 12) ∷ (3, 4) ∷ (4, 12) ∷ (5, 0) ∷ (6, 8) ∷ []

-- A descriptor of one type, whose dimension stands `at` bytes behind its start, and four bytes before
-- its arm.
unfoldable pub view_entry : ℕ → ℕ → List (ℕ × ℕ) → List ℕ → ℕ → Decoded (ℕ × ℕ)
view_entry type at arms blob o = unless (ltb (length blob) (o + (at + 4))) (
    word32 blob o >=> λ found. unless (not (found == type)) (
      word32 blob (o + at) >=> λ dimension. arm_of arms dimension >=> λ arm.
      word64 blob (o + 16) >=> λ resource. parsed (o + (at + 4) + arm, resource)))

unfoldable pub rtv_entry : List ℕ → ℕ → Decoded (ℕ × ℕ)
rtv_entry blob o = view_entry 0x1003 28 rtv_arms blob o

unfoldable pub dsv_entry : List ℕ → ℕ → Decoded (ℕ × ℕ)
dsv_entry blob o = view_entry 0x1004 32 dsv_arms blob o

abbrev pub Targets : Type 0
Targets = List ℕ × ℕ

-- Behind the flag that a depth target is present.
unfoldable pub depth_from : List ℕ → List ℕ → ℕ → ℕ → Decoded Targets
depth_from blob targets o present =
    if present == 0
    then (if o == length blob then parsed (targets, 0) else refused)
    else (dsv_entry blob o >=> λ (end, resource).
        if end == length blob then parsed (targets, resource) else refused)

-- The rounds that are left of the loop over the render targets.
unfoldable pub targets_from : ℕ → List ℕ → ℕ → List ℕ → Decoded Targets
targets_from zero blob o targets =
    unless (leb (length blob) o)
      (byte_at blob o >=> λ present. depth_from blob targets (o + 1) present)
targets_from (suc rounds) blob o targets = rtv_entry blob o >=> λ (end, resource).
    targets_from rounds blob end (targets ++ (resource ∷ []))

unfoldable pub parse_targets : List ℕ → Decoded Targets
parse_targets blob = unless (ltb (length blob) 21) (
    word32 blob 8 >=> λ count.
    word64 blob 12 >=> λ again. unless (not (again == count)) (targets_from count blob 20 []))

-- `len(blob) >= size` and a word that is one of two types, with Python's short circuit.
abbrev pub has_type : List ℕ → ℕ → ℕ → ℕ → ℕ → Decoded Bool
has_type blob size at one other =
    if leb size (length blob)
    then (word32 blob at >=> λ type. parsed (type == one || type == other))
    else parsed false

unfoldable pub clear_target : List ℕ → Decoded ℕ
clear_target blob = has_type blob 32 8 0x1003 0x1004 >=> λ is_view.
    if is_view
    then word64 blob 24
    else (has_type blob 44 20 0x1002 0x1002 >=> λ is_uav.
        if is_uav then word64 blob 36 else parsed 0)

unfoldable pub discard_target : List ℕ → Decoded ℕ
discard_target blob = if leb 16 (length blob) then word64 blob 8 else parsed 0

unfoldable pub copy_location_size : List ℕ → ℕ → Decoded ℕ
copy_location_size blob o = unless (ltb (length blob) (o + 12)) (
    word32 blob (o + 8) >=> λ kind.
    if kind == 0 then parsed 16 else if kind == 1 then parsed 40 else refused)

-- Whether the source box is cut short, of which there is some.
abbrev pub box_short : List ℕ → ℕ → Decoded Bool
box_short blob end =
    if ltb end (length blob)
    then (byte_at blob end >=> λ flag.
        parsed (ltb (length blob - end) (1 + (if flag == 0 then 0 else 24))))
    else parsed false

unfoldable pub copy_texture : List ℕ → Decoded (ℕ × ℕ)
copy_texture blob = copy_location_size blob 8 >=> λ target_arm.
    copy_location_size blob (8 + target_arm + 12) >=> λ source_arm.
    unless (ltb (length blob) (8 + target_arm + 12 + source_arm)) (
      box_short blob (8 + target_arm + 12 + source_arm) >=> λ short. unless short (
        word64 blob 8 >=> λ target.
        word64 blob (8 + target_arm + 12) >=> λ source. parsed (target, source)))

unfoldable pub copy_pair : String → List ℕ → Decoded (ℕ × ℕ)
copy_pair name blob =
    if str_eq name "List_CopyBufferRegion"
    then unless (ltb (length blob) 48)
        (word64 blob 8 >=> λ target. word64 blob 24 >=> λ source. parsed (target, source))
    else copy_texture blob

pub record ResolveInfo : Type 0 where
  pub destination : ℕ
  pub destination_subresource : ℕ
  pub source : ℕ
  pub source_subresource : ℕ
  pub format : ℕ
  pub region : Bool

-- The fields at the places that the two forms have them.
abbrev pub resolve_at : List ℕ → ℕ → ℕ → ℕ → Bool → Decoded ResolveInfo
resolve_at blob source_at sub_at format_at region = word64 blob 8 >=> λ destination.
    word32 blob 16 >=> λ destination_sub. word64 blob source_at >=> λ source.
    word32 blob sub_at >=> λ source_sub. word32 blob format_at >=> λ format. parsed (record {
      destination = destination;
      destination_subresource = destination_sub;
      source = source;
      source_subresource = source_sub;
      format = format;
      region = region;
    })

-- `16 if blob[40] else 0`
abbrev pub rect_size : ℕ → ℕ
rect_size flag = if flag == 0 then 0 else 16

unfoldable pub parse_resolve : String → List ℕ → Decoded ResolveInfo
parse_resolve name blob =
    if str_eq name "List_ResolveSubresource"
    then unless (not (length blob == 36)) (resolve_at blob 20 28 32 false)
    else unless (ltb (length blob) 49) (
        byte_at blob 40 >=> λ flag.
        unless (not (length blob == 49 + rect_size flag))
          (resolve_at blob 28 36 (41 + rect_size flag) true))
