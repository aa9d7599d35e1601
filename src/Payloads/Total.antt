-- ===== src/Payloads/Total.antt =====
-- No payload makes a decoder raise.
use Prim.Native.String.{String}
use text.Mathlib.Text.{◌==◌ as str_eq}
use rdc_tools.Prelude.{
  ℕ, zero, suc, ◌+◌, ◌≤◌, ◌<◌, ◌≡◌, ◌≢◌, refl, arith, Bool, true, false, List, [], ◌∷◌, ◌++◌,
  length, get_elem-inside, ltb, leb, ◌==◌, if◌then◌else◌, if_cases, inl, inr, Bool-cases,
}
use rdc_tools.Stream.Words.{u32_fits, u64_fits}
use rdc_tools.Barriers.{Decoded, parsed, refused, struct_error, parse_barrier_groups}
use rdc_tools.Barriers.Total.{NoRaise, parse_groups-NoRaise}
use rdc_tools.Payloads.{
  ◌>=>◌, word32, word64, byte_at, unless, arm_of, view_entry, rtv_arms, dsv_arms, rtv_entry,
  dsv_entry, depth_from, targets_from, parse_targets, has_type, clear_target, discard_target,
  copy_location_size, box_short, copy_texture, copy_pair, resolve_at, rect_size, parse_resolve,
}

NoRaise-then {ℓ κ} :
    {A : Type ℓ} {B : Type κ} (d : Decoded A) (f : A → Decoded B)
    → NoRaise d
    → ((a : A) → NoRaise (f a))
    → NoRaise (d >=> f)
unfolding NoRaise ◌>=>◌
NoRaise-then (parsed a) f p h = h a
NoRaise-then refused f p h = tt
NoRaise-then struct_error f p h = absurd p

-- The same with what the first step returned.
NoRaise-then_of {ℓ κ} :
    {A : Type ℓ} {B : Type κ} (d : Decoded A) (f : A → Decoded B)
    → NoRaise d
    → ((a : A) → d ≡ parsed a → NoRaise (f a))
    → NoRaise (d >=> f)
unfolding NoRaise ◌>=>◌
NoRaise-then_of (parsed a) f p h = h a refl
NoRaise-then_of refused f p h = tt
NoRaise-then_of struct_error f p h = absurd p

NoRaise-unless {ℓ} :
    {A : Type ℓ} (test : Bool) (d : Decoded A)
    → (test ≡ false → NoRaise d)
    → NoRaise (unless test d)
unfolding NoRaise unless
NoRaise-unless true d h = tt
NoRaise-unless false d h = h refl

NoRaise-if {ℓ} :
    {A : Type ℓ} (test : Bool) (d e : Decoded A)
    → (test ≡ true → NoRaise d)
    → (test ≡ false → NoRaise e)
    → NoRaise (if test then d else e)
NoRaise-if test d e p q = if_cases NoRaise test d e p q

NoRaise-parsed {ℓ} : {A : Type ℓ} (a : A) → NoRaise (parsed a)
unfolding NoRaise
NoRaise-parsed a = tt

NoRaise-refused {ℓ} : (A : Type ℓ) → NoRaise {A = A} refused
unfolding NoRaise
NoRaise-refused A = tt

arm_of-NoRaise : (arms : List (ℕ × ℕ)) (dimension : ℕ) → NoRaise (arm_of arms dimension)
arm_of-NoRaise [] dimension = NoRaise-refused ℕ
arm_of-NoRaise ((key, arm) ∷ arms) dimension =
    NoRaise-if (key == dimension) _ _ (λ t. NoRaise-parsed arm) (λ f. arm_of-NoRaise arms dimension)

module _ (blob : List ℕ) where
  word32-NoRaise : (o : ℕ) → o + 4 ≤ length blob → NoRaise (word32 blob o)
  word32-NoRaise o h = let (v, e) = u32_fits blob o h in rw e (NoRaise-parsed v)

  word64-NoRaise : (o : ℕ) → o + 8 ≤ length blob → NoRaise (word64 blob o)
  word64-NoRaise o h = let (v, e) = u64_fits blob o h in rw e (NoRaise-parsed v)

  view_entry-NoRaise :
      (type at : ℕ) (arms : List (ℕ × ℕ)) (o : ℕ)
      → 20 ≤ at
      → NoRaise (view_entry type at arms blob o)
  unfolding view_entry
  view_entry-NoRaise type at arms o h = NoRaise-unless _ _ λ fits.
      NoRaise-then (word32 blob o) _ (word32-NoRaise o (ground (arith, fits))) λ found.
        NoRaise-unless _ _ λ same.
          NoRaise-then (word32 blob (o + at)) _ (word32-NoRaise (o + at) (ground (arith, fits)))
            λ dimension.
              NoRaise-then (arm_of arms dimension) _ (arm_of-NoRaise arms dimension) λ arm.
                NoRaise-then (word64 blob (o + 16)) _
                  (word64-NoRaise (o + 16) (ground (arith, fits))) λ resource. NoRaise-parsed _

  byte_at-NoRaise : (o : ℕ) → o < length blob → NoRaise (byte_at blob o)
  byte_at-NoRaise o h = let (v, e) = get_elem-inside blob o h in rw e (NoRaise-parsed v)

  depth_from-NoRaise :
      (targets : List ℕ) (o present : ℕ) → NoRaise (depth_from blob targets o present)
  unfolding depth_from dsv_entry
  depth_from-NoRaise targets o present =
      if_cases NoRaise (present == 0) _ _
        (λ t.
          if_cases NoRaise (o == length blob) _ _ (λ t. NoRaise-parsed _) (λ f. NoRaise-refused _))
        (λ f.
          NoRaise-then (view_entry 0x1004 32 dsv_arms blob o) _
            (view_entry-NoRaise 0x1004 32 dsv_arms o (omega arith))
            λ (end, resource).
              if_cases NoRaise (end == length blob) _ _ (λ t. NoRaise-parsed _)
                (λ f. NoRaise-refused _))

  targets_from-NoRaise :
      (rounds o : ℕ) (targets : List ℕ) → NoRaise (targets_from rounds blob o targets)
  unfolding targets_from rtv_entry
  targets_from-NoRaise zero o targets = NoRaise-unless _ _ λ inside.
      NoRaise-then (byte_at blob o) _ (byte_at-NoRaise o (ground (arith, inside)))
        λ present. depth_from-NoRaise targets (o + 1) present
  targets_from-NoRaise (suc rounds) o targets =
      NoRaise-then (view_entry 0x1003 28 rtv_arms blob o) _
        (view_entry-NoRaise 0x1003 28 rtv_arms o (omega arith))
        λ (end, resource). targets_from-NoRaise rounds end (targets ++ (resource ∷ []))

  parse_targets-NoRaise : NoRaise (parse_targets blob)
  unfolding parse_targets
  parse_targets-NoRaise = NoRaise-unless _ _ λ fits.
      NoRaise-then (word32 blob 8) _ (word32-NoRaise 8 (ground (arith, fits))) λ count.
        NoRaise-then (word64 blob 12) _ (word64-NoRaise 12 (ground (arith, fits)))
          λ again. NoRaise-unless _ _ λ same. targets_from-NoRaise count 20 []

  discard_target-NoRaise : NoRaise (discard_target blob)
  unfolding discard_target
  discard_target-NoRaise =
      if_cases NoRaise (leb 16 (length blob)) _ _ (λ t. word64-NoRaise 8 (ground (arith, t)))
        (λ f. NoRaise-parsed 0)

  location_room : (o arm : ℕ) → copy_location_size blob o ≡ parsed arm → o + 12 ≤ length blob
  unfolding unless copy_location_size
  location_room o arm e = elim (Bool-cases (ltb (length blob) (o + 12))) [
    | inl t ↦ let never = rw (copy_location_size, t) at e in cc
    | inr f ↦ ground (arith, f)
  ]

  location-NoRaise : (o : ℕ) → NoRaise (copy_location_size blob o)
  unfolding copy_location_size
  location-NoRaise o = NoRaise-unless _ _ λ fits.
      NoRaise-then (word32 blob (o + 8)) _ (word32-NoRaise (o + 8) (ground (arith, fits))) λ kind.
        if_cases NoRaise (kind == 0) _ _ (λ t. NoRaise-parsed 16)
          (λ f. if_cases NoRaise (kind == 1) _ _ (λ t. NoRaise-parsed 40) (λ f. NoRaise-refused _))

  box_short-NoRaise : (end : ℕ) → NoRaise (box_short blob end)
  box_short-NoRaise end =
      if_cases NoRaise (ltb end (length blob)) _ _
        (λ t.
          NoRaise-then (byte_at blob end) _ (byte_at-NoRaise end (ground (arith, t)))
            λ flag. NoRaise-parsed _)
        (λ f. NoRaise-parsed false)

  has_type-NoRaise :
      (size at one other : ℕ) → at + 4 ≤ size → NoRaise (has_type blob size at one other)
  has_type-NoRaise size at one other h =
      if_cases NoRaise (leb size (length blob)) _ _
        (λ t.
          NoRaise-then (word32 blob at) _ (word32-NoRaise at (ground (arith, t, h)))
            λ type. NoRaise-parsed _)
        (λ f. NoRaise-parsed false)

  typed_room :
      (size at one other : ℕ) → has_type blob size at one other ≡ parsed true → size ≤ length blob
  typed_room size at one other e = elim (Bool-cases (leb size (length blob))) [
    | inl t ↦ ground (arith, t)
    | inr f ↦ let never = rw (has_type, f) at e in cc
  ]

  clear_target-NoRaise : NoRaise (clear_target blob)
  unfolding clear_target
  clear_target-NoRaise =
      NoRaise-then_of (has_type blob 32 8 0x1003 0x1004) _
        (has_type-NoRaise 32 8 0x1003 0x1004 (omega arith))
        λ is_view view.
          if_cases NoRaise is_view _ _
            (λ t.
              word64-NoRaise 24
                (let room = typed_room 32 8 0x1003 0x1004 (rw t at view) in omega (arith, room)))
            (λ f.
              NoRaise-then_of (has_type blob 44 20 0x1002 0x1002) _
                (has_type-NoRaise 44 20 0x1002 0x1002 (omega arith))
                λ is_uav uav.
                  if_cases NoRaise is_uav _ _
                    (λ t. word64-NoRaise 36 (
                      let room = typed_room 44 20 0x1002 0x1002 (rw t at uav) in
                      omega (arith, room)))
                    (λ f. NoRaise-parsed 0))

  copy_texture-NoRaise : NoRaise (copy_texture blob)
  unfolding copy_texture
  copy_texture-NoRaise =
      NoRaise-then (copy_location_size blob 8) _ (location-NoRaise 8) λ target_arm.
        NoRaise-then_of (copy_location_size blob (8 + target_arm + 12)) _
          (location-NoRaise (8 + target_arm + 12))
          λ source_arm at_source.
            let room = location_room (8 + target_arm + 12) source_arm at_source in
            NoRaise-unless _ _ λ whole.
              NoRaise-then (box_short blob (8 + target_arm + 12 + source_arm)) _
                (box_short-NoRaise (8 + target_arm + 12 + source_arm))
                λ short. NoRaise-unless _ _ λ long.
                  NoRaise-then (word64 blob 8) _ (word64-NoRaise 8 (omega (arith, room))) λ target.
                    NoRaise-then (word64 blob (8 + target_arm + 12)) _
                      (word64-NoRaise (8 + target_arm + 12) (omega (arith, room)))
                      λ source. NoRaise-parsed _

  copy_pair-NoRaise : (name : String) → NoRaise (copy_pair name blob)
  unfolding copy_pair
  copy_pair-NoRaise name =
      if_cases NoRaise (str_eq name "List_CopyBufferRegion") _ _
        (λ t. NoRaise-unless _ _ λ fits.
          NoRaise-then (word64 blob 8) _ (word64-NoRaise 8 (ground (arith, fits))) λ target.
            NoRaise-then (word64 blob 24) _ (word64-NoRaise 24 (ground (arith, fits)))
              λ source. NoRaise-parsed _)
        (λ f. copy_texture-NoRaise)

  resolve_at-NoRaise :
      (source_at sub_at format_at : ℕ) (region : Bool)
      → 20 ≤ length blob
      → source_at + 8 ≤ length blob
      → sub_at + 4 ≤ length blob
      → format_at + 4 ≤ length blob
      → NoRaise (resolve_at blob source_at sub_at format_at region)
  resolve_at-NoRaise source_at sub_at format_at region h a b c =
      NoRaise-then (word64 blob 8) _ (word64-NoRaise 8 (omega (arith, h))) λ destination.
        NoRaise-then (word32 blob 16) _ (word32-NoRaise 16 (omega (arith, h))) λ destination_sub.
          NoRaise-then (word64 blob source_at) _ (word64-NoRaise source_at a) λ source.
            NoRaise-then (word32 blob sub_at) _ (word32-NoRaise sub_at b) λ source_sub.
              NoRaise-then (word32 blob format_at) _ (word32-NoRaise format_at c)
                λ format. NoRaise-parsed _

  parse_resolve-NoRaise : (name : String) → NoRaise (parse_resolve name blob)
  unfolding parse_resolve
  parse_resolve-NoRaise name =
      if_cases NoRaise (str_eq name "List_ResolveSubresource") _ _
        (λ t. NoRaise-unless _ _ λ fits.
          resolve_at-NoRaise 20 28 32 false (ground (arith, fits)) (ground (arith, fits))
            (ground (arith, fits)) (ground (arith, fits)))
        (λ f. NoRaise-unless _ _ λ fits.
          NoRaise-then (byte_at blob 40) _ (byte_at-NoRaise 40 (ground (arith, fits))) λ flag.
            NoRaise-unless _ _ λ exact.
              resolve_at-NoRaise 28 36 (41 + rect_size flag) true (ground (arith, fits))
                (ground (arith, fits)) (ground (arith, fits)) (ground (arith, exact)))

not_struct_error {ℓ} : {A : Type ℓ} (d : Decoded A) → NoRaise d → d ≢ struct_error
unfolding NoRaise
not_struct_error d h e = rw e at h

-- No payload makes a decoder of barrier groups, targets, clears, discards, copies or resolves raise
-- an exception, whatever its length and its bytes are: each reads the payload or refuses it.
pub decoders_total :
    (name : String) (blob : List ℕ)
    → (parse_barrier_groups blob ≢ struct_error)
      × (parse_targets blob ≢ struct_error)
      × (clear_target blob ≢ struct_error)
      × (discard_target blob ≢ struct_error)
      × (copy_pair name blob ≢ struct_error)
      × (parse_resolve name blob ≢ struct_error)
decoders_total name blob = (
  not_struct_error (parse_barrier_groups blob) (parse_groups-NoRaise blob),
  not_struct_error (parse_targets blob) (parse_targets-NoRaise blob),
  not_struct_error (clear_target blob) (clear_target-NoRaise blob),
  not_struct_error (discard_target blob) (discard_target-NoRaise blob),
  not_struct_error (copy_pair name blob) (copy_pair-NoRaise blob name),
  not_struct_error (parse_resolve name blob) (parse_resolve-NoRaise blob name),
)
