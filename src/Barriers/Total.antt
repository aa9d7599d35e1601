-- ===== src/Barriers/Total.antt =====
-- Which payloads of barrier groups raise an exception.
use rdc_tools.Prelude.{
  ℕ, zero, suc, ◌+◌, ◌*◌, ◌≤◌, ◌≡◌, refl, arith, ◌&&◌, Option, none, some, List, [], ◌∷◌, ◌++◌,
  length, ltb, leb, ◌==◌, if_cases, option_cases,
}
use rdc_tools.Stream.Words.{u32_fits, u64_fits}
use rdc_tools.Barriers.{
  Decoded, parsed, refused, struct_error, GroupBarrier, read_texture, read_buffer, read_global,
  read_element, arm_length, elements_from, group_words, read_elements, read_group, groups_from,
  count_words, parse_barrier_groups,
}

unfoldable pub NoRaise {ℓ} : {A : Type ℓ} → Decoded A → Type 0
NoRaise (parsed a) = Unit
NoRaise refused = Unit
NoRaise struct_error = ⊥

unless_raised {ℓ κ} :
    {A : Type ℓ} {B : Type κ} (p : Decoded A) (f : A → Decoded B)
    → NoRaise p
    → ((a : A) → NoRaise (f a))
    → NoRaise (elim p [ parsed a ↦ f a | refused ↦ refused | struct_error ↦ struct_error ])
unfolding NoRaise
unless_raised (parsed a) f p h = h a
unless_raised refused f p h = tt
unless_raised struct_error f p h = absurd p

unfoldable IsRead {ℓ} : {A : Type ℓ} → Option A → Type 0
IsRead none = ⊥
IsRead (some a) = Unit

value_of {ℓ} : {A : Type ℓ} (o : Option A) → IsRead o → (a : A) × (o ≡ some a)
unfolding IsRead
value_of none r = absurd r
value_of (some a) r = (a, refl)

module _ (blob : List ℕ) (e : ℕ) where
  read_texture_fits : e + 60 ≤ length blob → IsRead (read_texture blob e)
  unfolding read_texture IsRead
  read_texture_fits h =
      let (r, er) = u64_fits blob (e + 24) (omega (arith, h)) in
      let (s, es) = u32_fits blob (e + 4) (omega (arith, h)) in
      let (a, ea) = u32_fits blob (e + 12) (omega (arith, h)) in
      let (l, el) = u32_fits blob (e + 20) (omega (arith, h)) in
      let (f, ef) = u32_fits blob (e + 56) (omega (arith, h)) in
      rw (read_texture, er, es, ea, el, ef) tt

  read_buffer_fits : e + 40 ≤ length blob → IsRead (read_buffer blob e)
  unfolding read_buffer IsRead
  read_buffer_fits h =
      let (r, er) = u64_fits blob (e + 16) (omega (arith, h)) in
      let (s, es) = u32_fits blob (e + 4) (omega (arith, h)) in
      let (a, ea) = u32_fits blob (e + 12) (omega (arith, h)) in rw (read_buffer, er, es, ea) tt

  read_global_fits : e + 16 ≤ length blob → IsRead (read_global blob e)
  unfolding read_global IsRead
  read_global_fits h =
      let (s, es) = u32_fits blob (e + 4) (omega (arith, h)) in
      let (a, ea) = u32_fits blob (e + 12) (omega (arith, h)) in rw (read_global, es, ea) tt

  read_element_fits :
      (kind arm : ℕ)
      → arm_length kind ≡ some arm
      → e + arm ≤ length blob
      → IsRead (read_element blob kind e)
  read_element_fits kind arm a h =
      if_cases IsRead (kind == 1) _ _ (λ k. read_texture_fits (ground (arith, a, k, h)))
        (λ k.
          if_cases IsRead (kind == 2) _ _ (λ k2. read_buffer_fits (ground (arith, a, k2, h)))
            (λ k2. read_global_fits (ground (arith, a, k, k2, h))))

elements_more :
    (n : ℕ) (blob : List ℕ) (kind arm e : ℕ) (g : GroupBarrier) (out : List GroupBarrier)
    → read_element blob kind e ≡ some g
    → IsRead (elements_from n blob kind arm (e + arm) (out ++ (g ∷ [])))
    → IsRead (elements_from (suc n) blob kind arm e out)
unfolding elements_from
elements_more n blob kind arm e g out eg rest = rw (elements_from, eg) rest

elements_fit :
    (n : ℕ) (blob : List ℕ) (kind arm e : ℕ) (out : List GroupBarrier)
    → arm_length kind ≡ some arm
    → e + n * arm ≤ length blob
    → IsRead (elements_from n blob kind arm e out)
elements_fit zero blob kind arm e out a h = unfold elements_from in unfold IsRead in tt
elements_fit (suc n) blob kind arm e out a h =
    let (g, eg) = value_of _ (read_element_fits blob e kind arm a (omega (arith, h))) in
    let rest = elements_fit n blob kind arm (e + arm) (out ++ (g ∷ [])) a (omega (arith, h)) in
    elements_more n blob kind arm e g out eg rest

read_elements-NoRaise :
    (blob : List ℕ) (o kind count again arm : ℕ) (out : List GroupBarrier)
    → arm_length kind ≡ some arm
    → NoRaise (read_elements blob o kind count again arm out)
unfolding read_elements NoRaise
read_elements-NoRaise blob o kind count again arm out a =
    if_cases NoRaise (again == count && leb (o + 16 + count * arm) (length blob)) _ _
      (λ t.
        let (gs, egs) =
          value_of _ (elements_fit count blob kind arm (o + 16) out a (ground (arith, t))) in
        rw egs tt)
      (λ f. tt)

count_words_fit : (blob : List ℕ) → 20 ≤ length blob → IsRead (count_words blob)
unfolding IsRead
count_words_fit blob h =
    let (c, ec) = u32_fits blob 8 (omega (arith, h)) in
    let (a, ea) = u64_fits blob 12 (omega (arith, h)) in rw (ec, ea) tt

group_words_fit : (blob : List ℕ) (o : ℕ) → o + 16 ≤ length blob → IsRead (group_words blob o)
unfolding IsRead
group_words_fit blob o h =
    let (k, ek) = u32_fits blob o (omega (arith, h)) in
    let (c, ec) = u32_fits blob (o + 4) (omega (arith, h)) in
    let (a, ea) = u64_fits blob (o + 8) (omega (arith, h)) in rw (ek, ec, ea) tt

read_group-NoRaise :
    (blob : List ℕ) (o : ℕ) (out : List GroupBarrier) → NoRaise (read_group blob o out)
unfolding read_group NoRaise
read_group-NoRaise blob o out =
    if_cases NoRaise (ltb (length blob) (o + 16)) _ _ (λ t. tt)
      (λ f.
        let ((kind, count, again), e) = value_of _ (group_words_fit blob o (ground (arith, f))) in
        rw e (
          option_cases NoRaise (arm_length kind) _ _ (λ n. tt)
            (λ arm a. read_elements-NoRaise blob o kind count again arm out a)))

groups_more :
    (n : ℕ) (blob : List ℕ) (o : ℕ) (out : List GroupBarrier)
    → ((more : List GroupBarrier) (next : ℕ) → NoRaise (groups_from n blob next more))
    → NoRaise (groups_from (suc n) blob o out)
unfolding groups_from
groups_more n blob o out h =
    unless_raised (read_group blob o out) (λ (more, next). groups_from n blob next more)
      (read_group-NoRaise blob o out) (λ (more, next). h more next)

groups_from-NoRaise :
    (n : ℕ) (blob : List ℕ) (o : ℕ) (out : List GroupBarrier) → NoRaise (groups_from n blob o out)
groups_from-NoRaise zero blob o out =
    unfold groups_from in
    unfold NoRaise in if_cases NoRaise (o == length blob) _ _ (λ t. tt) (λ f. tt)
groups_from-NoRaise (suc n) blob o out =
    groups_more n blob o out (λ more next. groups_from-NoRaise n blob next more)

pub parse_groups-NoRaise : (blob : List ℕ) → NoRaise (parse_barrier_groups blob)
unfolding parse_barrier_groups NoRaise
parse_groups-NoRaise blob =
    if_cases NoRaise (ltb (length blob) 20) _ _ (λ t. tt)
      (λ f.
        let ((groups, again), e) = value_of _ (count_words_fit blob (ground (arith, f))) in
        rw e (
          if_cases NoRaise (again == groups) _ _ (λ t. groups_from-NoRaise groups blob 20 [])
            (λ n. tt)))
