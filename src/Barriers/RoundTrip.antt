-- ===== src/Barriers/RoundTrip.antt =====
-- Barrier payloads against a writer of their layout.
use rdc_tools.Prelude.{
  ℕ, zero, suc, ◌+◌, ◌^◌, ◌≤◌, ◌<◌, ◌≡◌, refl, sym, ap, ◌∙◌, arith, true, false, some, List, [],
  ◌∷◌, ◌++◌, append_assoc, append-nil, map, length, length-append, length-drop, drop, ltb, leb,
  ◌==◌, le→leb, gt→ltb,
}
use rdc_tools.Stream.Words.{u32, u64, bytes_of, little-bytes_of}
use rdc_tools.Barriers.{
  parsed, transition, aliasing, uav, BarrierInfo, read_transition, read_aliasing, read_uav,
  read_arm, read_entry, at_the_end, barriers_from, parse_barriers,
}

-- An entry, with the flags that the parser passes over.
pub data Barrier : Type 0 where
  transition_of : ℕ → ℕ → ℕ → ℕ → ℕ → Barrier
  aliasing_of : ℕ → ℕ → ℕ → Barrier
  uav_of : ℕ → ℕ → Barrier

abbrev pub info_of : Barrier → BarrierInfo
info_of (transition_of flags res sub from_state to_state) = record {
  kind = transition;
  resource = res;
  resource2 = 0;
  before = from_state;
  after = to_state;
  subresource = sub;
}
info_of (aliasing_of flags old new) = record {
  kind = aliasing;
  resource = old;
  resource2 = new;
  before = 0;
  after = 0;
  subresource = 0;
}
info_of (uav_of flags res) = record {
  kind = uav;
  resource = res;
  resource2 = 0;
  before = 0;
  after = 0;
  subresource = 0;
}

-- An entry's bytes, before those that follow.
unfoldable pub write_barrier : Barrier → List ℕ → List ℕ
write_barrier (transition_of flags res sub from_state to_state) rest =
    bytes_of 4 0
    ++ (bytes_of 4 flags
        ++ (bytes_of 8 res
            ++ (bytes_of 4 sub ++ (bytes_of 4 from_state ++ (bytes_of 4 to_state ++ rest)))))
write_barrier (aliasing_of flags old new) rest =
    bytes_of 4 1 ++ (bytes_of 4 flags ++ (bytes_of 8 old ++ (bytes_of 8 new ++ rest)))
write_barrier (uav_of flags res) rest =
    bytes_of 4 2 ++ (bytes_of 4 flags ++ (bytes_of 8 res ++ rest))

unfoldable pub write_entries : List Barrier → List ℕ
write_entries [] = []
write_entries (b ∷ bs) = write_barrier b (write_entries bs)

-- The list's handle, the count twice, and the entries.
unfoldable pub write_barriers : ℕ → List Barrier → List ℕ
write_barriers list_id bs =
    bytes_of 8 list_id ++ (bytes_of 4 (length bs) ++ (bytes_of 8 (length bs) ++ write_entries bs))

-- The fields that are read fit their words.
abbrev pub FitsWords : Barrier → Type 0
FitsWords (transition_of flags res sub from_state to_state) =
    (res < 2 ^ 64) × (sub < 2 ^ 32) × (from_state < 2 ^ 32) × (to_state < 2 ^ 32)
FitsWords (aliasing_of flags old new) = (old < 2 ^ 64) × (new < 2 ^ 64)
FitsWords (uav_of flags res) = res < 2 ^ 64

abbrev pub AllFit : List Barrier → Type 0
AllFit [] = Unit {0}
AllFit (b ∷ bs) = FitsWords b × AllFit bs

abbrev entry_size : Barrier → ℕ
entry_size (transition_of flags res sub from_state to_state) = 28
entry_size (aliasing_of flags old new) = 24
entry_size (uav_of flags res) = 16

module _ {ℓ} {A : Type ℓ} where
  drop_none : (k : ℕ) → drop {A = A} k [] ≡ []
  drop_none zero = refl
  drop_none (suc k) = refl

  drop-drop : (o k : ℕ) (s : List A) → drop (o + k) s ≡ drop k (drop o s)
  drop-drop zero k s = let e : 0 + k ≡ k = omega arith in ap (λ n. drop n s) e
  drop-drop (suc o) k [] = drop_none (suc o + k) ∙ sym (drop_none k)
  drop-drop (suc o) k (x ∷ s) =
      let e : suc o + k ≡ suc (o + k) = omega arith in ap (λ n. drop n (x ∷ s)) e ∙ drop-drop o k s

-- The words at a place behind a position at which some bytes stand.
module _ (s : List ℕ) (o : ℕ) (here : List ℕ) (e : drop o s ≡ here) where
  kind_word : (v : ℕ) (rest : List ℕ) → here ≡ bytes_of 4 v ++ rest → v < 2 ^ 32 → u32 s o ≡ some v
  unfolding u32
  kind_word v rest h fits = rw (e, h) (little-bytes_of 4 v rest fits)

  word32 :
      (k v : ℕ) (rest : List ℕ)
      → drop k here ≡ bytes_of 4 v ++ rest
      → v < 2 ^ 32
      → u32 s (o + k) ≡ some v
  unfolding u32
  word32 k v rest h fits = rw (drop-drop o k s, e, h) (little-bytes_of 4 v rest fits)

  word64 :
      (k v : ℕ) (rest : List ℕ)
      → drop k here ≡ bytes_of 8 v ++ rest
      → v < 2 ^ 64
      → u64 s (o + k) ≡ some v
  unfolding u64
  word64 k v rest h fits = rw (drop-drop o k s, e, h) (little-bytes_of 8 v rest fits)

-- What stands in the list, from a position on, ends inside it.
inside :
    (s : List ℕ) (o n : ℕ) (here : List ℕ)
    → drop o s ≡ here
    → n ≤ length here
    → 0 < n
    → leb (o + n) (length s) ≡ true
inside s o n here e fits h =
    let c = ap (λ l. length l) e in le→leb _ _ (omega (arith, length-drop o s, c, fits, h))

read_entry_lem :
    (s : List ℕ) (o : ℕ) (b : Barrier) (rest : List ℕ)
    → drop o s ≡ write_barrier b rest
    → FitsWords b
    → read_entry s o ≡ parsed (info_of b, o + entry_size b)
unfolding write_barrier bytes_of read_entry read_arm read_transition read_aliasing read_uav
read_entry_lem s o (uav_of flags res) rest e fits =
    let kind = kind_word s o _ e 2 _ refl (omega arith) in
    let room = inside s o 16 _ e (omega arith) (omega arith) in
    let r = word64 s o _ e 8 res rest refl fits in
    rw (read_entry, kind, read_arm, room, read_uav, r)
read_entry_lem s o (aliasing_of flags old new) rest e (fits, fits2) =
    let kind = kind_word s o _ e 1 _ refl (omega arith) in
    let room = inside s o 24 _ e (omega arith) (omega arith) in
    let r = word64 s o _ e 8 old _ refl fits in
    let r2 = word64 s o _ e 16 new rest refl fits2 in
    rw (read_entry, kind, read_arm, room, read_aliasing, r, r2)
read_entry_lem s o (transition_of flags res sub from_state to_state) rest e (fr, fs, fb, fa) =
    let kind = kind_word s o _ e 0 _ refl (omega arith) in
    let room = inside s o 28 _ e (omega arith) (omega arith) in
    let r = word64 s o _ e 8 res _ refl fr in
    let sb = word32 s o _ e 16 sub _ refl fs in
    let bf = word32 s o _ e 20 from_state _ refl fb in
    let af = word32 s o _ e 24 to_state rest refl fa in
    rw (read_entry, kind, read_arm, room, read_transition, r, bf, af, sb)

drop-write_barrier :
    (b : Barrier) (rest : List ℕ) → drop (entry_size b) (write_barrier b rest) ≡ rest
unfolding write_barrier bytes_of
drop-write_barrier (transition_of flags res sub from_state to_state) rest = refl
drop-write_barrier (aliasing_of flags old new) rest = refl
drop-write_barrier (uav_of flags res) rest = refl

entry_inside :
    (s : List ℕ) (o : ℕ) (b : Barrier) (rest : List ℕ)
    → drop o s ≡ write_barrier b rest
    → o + entry_size b ≤ length s
unfolding write_barrier bytes_of
entry_inside s o (transition_of flags res sub from_state to_state) rest e =
    let c = ap (λ l. length l) e in omega (arith, length-drop o s, c)
entry_inside s o (aliasing_of flags old new) rest e =
    let c = ap (λ l. length l) e in omega (arith, length-drop o s, c)
entry_inside s o (uav_of flags res) rest e =
    let c = ap (λ l. length l) e in omega (arith, length-drop o s, c)

barriers_from_more :
    (n : ℕ) (s : List ℕ) (count o next : ℕ) (out : List BarrierInfo) (entry : BarrierInfo)
    → read_entry s o ≡ parsed (entry, next)
    → barriers_from (suc n) s count o out ≡ barriers_from n s count next (out ++ (entry ∷ []))
unfolding barriers_from
barriers_from_more n s count o next out entry e = rw (barriers_from, e)

walk_entries :
    (bs : List Barrier) (s : List ℕ) (count o : ℕ) (out : List BarrierInfo)
    → drop o s ≡ write_entries bs
    → AllFit bs
    → length out + length bs ≡ count
    → o ≤ length s
    → barriers_from (length bs) s count o out ≡ parsed (out ++ map info_of bs)
unfolding write_entries
walk_entries [] s count o out e fits n h =
    let c = ap (λ l. length l) e in
    let len : o ≡ length s = omega (arith, length-drop o s, c, h) in
    let all : length out ≡ count = omega (arith, n) in
    unfold barriers_from in unfold at_the_end in ground (arith, len, all, append-nil out)
walk_entries (b ∷ bs) s count o out e (fit, fits) n h =
    barriers_from_more (length bs) s count o (o + entry_size b) out (info_of b)
      (read_entry_lem s o b (write_entries bs) e fit)
    ∙ walk_entries bs s count (o + entry_size b) (out ++ (info_of b ∷ []))
        (drop-drop o (entry_size b) s
          ∙ ap (λ l. drop (entry_size b) l) e
          ∙ drop-write_barrier b (write_entries bs))
        fits (omega (arith, length-append out (info_of b ∷ []), n))
        (entry_inside s o b (write_entries bs) e)
    ∙ ap parsed (append_assoc out (info_of b ∷ []) (map info_of bs))

-- A barrier payload is read back, entry for entry, where its fields and its count fit their words.
pub parse_barriers-write_barriers :
    (list_id : ℕ) (bs : List Barrier)
    → AllFit bs
    → length bs < 2 ^ 32
    → parse_barriers (write_barriers list_id bs) ≡ parsed (map info_of bs)
unfolding parse_barriers write_barriers bytes_of
parse_barriers-write_barriers list_id bs fits n =
    let s = write_barriers list_id bs in
    let long : ltb (length s) 20 ≡ false = gt→ltb _ _ (omega arith) in
    let count : u32 s 8 ≡ some (length bs) = word32 s 0 s refl 8 (length bs) _ refl n in
    let again : u64 s 12 ≡ some (length bs) =
      word64 s 0 s refl 12 (length bs) (write_entries bs) refl (omega (arith, n)) in
    let same : (length bs == length bs) ≡ true = ground arith in
    let rest = walk_entries bs s (length bs) 20 [] refl fits (omega arith) (omega arith) in
    rw (parse_barriers, long, count, again, same) rest
