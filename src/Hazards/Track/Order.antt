-- ===== src/Hazards/Track/Order.antt =====
-- The claims of a stream come in the order of its events.
use rdc_tools.Prelude.{
  ℕ, suc, ◌≤◌, ◌≡◌, refl, arith, not, ◌&&◌, Option, none, some, List, [], ◌∷◌, ◌++◌, ◌==◌, ◌>>=◌,
  if_cases, option_cases,
}
use rdc_tools.Names.{ChunkNames, is_in, name_of, barrier_chunks}
use rdc_tools.Stream.Frame.{ChunkInfo, chunk_payload}
use rdc_tools.Barriers.{
  Decoded, parsed, refused, struct_error, BarrierInfo, GroupBarrier, parse_barriers,
  parse_barrier_groups,
}
use rdc_tools.Hazards.Track.{
  Claim, is_transition, entry_claims, group_claims, payload_claims, list_of, chunk_claims,
  claims_from,
}

unfoldable pub IsOrdered : ℕ → List Claim → Type 0
IsOrdered n [] = Unit {0}
IsOrdered n (c ∷ cs) = (n ≤ c.eid) × IsOrdered c.eid cs

unfoldable AllAt : ℕ → List Claim → Type 0
AllAt n [] = Unit {0}
AllAt n (c ∷ cs) = (c.eid ≡ n) × AllAt n cs

-- Where there are claims, they are at the event.
unfoldable Answers : ℕ → Option (List Claim) → Type 0
unfolding AllAt
Answers n none = Unit
Answers n (some cs) = AllAt n cs

entry_claims-AllAt : (l n : ℕ) (es : List BarrierInfo) → AllAt n (entry_claims l n es)
unfolding AllAt entry_claims
entry_claims-AllAt l n [] = tt
entry_claims-AllAt l n (e ∷ es) =
    let ih = entry_claims-AllAt l n es in
    if_cases (AllAt n) (is_transition e && not (e.resource == 0)) _ _ (λ t. (refl, ih)) (λ f. ih)

group_claims-AllAt : (l n : ℕ) (gs : List GroupBarrier) → AllAt n (group_claims l n gs)
unfolding AllAt group_claims
group_claims-AllAt l n [] = tt
group_claims-AllAt l n (g ∷ gs) =
    let ih = group_claims-AllAt l n gs in
    if_cases (AllAt n) (g.resource == 0) _ _ (λ t. ih) (λ f. (refl, ih))

groups-Answers :
    (l n : ℕ) (p : Decoded (List GroupBarrier))
    → Answers n (elim p [
      | parsed gs ↦ some (group_claims l n gs)
      | refused ↦ some []
      | struct_error ↦ none
    ])
unfolding Answers AllAt
groups-Answers l n (parsed gs) = group_claims-AllAt l n gs
groups-Answers l n refused = tt
groups-Answers l n struct_error = tt

barriers-Answers :
    (l n : ℕ) (p : Decoded (List BarrierInfo)) (more : Option (List Claim))
    → Answers n more
    → Answers n
        (elim p [ parsed es ↦ some (entry_claims l n es) | refused ↦ more | struct_error ↦ none ])
unfolding Answers
barriers-Answers l n (parsed es) more a = entry_claims-AllAt l n es
barriers-Answers l n refused more a = a
barriers-Answers l n struct_error more a = tt

payload_claims-Answers : (blob : List ℕ) (l n : ℕ) → Answers n (payload_claims blob l n)
unfolding payload_claims
payload_claims-Answers blob l n =
    barriers-Answers l n (parse_barriers blob) _ (groups-Answers l n (parse_barrier_groups blob))

append-IsOrdered :
    (n : ℕ) (cs bs : List Claim) → AllAt n cs → IsOrdered (suc n) bs → IsOrdered n (cs ++ bs)
unfolding AllAt IsOrdered
append-IsOrdered n [] [] a o = tt
append-IsOrdered n [] (b ∷ bs) a (o, p) = (omega (arith, o), p)
append-IsOrdered n (c ∷ cs) bs (e, a) o = (omega (arith, e), rw e (append-IsOrdered n cs bs a o))

-- The same of claims that may go on behind the event.
unfoldable Follows : ℕ → Option (List Claim) → Type 0
unfolding IsOrdered
Follows n none = Unit
Follows n (some cs) = IsOrdered n cs

joined-Follows :
    (n : ℕ) (here rest : Option (List Claim))
    → Answers n here
    → Follows (suc n) rest
    → Follows n (here >>= λ h. rest >>= λ r. some (h ++ r))
unfolding Answers Follows
joined-Follows n none rest a f = tt
joined-Follows n (some h) none a f = tt
joined-Follows n (some h) (some r) a f = append-IsOrdered n h r a f

claims-IsOrdered :
    (n : ℕ) (o : Option (List Claim)) (cs : List Claim) → Follows n o → o ≡ some cs → IsOrdered n cs
unfolding Follows
claims-IsOrdered n o cs f e = rw e at f

module _ (names : ChunkNames) (stream : List ℕ) where
  chunk_claims-Answers : (ch : ChunkInfo) (n : ℕ) → Answers n (chunk_claims names stream ch n)
  unfolding Answers AllAt
  chunk_claims-Answers ch n =
      option_cases (Answers n) (list_of names stream ch) _ _ (λ e. tt)
        (λ l e.
          if_cases (Answers n) (is_in (name_of names ch.id) barrier_chunks) _ _
            (λ t. payload_claims-Answers (chunk_payload stream ch) l n) (λ f. tt))

  claims_more :
      (ch : ChunkInfo) (chunks : List ChunkInfo) (n : ℕ)
      → Follows (suc n) (claims_from names stream (suc n) chunks)
      → Follows n (claims_from names stream n (ch ∷ chunks))
  unfolding claims_from
  claims_more ch chunks n =
      joined-Follows n (chunk_claims names stream ch n) (claims_from names stream (suc n) chunks)
        (chunk_claims-Answers ch n)

  claims_from-Follows :
      (chunks : List ChunkInfo) (n : ℕ) → Follows n (claims_from names stream n chunks)
  claims_from-Follows [] n = unfold claims_from in unfold Follows in unfold IsOrdered in tt
  claims_from-Follows (ch ∷ chunks) n = claims_more ch chunks n (claims_from-Follows chunks (suc n))

  pub claims_from-IsOrdered :
      (chunks : List ChunkInfo) (n : ℕ) (cs : List Claim)
      → claims_from names stream n chunks ≡ some cs
      → IsOrdered n cs
  claims_from-IsOrdered chunks n cs = claims-IsOrdered n _ cs (claims_from-Follows chunks n)
