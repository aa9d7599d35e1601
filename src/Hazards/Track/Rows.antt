-- ===== src/Hazards/Track/Rows.antt =====
-- The rows that the claims leave behind, list by list and resource by resource.
use rdc_tools.Prelude.{
  ℕ, ◌≡◌, refl, sym, ap, ◌∙◌, arith, inl, inr, true, false, List, [], ◌∷◌, ◌++◌, append_assoc,
  append-nil, Bool-cases, ◌==◌, if◌then◌else◌,
}
use rdc_tools.Hazards.Track.{
  all_subresources, is_whole, Row, Claim, Rows, Tracked, same_key, rows_of, append_row, claimed_row,
  claim, claim_all,
}

module _ (l r list_id rid : ℕ) (rows : List Row) (track : Rows) where
  rows_of_here : same_key l r list_id rid ≡ true → rows_of ((list_id, rid, rows) ∷ track) l r ≡ rows
  unfolding rows_of
  rows_of_here e = rw (rows_of, e)

  rows_of_there :
      same_key l r list_id rid ≡ false
      → rows_of ((list_id, rid, rows) ∷ track) l r ≡ rows_of track l r
  unfolding rows_of
  rows_of_there e = rw (rows_of, e)

  append_here :
      (row : Row)
      → same_key l r list_id rid ≡ true
      → append_row ((list_id, rid, rows) ∷ track) l r row
        ≡ (list_id, rid, rows ++ (row ∷ [])) ∷ track
  unfolding append_row
  append_here row e = rw (append_row, e)

  append_there :
      (row : Row)
      → same_key l r list_id rid ≡ false
      → append_row ((list_id, rid, rows) ∷ track) l r row
        ≡ (list_id, rid, rows) ∷ append_row track l r row
  unfolding append_row
  append_there row e = rw (append_row, e)

same_key_trans :
    (a b c d e f : ℕ) → same_key a b c d ≡ true → same_key e f c d ≡ true → same_key e f a b ≡ true
same_key_trans a b c d e f h k = ground (arith, h, k)

same_key_apart :
    (a b c d e f : ℕ)
    → same_key a b c d ≡ true
    → same_key e f c d ≡ false
    → same_key e f a b ≡ false
same_key_apart a b c d e f h k = ground (arith, h, k)

same_key_differ :
    (a b c d e f : ℕ)
    → same_key a b c d ≡ false
    → same_key e f c d ≡ true
    → same_key e f a b ≡ false
same_key_differ a b c d e f h k = ground (arith, h, k)

-- A row is found behind those of its own key, and nowhere else.
rows_of-append_row :
    (track : Rows) (l r : ℕ) (row : Row) (k q : ℕ)
    → rows_of (append_row track l r row) k q
      ≡ rows_of track k q ++ (if same_key k q l r then row ∷ [] else [])
rows_of-append_row [] l r row k q = unfold append_row in unfold rows_of in refl
rows_of-append_row ((list_id, rid, rows) ∷ track) l r row k q =
    elim (Bool-cases (same_key l r list_id rid)) [
      | inl e ↦ elim (Bool-cases (same_key k q list_id rid)) [
        | inl f ↦
            ap (λ t. rows_of t k q) (append_here l r list_id rid rows track row e)
            ∙ rows_of_here k q list_id rid (rows ++ (row ∷ [])) track f
            ∙ rw (rows_of_here k q list_id rid rows track f, same_key_trans l r list_id rid k q e f)
        | inr f ↦
            ap (λ t. rows_of t k q) (append_here l r list_id rid rows track row e)
            ∙ rows_of_there k q list_id rid (rows ++ (row ∷ [])) track f
            ∙ rw (
              rows_of_there k q list_id rid rows track f,
              same_key_apart l r list_id rid k q e f,
              append-nil (rows_of track k q),
            )
      ]
      | inr e ↦
          ap (λ t. rows_of t k q) (append_there l r list_id rid rows track row e)
          ∙ (elim (Bool-cases (same_key k q list_id rid)) [
            | inl f ↦
                rows_of_here k q list_id rid rows (append_row track l r row) f
                ∙ rw (
                  rows_of_here k q list_id rid rows track f,
                  same_key_differ l r list_id rid k q e f,
                  append-nil rows,
                )
            | inr f ↦
                rows_of_there k q list_id rid rows (append_row track l r row) f
                ∙ rows_of-append_row track l r row k q
                ∙ rw (rows_of_there k q list_id rid rows track f)
          ])
    ]

pub claimed_row-is_whole :
    (c : Claim) → ((claimed_row c).sub == all_subresources) ≡ is_whole c.subresource
claimed_row-is_whole c = ground arith

-- The rows of the claims of one command list on one resource.
unfoldable pub rows_in : ℕ → ℕ → List Claim → List Row
rows_in k q [] = []
rows_in k q (c ∷ cs) =
    (if same_key k q c.list_id c.rid then claimed_row c ∷ [] else []) ++ rows_in k q cs

pub rows_of-claim :
    (t : Tracked) (c : Claim) (k q : ℕ)
    → rows_of (claim t c).track k q
      ≡ rows_of t.track k q ++ (if same_key k q c.list_id c.rid then claimed_row c ∷ [] else [])
unfolding claim
rows_of-claim t c k q = rows_of-append_row t.track c.list_id c.rid (claimed_row c) k q

pub rows_of-claim_all :
    (cs : List Claim) (t : Tracked) (k q : ℕ)
    → rows_of (claim_all t cs).track k q ≡ rows_of t.track k q ++ rows_in k q cs
unfolding claim_all rows_in
rows_of-claim_all [] t k q = sym (append-nil (rows_of t.track k q))
rows_of-claim_all (c ∷ cs) t k q =
    rows_of-claim_all cs (claim t c) k q
    ∙ ap (λ rows. rows ++ rows_in k q cs) (rows_of-claim t c k q)
    ∙ append_assoc (rows_of t.track k q) _ (rows_in k q cs)
