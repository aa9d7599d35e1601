-- ===== src/Bundle/Detect.antt =====
-- The detectors of src/py/rdc_detect_usage.py over the usage chains. A line of evidence is a value with
-- the numbers and names that its text shows, and a dictionary of groups the list of its entries.
pub mod Found
pub mod Steps
pub mod Rules
use rdc_tools.Prelude.{
  ℕ, ◌-◌, max, Bool, not, ◌&&◌, ◌||◌, Option, none, some, List, [], ◌∷◌, ◌++◌, codes, bytes_eq,
  true, false, map, take, length, ltb, leb, ◌==◌, sorted_by, if◌then◌else◌, ◌>>=◌,
}
use rdc_tools.Uses.{any, find, keep}
use rdc_tools.Bundle.Rows.{Text, texts_eq, BundleEvent, BundleResource}
use rdc_tools.Bundle.Passes.{ReportPass, is_compute, reconstruct_passes}
use rdc_tools.Bundle.Usage.{
  Entry, UsageChain, UsageChains, usage_reads, usage_writes, usage_targets, text_less, text_in,
  usage_judged, names_in, meets,
}

abbrev pub usage_list_limit : ℕ
usage_list_limit = 8

-- A resource that is read before it is written: `names` are the reads of the first event that has
-- one, `write` the first event that writes it, or 0.
pub record ReadFinding : Type 0 where
  pub resource : BundleResource
  pub names : List Text
  pub read : ℕ
  pub write : ℕ

pub record WriteFinding : Type 0 where
  pub resource : BundleResource
  pub names : List Text
  pub write : ℕ

pub record TargetFinding : Type 0 where
  pub resource : BundleResource
  pub names : List Text
  pub target : ℕ
  pub before : UsageChain

pub record DeadBinding : Type 0 where
  pub resource : BundleResource
  pub bound : List ℕ
  pub last_use : ℕ
  pub names : List Text

abbrev pub reads_at : Entry → Bool
reads_at (eid, names) = meets usage_reads names

abbrev pub writes_at : Entry → Bool
writes_at (eid, names) = meets usage_writes names

abbrev pub entry_eid : Option Entry → ℕ
entry_eid entry = elim entry [ none ↦ 0 | some (eid, names) ↦ eid ]

unfoldable pub first_read : BundleResource → UsageChain → Option ReadFinding
first_read resource chain = elim (find reads_at chain) [
  | none ↦ none
  | some (eid, names) ↦
      (if any (λ (e, ns). leb e eid && meets usage_writes ns) chain
        then none
        else some (record {
          resource = resource;
          names = names_in usage_reads names;
          read = eid;
          write = entry_eid (find writes_at chain);
        }))
]

unfoldable pub flag_read_before_write : Option UsageChains → BundleResource → Option ReadFinding
flag_read_before_write chains resource = do
  chain ← usage_judged resource chains
  first_read resource chain

-- `max((eid for ...), default=0)`
abbrev pub last_eid : (Entry → Bool) → UsageChain → ℕ
last_eid p [] = 0
last_eid p ((eid, names) ∷ chain) =
    let rest = last_eid p chain in if p (eid, names) then max eid rest else rest

-- The names of the first entry of an event, or none.
abbrev pub names_at : ℕ → UsageChain → List Text
names_at eid chain = elim (find (λ (e, ns). e == eid) chain) [ none ↦ [] | some (e, ns) ↦ ns ]

unfoldable pub last_write : BundleResource → UsageChain → Option WriteFinding
last_write resource chain =
    let last = last_eid writes_at chain in
    if last == 0 || any (λ (e, ns). ltb last e && meets usage_reads ns) chain
    then none
    else some (record {
      resource = resource;
      names = names_in usage_writes (names_at last chain);
      write = last;
    })

unfoldable pub flag_write_never_read : Option UsageChains → BundleResource → Option WriteFinding
flag_write_never_read chains resource = do
  chain ← usage_judged resource chains
  last_write resource chain

unfoldable pub first_target : BundleResource → UsageChain → Option TargetFinding
first_target resource chain = elim (find (λ (e, ns). meets usage_targets ns) chain) [
  | none ↦ none
  | some (eid, names) ↦
      let before = keep (λ (e, ns). ltb e eid) chain in
      if any writes_at before
      then none
      else some (record {
        resource = resource;
        names = names_in usage_targets names;
        target = eid;
        before = before;
      })
]

unfoldable pub flag_load_instead_of_clear :
    Option UsageChains → BundleResource → Option TargetFinding
flag_load_instead_of_clear chains resource = do
  chain ← usage_judged resource chains
  first_target resource chain

abbrev pub eids_of : UsageChain → List ℕ
eids_of [] = []
eids_of ((eid, names) ∷ chain) = eid ∷ eids_of chain

abbrev pub bound_at : ℕ → ℕ → Entry → Bool
bound_at first last (eid, names) =
    (leb first eid && leb eid last) && meets (codes "CS_RWResource" ∷ []) names

unfoldable pub dead_in : ℕ → ℕ → BundleResource → UsageChain → Option DeadBinding
dead_in first last resource chain =
    if not (any (bound_at first last) chain)
    then none
    else if any (λ (e, ns). ltb last e && meets usage_reads ns) chain
    then none
    else some (record {
      resource = resource;
      bound = eids_of (keep (bound_at first last) chain);
      last_use = last_eid (λ e. true) chain;
      names = names_at (last_eid (λ e. true) chain) chain;
    })

unfoldable pub dead_binding : Option UsageChains → ℕ → ℕ → BundleResource → Option DeadBinding
dead_binding chains first last resource = do
  chain ← usage_judged resource chains
  dead_in first last resource chain

-- `a < b`, for keys.
abbrev pub texts_less : List Text → List Text → Bool
texts_less [] [] = false
texts_less [] (y ∷ ys) = true
texts_less (x ∷ xs) [] = false
texts_less (x ∷ xs) (y ∷ ys) = text_less x y || (bytes_eq x y && texts_less xs ys)

module _ {ℓ κ} {A : Type ℓ} {B : Type κ} where
  -- What a detector finds in a list.
  unfoldable pub found_in : (A → Option B) → List A → List B
  found_in f [] = []
  found_in f (x ∷ xs) = elim (f x) [ none ↦ found_in f xs | some y ↦ y ∷ found_in f xs ]

-- A finding of a group: its key, how many lines it has, and the first of them.
pub record UsageFlag {ℓ} (A : Type ℓ) : Type ℓ where
  pub key : List Text
  pub count : ℕ
  pub lines : List A
  pub unlisted : ℕ

module _ {ℓ} {A : Type ℓ} where
  abbrev pub usage_flag : List Text × List A → UsageFlag A
  usage_flag (key, lines) = record {
    key = key;
    count = length lines;
    lines = take usage_list_limit lines;
    unlisted = length lines - usage_list_limit;
  }

  -- `groups.setdefault(key, []).append(line)`
  unfoldable pub add_line : List Text → A → List (List Text × List A) → List (List Text × List A)
  add_line key line [] = (key, line ∷ []) ∷ []
  add_line key line ((k, lines) ∷ groups) =
      let rest = add_line key line groups in
      if texts_eq k key then (k, lines ++ (line ∷ [])) ∷ groups else (k, lines) ∷ rest

  unfoldable pub grouped_by :
      (A → List Text) → List (List Text × List A) → List A → List (List Text × List A)
  grouped_by key groups [] = groups
  grouped_by key groups (x ∷ xs) = grouped_by key (add_line (key x) x groups) xs

  abbrev pub flags_of : (A → List Text) → List A → List (UsageFlag A)
  flags_of key found =
      map usage_flag (sorted_by (λ a b. not (texts_less b.0 a.0)) (grouped_by key [] found))

-- `', '.join(names)`
abbrev pub join_names : List Text → Text
join_names [] = []
join_names (n ∷ []) = n
join_names (n ∷ m ∷ ns) = n ++ (codes ", " ++ join_names (m ∷ ns))

abbrev pub by_id : List BundleResource → List BundleResource
by_id resources = sorted_by (λ r s. leb r.resource s.resource) resources

unfoldable pub detect_read_before_write :
    List BundleResource → Option UsageChains → List (UsageFlag ReadFinding)
detect_read_before_write resources chains =
    flags_of (λ f. f.resource.kind ∷ join_names f.names ∷ [])
      (found_in (flag_read_before_write chains) (by_id resources))

unfoldable pub detect_write_never_read :
    List BundleResource → Option UsageChains → List (UsageFlag WriteFinding)
detect_write_never_read resources chains =
    flags_of (λ f. join_names f.names ∷ [])
      (found_in (flag_write_never_read chains) (by_id resources))

unfoldable pub detect_load_instead_of_clear :
    List BundleResource → Option UsageChains → List TargetFinding
detect_load_instead_of_clear resources chains =
    found_in (flag_load_instead_of_clear chains) (by_id resources)

-- A compute pass with the bindings whose results nothing reads.
pub record DeadPass : Type 0 where
  pub first : ℕ
  pub last : ℕ
  pub flag : UsageFlag DeadBinding

abbrev pub dead_pass : List BundleResource → Option UsageChains → ReportPass → Option DeadPass
dead_pass resources chains entry =
    let lines = found_in (dead_binding chains entry.first_eid entry.last_eid) resources in
    if not (is_compute entry.kind) || length lines == 0
    then none
    else some
        (record { first = entry.first_eid; last = entry.last_eid; flag = usage_flag ([], lines) })

-- The passes are reconstructed where the caller has none.
unfoldable pub detect_dead_compute :
    List BundleEvent
    → List BundleResource
    → Option UsageChains
    → Option (List ReportPass)
    → List DeadPass
detect_dead_compute events resources chains passes =
    found_in (dead_pass resources chains)
      (elim passes [ none ↦ reconstruct_passes events resources | some given ↦ given ])
