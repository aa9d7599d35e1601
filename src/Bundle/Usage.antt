-- ===== src/Bundle/Usage.antt =====
-- The usage chains of src/py/rdc_detect_common.py: which events use a resource, and how. A set of names
-- is an ascending list with each name once, and a dictionary the list of its entries.
pub mod Chain
pub mod Shared
use rdc_tools.Prelude.{
  ℕ, zero, suc, ◌+◌, ◌/◌, ◌%◌, Bool, true, false, not, ◌&&◌, ◌||◌, Option, none, some, List, [],
  ◌∷◌, ◌++◌, map, codes, bytes_eq, decimal, get_elem?, ltb, leb, ◌==◌, sorted_by, if◌then◌else◌,
}
use rdc_tools.Uses.{any}
use rdc_tools.Bundle.Rows.{Text, texts_eq, BundleUsage, BundleResource}

abbrev pub text_in : Text → List Text → Bool
text_in t [] = false
text_in t (u ∷ us) = bytes_eq t u || text_in t us

-- `USAGE_READS`, `USAGE_WRITES` and `USAGE_TARGETS`, the families of the stages written out.
abbrev pub usage_reads : List Text
usage_reads =
    codes "VertexBuffer"
    ∷ codes "IndexBuffer"
    ∷ codes "InputTarget"
    ∷ codes "Indirect"
    ∷ codes "ResolveSrc"
    ∷ codes "CopySrc"
    ∷ codes "Resolve"
    ∷ codes "Copy"
    ∷ codes "All_Constants"
    ∷ codes "All_Resource"
    ∷ codes "VS_Constants"
    ∷ codes "HS_Constants"
    ∷ codes "DS_Constants"
    ∷ codes "GS_Constants"
    ∷ codes "PS_Constants"
    ∷ codes "CS_Constants"
    ∷ codes "TS_Constants"
    ∷ codes "MS_Constants"
    ∷ codes "VS_Resource"
    ∷ codes "HS_Resource"
    ∷ codes "DS_Resource"
    ∷ codes "GS_Resource"
    ∷ codes "PS_Resource"
    ∷ codes "CS_Resource"
    ∷ codes "TS_Resource"
    ∷ codes "MS_Resource"
    ∷ []

abbrev pub usage_writes : List Text
usage_writes =
    codes "ColorTarget"
    ∷ codes "DepthStencilTarget"
    ∷ codes "Clear"
    ∷ codes "Discard"
    ∷ codes "GenMips"
    ∷ codes "StreamOut"
    ∷ codes "ResolveDst"
    ∷ codes "CopyDst"
    ∷ codes "CPUWrite"
    ∷ codes "Resolve"
    ∷ codes "Copy"
    ∷ codes "All_RWResource"
    ∷ codes "VS_RWResource"
    ∷ codes "HS_RWResource"
    ∷ codes "DS_RWResource"
    ∷ codes "GS_RWResource"
    ∷ codes "PS_RWResource"
    ∷ codes "CS_RWResource"
    ∷ codes "TS_RWResource"
    ∷ codes "MS_RWResource"
    ∷ []

abbrev pub usage_targets : List Text
usage_targets = codes "ColorTarget" ∷ codes "DepthStencilTarget" ∷ []

abbrev pub usage_names : List Text
usage_names =
    codes "Unused"
    ∷ codes "VertexBuffer"
    ∷ codes "IndexBuffer"
    ∷ codes "VS_Constants"
    ∷ codes "HS_Constants"
    ∷ codes "DS_Constants"
    ∷ codes "GS_Constants"
    ∷ codes "PS_Constants"
    ∷ codes "CS_Constants"
    ∷ codes "TS_Constants"
    ∷ codes "MS_Constants"
    ∷ codes "All_Constants"
    ∷ codes "StreamOut"
    ∷ codes "VS_Resource"
    ∷ codes "HS_Resource"
    ∷ codes "DS_Resource"
    ∷ codes "GS_Resource"
    ∷ codes "PS_Resource"
    ∷ codes "CS_Resource"
    ∷ codes "TS_Resource"
    ∷ codes "MS_Resource"
    ∷ codes "All_Resource"
    ∷ codes "VS_RWResource"
    ∷ codes "HS_RWResource"
    ∷ codes "DS_RWResource"
    ∷ codes "GS_RWResource"
    ∷ codes "PS_RWResource"
    ∷ codes "CS_RWResource"
    ∷ codes "TS_RWResource"
    ∷ codes "MS_RWResource"
    ∷ codes "All_RWResource"
    ∷ codes "InputTarget"
    ∷ codes "ColorTarget"
    ∷ codes "DepthStencilTarget"
    ∷ codes "Indirect"
    ∷ codes "Clear"
    ∷ codes "Discard"
    ∷ codes "GenMips"
    ∷ codes "Resolve"
    ∷ codes "ResolveSrc"
    ∷ codes "ResolveDst"
    ∷ codes "Copy"
    ∷ codes "CopySrc"
    ∷ codes "CopyDst"
    ∷ codes "Barrier"
    ∷ codes "CPUWrite"
    ∷ []

unfoldable pub usage_name : ℕ → Text
usage_name value = elim (get_elem? usage_names value) [
  | none ↦ codes "usage(" ++ (decimal value ++ codes ")")
  | some name ↦ name
]

-- `a < b`, for texts.
abbrev pub text_less : Text → Text → Bool
text_less [] [] = false
text_less [] (y ∷ ys) = true
text_less (x ∷ xs) [] = false
text_less (x ∷ xs) (y ∷ ys) = ltb x y || (x == y && text_less xs ys)

-- `names.add(name)`
unfoldable pub add_name : Text → List Text → List Text
add_name name [] = name ∷ []
add_name name (n ∷ ns) =
    let rest = add_name name ns in
    if bytes_eq name n then n ∷ ns else if text_less name n then name ∷ n ∷ ns else n ∷ rest

abbrev pub Entry : Type 0
Entry = ℕ × List Text

abbrev pub UsageChain : Type 0
UsageChain = List Entry

-- `per_event.setdefault(eid, set()).add(name)`
unfoldable pub add_usage : ℕ → Text → UsageChain → UsageChain
add_usage eid name [] = (eid, name ∷ []) ∷ []
add_usage eid name ((other, names) ∷ chain) =
    let rest = add_usage eid name chain in
    if other == eid then (other, add_name name names) ∷ chain else (other, names) ∷ rest

unfoldable pub per_event : UsageChain → List BundleUsage → UsageChain
per_event chain [] = chain
per_event chain (u ∷ us) = per_event (add_usage u.eid (usage_name u.usage) chain) us

unfoldable pub usage_chain : BundleResource → UsageChain
usage_chain resource = sorted_by (λ a b. leb a.0 b.0) (per_event [] resource.usage)

abbrev pub UsageChains : Type 0
UsageChains = List (ℕ × UsageChain)

-- `chains[key] = chain`
unfoldable pub put_chain : ℕ → UsageChain → UsageChains → UsageChains
put_chain key chain [] = (key, chain) ∷ []
put_chain key chain ((k, c) ∷ chains) =
    let rest = put_chain key chain chains in if k == key then (k, chain) ∷ chains else (k, c) ∷ rest

unfoldable pub chains_from : UsageChains → List BundleResource → UsageChains
chains_from chains [] = chains
chains_from chains (r ∷ rs) = chains_from (put_chain r.resource (usage_chain r) chains) rs

unfoldable pub usage_chain_map : List BundleResource → UsageChains
usage_chain_map resources = chains_from [] resources

abbrev pub chain_at : ℕ → UsageChains → Option UsageChain
chain_at key [] = none
chain_at key ((k, c) ∷ chains) = if k == key then some c else chain_at key chains

unfoldable pub chain_of : BundleResource → Option UsageChains → UsageChain
chain_of resource none = usage_chain resource
chain_of resource (some chains) = elim (chain_at resource.resource chains) [
  | none ↦ usage_chain resource
  | some chain ↦ chain
]

-- A texture or a buffer.
abbrev pub can_judge : BundleResource → Bool
can_judge resource = text_in resource.kind (codes "texture" ∷ codes "buffer" ∷ [])

-- `not chain or (len(chain) == 1 and chain[0][1] == frozenset(['Unused']))`
abbrev pub untracked : UsageChain → Bool
untracked [] = true
untracked ((eid, names) ∷ []) = texts_eq names (codes "Unused" ∷ [])
untracked (a ∷ b ∷ chain) = false

unfoldable pub usage_judged : BundleResource → Option UsageChains → Option UsageChain
usage_judged resource chains =
    if not (can_judge resource)
    then none
    else if untracked (chain_of resource chains)
    then none
    else some (chain_of resource chains)

-- `names & kinds`, and whether it has any name.
abbrev pub names_in : List Text → List Text → List Text
names_in kinds [] = []
names_in kinds (n ∷ ns) = if text_in n kinds then n ∷ names_in kinds ns else names_in kinds ns

abbrev pub meets : List Text → List Text → Bool
meets kinds names = any (λ n. text_in n kinds) names
