-- ===== src/Bundle/Rows.antt =====
-- The rows of a bundle, `BundleEvent` and `BundleResource` of src/py/rdc_bundle.py, and its helpers on the
-- texts that the rows hold. A text is its code points. A key with an empty default is the default where
-- it is missing.
use rdc_tools.Prelude.{
  ℕ, Bool, true, false, not, ◌&&◌, ◌||◌, Option, none, some, List, [], ◌∷◌, ◌++◌, codes, bytes_eq,
  ◌==◌, if◌then◌else◌,
}
use rdc_tools.Passes.Paths.{is_space, strip}
use rdc_tools.Uses.Provenance.{strip_prefix}

abbrev pub Text : Type 0
Text = List ℕ

-- The `volume` of a call, each number 0 where it is missing.
pub record Volume : Type 0 where
  pub vertices : ℕ
  pub instances : ℕ
  pub triangles : ℕ
  pub threads : ℕ

-- `volume` is `none` where the key is missing or holds an empty object.
pub record BundleEvent : Type 0 where
  pub eid : ℕ
  pub marker : Text
  pub pso : Text
  pub pso_kind : Option Text
  pub shaders : Text
  pub targets : List Text
  pub depth : Option Text
  pub volume : Option Volume

pub record BundleUsage : Type 0 where
  pub eid : ℕ
  pub usage : ℕ

-- `resource` is the number that the key holds. A bundle without usage has a text under `usage`, which
-- has no rows.
pub record BundleResource : Type 0 where
  pub resource : ℕ
  pub kind : Text
  pub first_event : ℕ
  pub usage : List BundleUsage

-- `x == y`, for lists of texts.
abbrev pub texts_eq : List Text → List Text → Bool
texts_eq [] [] = true
texts_eq [] (y ∷ ys) = false
texts_eq (x ∷ xs) [] = false
texts_eq (x ∷ xs) (y ∷ ys) = bytes_eq x y && texts_eq xs ys

-- `text.split()`, the words between the spaces: `word` holds the one that is being read.
unfoldable pub split_from : Text → Text → List Text
split_from [] word = elim word [ [] ↦ [] | w ∷ ws ↦ (w ∷ ws) ∷ [] ]
split_from (c ∷ cs) word =
    let rest = split_from cs [] in
    let longer = split_from cs (word ++ (c ∷ [])) in
    if is_space c then elim word [ [] ↦ rest | w ∷ ws ↦ (w ∷ ws) ∷ rest ] else longer

-- `' '.join(words)`
abbrev pub join_words : List Text → Text
join_words [] = []
join_words (w ∷ []) = w
join_words (w ∷ v ∷ ws) = w ++ (codes " " ++ join_words (v ∷ ws))

-- `text.replace('|', '\\|')`
abbrev pub escape_pipes : Text → Text
escape_pipes [] = []
escape_pipes (c ∷ cs) = if c == 124 then 92 ∷ 124 ∷ escape_pipes cs else c ∷ escape_pipes cs

unfoldable pub md : Text → Text
md text = escape_pipes (join_words (split_from text []))

-- `_res_id`
unfoldable pub res_id : Text → Text
res_id text = elim (strip_prefix (codes "res") (strip text)) [
  | none ↦ strip text
  | some rest ↦ rest
]

unfoldable pub is_resource : Text → Bool
is_resource idtext = not (bytes_eq (res_id idtext) [] || bytes_eq (res_id idtext) (codes "0"))
