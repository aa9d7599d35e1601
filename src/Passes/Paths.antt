-- ===== src/Passes/Paths.antt =====
-- `_leaf` and `_parent` of src/py/rdc_passdiff.py: the innermost name of a marker path, and the path
-- around it. A path is its code points.
use rdc_tools.Prelude.{
  ℕ, Bool, ◌&&◌, ◌||◌, Option, none, some, List, [], ◌∷◌, leb, ◌==◌, if◌then◌else◌, codes,
}
use rdc_tools.Uses.Provenance.{strip_prefix}

-- `str.isspace` of a character.
abbrev pub is_space : ℕ → Bool
is_space c =
    (leb 9 c && leb c 13)
    || (leb 28 c && leb c 32)
    || c == 0x85
    || c == 0xa0
    || c == 0x1680
    || (leb 0x2000 c && leb c 0x200a)
    || c == 0x2028
    || c == 0x2029
    || c == 0x202f
    || c == 0x205f
    || c == 0x3000

abbrev pub strip_left : List ℕ → List ℕ
strip_left [] = []
strip_left (c ∷ cs) = let rest = strip_left cs in if is_space c then rest else c ∷ cs

abbrev pub strip_right : List ℕ → List ℕ
strip_right [] = []
strip_right (c ∷ cs) = elim (strip_right cs) [
  | [] ↦ (if is_space c then [] else c ∷ [])
  | d ∷ ds ↦ c ∷ d ∷ ds
]

-- `s.strip()`
abbrev pub strip : List ℕ → List ℕ
strip s = strip_right (strip_left s)

-- `path.rpartition(' > ')`, the text before the last separator and that behind it, where there is one.
unfoldable pub rpartition : List ℕ → Option (List ℕ × List ℕ)
rpartition [] = none
rpartition (c ∷ cs) = elim (rpartition cs) [
  | some (head, tail) ↦ some (c ∷ head, tail)
  | none ↦ elim (strip_prefix (codes " > ") (c ∷ cs)) [ none ↦ none | some tail ↦ some ([], tail) ]
]

unfoldable pub leaf : List ℕ → List ℕ
leaf path = elim (rpartition path) [ none ↦ strip path | some (head, tail) ↦ strip tail ]

unfoldable pub parent : List ℕ → List ℕ
parent path = elim (rpartition path) [ none ↦ [] | some (head, tail) ↦ strip head ]
