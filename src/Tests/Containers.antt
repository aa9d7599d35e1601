-- ===== src/Tests/Containers.antt =====
-- Runs of `parse_container` of src/py/rdc_stream.py.
use rdc_tools.Prelude.{ℕ, List, [], ◌∷◌, ◌++◌, length, replicate}
use rdc_tools.Container.{parse_container}
use rdc_tools.Container.Sections.{ReturnsCapture, parse_container-ReturnsCapture}

-- A section of kind 1 with the name "a" and two bytes of data.
abbrev one_section : List ℕ
one_section =
    replicate 4 0
    ++ (1 ∷ 0 ∷ 0 ∷ 0 ∷ [])
    ++ (2 ∷ replicate 7 0)
    ++ (2 ∷ replicate 7 0)
    ++ replicate 8 0
    ++ replicate 4 0
    ++ (2 ∷ 0 ∷ 0 ∷ 0 ∷ b'a' ∷ 0 ∷ 5 ∷ 6 ∷ [])

-- The header of a file with no thumbnail and an empty driver name, and the section.
abbrev small_file : List ℕ
small_file =
    (b'R' ∷ b'D' ∷ b'O' ∷ b'C' ∷ replicate 4 0)
    ++ (2 ∷ 1 ∷ 0 ∷ 0 ∷ 69 ∷ 0 ∷ 0 ∷ 0 ∷ [])
    ++ replicate 53 0
    ++ one_section

parse_container-ReturnsCapture_example :
    ReturnsCapture (length small_file) (parse_container small_file)
parse_container-ReturnsCapture_example = parse_container-ReturnsCapture small_file
