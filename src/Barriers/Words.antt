-- ===== src/Barriers/Words.antt =====
-- The texts of the two state words, `state_text` and `access_text` of src/py/rdc_payloads.py, by their
-- code points.
use Prim.Native.String.{String}
use Prim.Native.Nat.{bit_or}
use rdc_tools.Prelude.{
  ℕ, ◌-◌, bit_and, List, [], ◌∷◌, ◌++◌, ◌==◌, codes, hexadecimal, if◌then◌else◌,
}
use rdc_tools.Hazards.States.{resource_states}

abbrev pub barrier_access : List (ℕ × String)
barrier_access =
    (0x1, "VertexBuffer")
    ∷ (0x2, "ConstantBuffer")
    ∷ (0x4, "IndexBuffer")
    ∷ (0x8, "RenderTarget")
    ∷ (0x10, "UnorderedAccess")
    ∷ (0x20, "DepthStencilWrite")
    ∷ (0x40, "DepthStencilRead")
    ∷ (0x80, "ShaderResource")
    ∷ (0x100, "StreamOutput")
    ∷ (0x200, "IndirectArgument")
    ∷ (0x400, "CopyDest")
    ∷ (0x800, "CopySource")
    ∷ (0x1000, "ResolveDest")
    ∷ (0x2000, "ResolveSource")
    ∷ (0x4000, "RaytracingAccelerationStructureRead")
    ∷ (0x8000, "RaytracingAccelerationStructureWrite")
    ∷ (0x10000, "ShadingRateSource")
    ∷ (0x20000, "VideoDecodeRead")
    ∷ (0x40000, "VideoDecodeWrite")
    ∷ (0x80000, "VideoProcessRead")
    ∷ (0x100000, "VideoProcessWrite")
    ∷ (0x200000, "VideoEncodeRead")
    ∷ (0x400000, "VideoEncodeWrite")
    ∷ []

abbrev pub barrier_layouts : List (ℕ × String)
barrier_layouts =
    (0, "Common")
    ∷ (1, "GenericRead")
    ∷ (2, "RenderTarget")
    ∷ (3, "UnorderedAccess")
    ∷ (4, "DepthStencilWrite")
    ∷ (5, "DepthStencilRead")
    ∷ (6, "ShaderResource")
    ∷ (7, "CopySource")
    ∷ (8, "CopyDest")
    ∷ (9, "ResolveSource")
    ∷ (10, "ResolveDest")
    ∷ (11, "ShadingRateSource")
    ∷ (12, "VideoDecodeRead")
    ∷ (13, "VideoDecodeWrite")
    ∷ (14, "VideoProcessRead")
    ∷ (15, "VideoProcessWrite")
    ∷ (16, "VideoEncodeRead")
    ∷ (17, "VideoEncodeWrite")
    ∷ []

abbrev pub named_bits : List (ℕ × String) → ℕ → List (List ℕ)
named_bits [] value = []
named_bits ((bit, name) ∷ words) value =
    let rest = named_bits words value in if bit_and value bit == 0 then rest else codes name ∷ rest

abbrev pub known_bits : List (ℕ × String) → ℕ → ℕ
known_bits [] known = known
known_bits ((bit, name) ∷ words) known = known_bits words (bit_or known bit)

-- `'|'.join(parts)`
abbrev pub join_bars : List (List ℕ) → List ℕ
join_bars [] = []
join_bars (t ∷ []) = t
join_bars (t ∷ u ∷ ts) = t ++ (codes "|" ++ join_bars (u ∷ ts))

-- `value & ~known`
abbrev pub unknown_bits : List (ℕ × String) → ℕ → ℕ
unknown_bits words value = value - bit_and value (known_bits words 0)

unfoldable pub names_of_bits : List (ℕ × String) → ℕ → List ℕ
names_of_bits words value = join_bars (
    if unknown_bits words value == 0
    then named_bits words value
    else named_bits words value ++ (hexadecimal (unknown_bits words value) ∷ []))

unfoldable pub state_text : ℕ → List ℕ
state_text word = if word == 0 then codes "Common" else names_of_bits resource_states word

unfoldable pub access_text : ℕ → List ℕ
access_text word = if word == 0 then codes "Common" else names_of_bits barrier_access word

-- `BARRIER_LAYOUTS.get(layout, '0x%x' % layout)`
abbrev pub layout_from : List (ℕ × String) → ℕ → List ℕ
layout_from [] layout = hexadecimal layout
layout_from ((key, name) ∷ names) layout =
    if key == layout then codes name else layout_from names layout
