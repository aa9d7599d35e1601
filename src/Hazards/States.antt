-- ===== src/Hazards/States.antt =====
-- The permission tables, `check_state` and `_access_state` of src/py/rdc_hazards.py, on the states of
-- src/py/rdc_payloads.py.
use Prim.Native.String.{String}
use Prim.Native.Nat.{bit_or}
use rdc_tools.Prelude.{
  ℕ, zero, suc, ◌+◌, bit_and, Bool, true, false, not, ◌&&◌, ◌||◌, Option, none, some, List, [], ◌∷◌,
  ◌==◌, if◌then◌else◌, codes, bytes_eq,
}
use rdc_tools.Names.{is_in}
use rdc_tools.Uses.{
  How, cbv, srv, uav, vb, ib, rtv, dsv, clear, copy_dst, copy_src, resolve_dst, resolve_src,
}
use rdc_tools.Uses.Provenance.{strip_prefix}

abbrev pub resource_states : List (ℕ × String)
resource_states =
    (0x1, "VertexAndConstantBuffer")
    ∷ (0x2, "IndexBuffer")
    ∷ (0x4, "RenderTarget")
    ∷ (0x8, "UnorderedAccess")
    ∷ (0x10, "DepthWrite")
    ∷ (0x20, "DepthRead")
    ∷ (0x40, "NonPixelShaderResource")
    ∷ (0x80, "PixelShaderResource")
    ∷ (0x100, "StreamOut")
    ∷ (0x200, "IndirectArgument")
    ∷ (0x400, "CopyDest")
    ∷ (0x800, "CopySource")
    ∷ (0x1000, "ResolveDest")
    ∷ (0x2000, "ResolveSource")
    ∷ (0x10000, "VideoDecodeRead")
    ∷ (0x20000, "VideoDecodeWrite")
    ∷ (0x40000, "VideoProcessRead")
    ∷ (0x80000, "VideoProcessWrite")
    ∷ (0x200000, "VideoEncodeRead")
    ∷ (0x800000, "VideoEncodeWrite")
    ∷ (0x1000000, "ShadingRateSource")
    ∷ (0x400000, "RaytracingAccelerationStructure")
    ∷ []

unfoldable pub bits_from : List (ℕ × String) → List String → ℕ → ℕ
bits_from [] wanted total = total
bits_from ((bit, label) ∷ states) wanted total =
    bits_from states wanted (if is_in label wanted then bit_or total bit else total)

unfoldable pub bits : List String → ℕ
bits names = bits_from resource_states names 0

-- `STATE_WRITES` of src/py/rdc_uses.py, bit after bit.
abbrev pub state_writes : ℕ
state_writes = 0x4 + 0x8 + 0x10 + 0x100 + 0x400 + 0x1000 + 0x20000 + 0x80000 + 0x800000

-- `STATE_FOR_USE.get(how, 0)`
unfoldable pub state_for_use : How → ℕ
state_for_use vb = bits ("VertexAndConstantBuffer" ∷ [])
state_for_use cbv = bits ("VertexAndConstantBuffer" ∷ [])
state_for_use ib = bits ("IndexBuffer" ∷ [])
state_for_use srv = bits ("NonPixelShaderResource" ∷ "PixelShaderResource" ∷ [])
state_for_use uav = bits ("UnorderedAccess" ∷ [])
state_for_use rtv = bits ("RenderTarget" ∷ [])
state_for_use dsv = bits ("DepthWrite" ∷ "DepthRead" ∷ [])
state_for_use copy_dst = bits ("CopyDest" ∷ [])
state_for_use copy_src = bits ("CopySource" ∷ [])
state_for_use resolve_dst = bits ("ResolveDest" ∷ [])
state_for_use resolve_src = bits ("ResolveSource" ∷ [])
state_for_use clear = bits ("RenderTarget" ∷ "DepthWrite" ∷ [])
state_for_use _ = 0

-- `how in READ_USES`
unfoldable pub is_read_use : How → Bool
is_read_use vb = true
is_read_use cbv = true
is_read_use ib = true
is_read_use srv = true
is_read_use copy_src = true
is_read_use resolve_src = true
is_read_use _ = false

unfoldable pub clear_states : List ℕ → Option ℕ
clear_states call =
    if bytes_eq call (codes "ClearRenderTargetView")
    then some (bits ("RenderTarget" ∷ []))
    else if bytes_eq call (codes "ClearDepthStencilView")
    then some (bits ("DepthWrite" ∷ []))
    else if bytes_eq call (codes "ClearUnorderedAccessViewUint")
    then some (bits ("UnorderedAccess" ∷ []))
    else if bytes_eq call (codes "ClearUnorderedAccessViewFloat")
    then some (bits ("UnorderedAccess" ∷ []))
    else none

-- `ACCESS_STATES`
abbrev pub access_states : List (ℕ × ℕ)
access_states =
    (0x1, bits ("VertexAndConstantBuffer" ∷ []))
    ∷ (0x2, bits ("VertexAndConstantBuffer" ∷ []))
    ∷ (0x4, bits ("IndexBuffer" ∷ []))
    ∷ (0x8, bits ("RenderTarget" ∷ []))
    ∷ (0x10, bits ("UnorderedAccess" ∷ []))
    ∷ (0x20, bits ("DepthWrite" ∷ []))
    ∷ (0x40, bits ("DepthRead" ∷ []))
    ∷ (0x80, bits ("NonPixelShaderResource" ∷ "PixelShaderResource" ∷ []))
    ∷ (0x100, bits ("StreamOut" ∷ []))
    ∷ (0x200, bits ("IndirectArgument" ∷ []))
    ∷ (0x400, bits ("CopyDest" ∷ []))
    ∷ (0x800, bits ("CopySource" ∷ []))
    ∷ (0x1000, bits ("ResolveDest" ∷ []))
    ∷ (0x2000, bits ("ResolveSource" ∷ []))
    ∷ (0x4000, bits ("RaytracingAccelerationStructure" ∷ []))
    ∷ (0x8000, 0)
    ∷ (0x10000, bits ("ShadingRateSource" ∷ []))
    ∷ (0x20000, bits ("VideoDecodeRead" ∷ []))
    ∷ (0x40000, bits ("VideoDecodeWrite" ∷ []))
    ∷ (0x80000, bits ("VideoProcessRead" ∷ []))
    ∷ (0x100000, bits ("VideoProcessWrite" ∷ []))
    ∷ (0x200000, bits ("VideoEncodeRead" ∷ []))
    ∷ (0x400000, bits ("VideoEncodeWrite" ∷ []))
    ∷ []

-- `LAYOUT_STATES`
abbrev pub layout_states : List (ℕ × ℕ)
layout_states =
    (0, 0)
    ∷ (
      1,
      bits (
          "VertexAndConstantBuffer" ∷ "IndexBuffer" ∷ "NonPixelShaderResource"
          ∷ "PixelShaderResource" ∷ "IndirectArgument" ∷ "CopySource" ∷ "ResolveSource"
          ∷ "DepthRead" ∷ []),
    )
    ∷ (2, bits ("RenderTarget" ∷ []))
    ∷ (3, bits ("UnorderedAccess" ∷ []))
    ∷ (4, bits ("DepthWrite" ∷ []))
    ∷ (5, bits ("DepthRead" ∷ []))
    ∷ (6, bits ("NonPixelShaderResource" ∷ "PixelShaderResource" ∷ []))
    ∷ (7, bits ("CopySource" ∷ []))
    ∷ (8, bits ("CopyDest" ∷ []))
    ∷ (9, bits ("ResolveSource" ∷ []))
    ∷ (10, bits ("ResolveDest" ∷ []))
    ∷ (11, bits ("ShadingRateSource" ∷ []))
    ∷ []

-- `d.get(key, 0)`
abbrev pub get_or_zero : List (ℕ × ℕ) → ℕ → ℕ
get_or_zero [] key = 0
get_or_zero ((k, v) ∷ rows) key = if k == key then v else get_or_zero rows key

unfoldable pub access_from : List (ℕ × ℕ) → ℕ → ℕ → ℕ
access_from [] access state = state
access_from ((bit, mapped) ∷ rows) access state =
    access_from rows access (if bit_and access bit == 0 then state else bit_or state mapped)

unfoldable pub access_state : ℕ → ℕ → ℕ
access_state access layout =
    let state = if access == 0 then 0 else access_from access_states access 0 in
    if state == 0 then get_or_zero layout_states layout else state

-- `call.replace('List_', '')` on its code points, with how many are to be passed over.
unfoldable pub without_list : ℕ → List ℕ → List ℕ
without_list skip [] = []
without_list (suc skip) (c ∷ cs) = without_list skip cs
without_list zero (c ∷ cs) = elim (strip_prefix (codes "List_") (c ∷ cs)) [
  | none ↦ c ∷ without_list zero cs
  | some rest ↦ without_list 4 cs
]

unfoldable pub needed_for : How → String → ℕ
needed_for clear call = elim (clear_states (without_list 0 (codes call))) [
  | none ↦ state_for_use clear
  | some state ↦ state
]
needed_for how call = state_for_use how

pub data Certainty : Type 0 where
  certain likely : Certainty

-- A use has a word for how, so that `not how` is never so.
unfoldable pub check_state : How → String → ℕ → Option (Certainty × ℕ)
check_state how call state =
    let needed = needed_for how call in
    if state == 0
    then none
    else if needed == 0 || not (bit_and state needed == 0)
    then none
    else if is_read_use how && bit_and state state_writes == 0
    then none
    else some (certain, needed)
