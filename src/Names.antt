-- ===== src/Names.antt =====
-- The table of chunk names, with the sets of names of src/py/rdc_chunkmap.py that a walk tests.
use Prim.Native.String.{String}
use text.Mathlib.Text.{◌==◌ as str_eq}
use rdc_tools.Prelude.{ℕ, Bool, false, ◌||◌, List, [], ◌∷◌, ◌==◌, if◌then◌else◌}

abbrev pub push_marker_chunks : List String
push_marker_chunks = "PushMarker" ∷ "Queue_BeginEvent" ∷ []

abbrev pub pop_marker_chunks : List String
pop_marker_chunks = "PopMarker" ∷ "Queue_EndEvent" ∷ []

abbrev pub draw_chunks : List String
draw_chunks =
    "List_DrawIndexedInstanced" ∷ "List_DrawInstanced" ∷ "List_Dispatch" ∷ "List_ExecuteIndirect"
    ∷ []

abbrev pub barrier_chunks : List String
barrier_chunks = "List_ResourceBarrier" ∷ "List_Barrier" ∷ []

abbrev pub clear_chunks : List String
clear_chunks =
    "List_ClearRenderTargetView" ∷ "List_ClearDepthStencilView"
    ∷ "List_ClearUnorderedAccessViewUint" ∷ "List_ClearUnorderedAccessViewFloat" ∷ []

abbrev pub discard_chunks : List String
discard_chunks = "List_DiscardResource" ∷ []

abbrev pub copy_chunks : List String
copy_chunks = "List_CopyBufferRegion" ∷ "List_CopyTextureRegion" ∷ []

abbrev pub resolve_chunks : List String
resolve_chunks = "List_ResolveSubresource" ∷ "List_ResolveSubresourceRegion" ∷ []

-- `name in names`
abbrev pub is_in : String → List String → Bool
is_in s [] = false
is_in s (t ∷ ts) = str_eq s t || is_in s ts

-- The map from a chunk's number to its name, which is read from RenderDoc's sources.
abbrev pub ChunkNames : Type 0
ChunkNames = List (ℕ × String)

-- `names.get(id, '')`
abbrev pub name_of : ChunkNames → ℕ → String
name_of [] id = ""
name_of ((key, name) ∷ names) id = if key == id then name else name_of names id
