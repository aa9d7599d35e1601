-- ===== src/Stream/Check.antt =====
-- `check_stream` of src/py/rdc_stream.py, which `verify` prints, and `EXPECTED_LENGTHS` of
-- src/py/rdc_chunkmap.py. Problems and notes are the values that their texts print. The name map is
-- the argument `names`, as in the source; a chunk that it does not name is called by its number.
pub mod Report
use Prim.Native.String.{String}
use text.Mathlib.Text.{◌==◌ as str_eq}
use rdc_tools.Prelude.{
  ℕ, zero, suc, ◌+◌, ◌-◌, Bool, true, false, Option, none, some, List, [], ◌∷◌, ◌++◌, ◌||◌, not,
  ◌&&◌, length, take, drop, ltb, leb, ◌==◌, if◌then◌else◌, min,
}
use rdc_tools.Stream.Frame.{
  ChunkInfo, Frame, FrameError, chunk_at, end_of_stream, frame_error, struct_error, read_frame,
}

pub data ChunkName : Type 0 where
  named : String → ChunkName
  numbered : ℕ → ChunkName

-- `names.get(ch['id'], 'Chunk%d' % ch['id'])`
unfoldable pub chunk_name : (ℕ → Option String) → ℕ → ChunkName
chunk_name names i = elim (names i) [ none ↦ numbered i | some name ↦ named name ]

abbrev pub expected_lengths : List (String × List ℕ)
expected_lengths =
    ("List_SetPipelineState", 16 ∷ [])
    ∷ ("List_Reset", 64 ∷ [])
    ∷ ("List_DrawIndexedInstanced", 28 ∷ [])
    ∷ ("List_DrawInstanced", 24 ∷ [])
    ∷ ("List_Dispatch", 20 ∷ [])
    ∷ ("List_SetGraphicsRootSignature", 16 ∷ [])
    ∷ ("List_SetGraphicsRootDescriptorTable", 24 ∷ [])
    ∷ ("List_SetGraphicsRootConstantBufferView", 28 ∷ [])
    ∷ ("List_SetGraphicsRootShaderResourceView", 28 ∷ [])
    ∷ ("List_SetGraphicsRootUnorderedAccessView", 28 ∷ [])
    ∷ ("List_SetComputeRootSignature", 16 ∷ [])
    ∷ ("List_SetComputeRootDescriptorTable", 24 ∷ [])
    ∷ ("List_SetComputeRootConstantBufferView", 28 ∷ [])
    ∷ ("List_SetComputeRootShaderResourceView", 28 ∷ [])
    ∷ ("List_SetComputeRootUnorderedAccessView", 28 ∷ [])
    ∷ ("List_IASetIndexBuffer", 9 ∷ 33 ∷ [])
    ∷ ("List_CopyBufferRegion", 48 ∷ [])
    ∷ ("List_ResolveSubresource", 36 ∷ [])
    ∷ ("Device_CreateHeap", 72 ∷ [])
    ∷ []

unfoldable pub lengths_for : List (String × List ℕ) → String → Option (List ℕ)
lengths_for [] name = none
lengths_for ((key, sizes) ∷ rest) name =
    if str_eq key name then some sizes else lengths_for rest name

-- No key is a text 'Chunk%d'.
unfoldable pub expected_for : ChunkName → Option (List ℕ)
expected_for (named name) = lengths_for expected_lengths name
expected_for (numbered i) = none

unfoldable pub is_one_of : ℕ → List ℕ → Bool
is_one_of n [] = false
is_one_of n (m ∷ ms) = n == m || is_one_of n ms

pub data Problem : Type 0 where
  bad_frame : FrameError → Problem
  bad_length : ℕ → ℕ → ChunkName → ℕ → List ℕ → Problem

pub data Note : Type 0 where
  stale_padding : ℕ → ℕ → ChunkName → ℕ → ℕ → List ℕ → Note
  stale_total : ℕ → ℕ → ℕ → ℕ → Note
  clean_total : ℕ → ℕ → Note
  trailing_bytes : ℕ → List ℕ → Note

pub record CheckState : Type 0 where
  pub problems : List Problem
  pub notes : List Note
  pub stale_chunks : ℕ
  pub stale_bytes : ℕ
  pub padding_bytes : ℕ
  pub broken : Bool
  pub pos : ℕ
  pub n : ℕ

-- `len(pad) - pad.count(0)`
unfoldable pub non_zero : List ℕ → ℕ
non_zero [] = 0
non_zero (b ∷ bs) = (if b == 0 then 0 else 1) + non_zero bs

-- The padding that the stream holds: the last chunk's may be missing.
unfoldable pub pad_of : List ℕ → ChunkInfo → List ℕ
pad_of s ch = take (min ch.pad_len (length s - ch.pad_start)) (drop ch.pad_start s)

-- The problem of one chunk's length, if it has one.
unfoldable pub length_problem : (ℕ → Option String) → ℕ → ChunkInfo → List Problem
length_problem names n ch = elim (expected_for (chunk_name names ch.id)) [
  | none ↦ []
  | some sizes ↦
      if is_one_of ch.length sizes
      then []
      else bad_length n ch.off (chunk_name names ch.id) ch.length sizes ∷ []
]

abbrev pub stale_note : List ℕ → (ℕ → Option String) → ℕ → ChunkInfo → List Note
stale_note s names n ch =
    stale_padding n ch.off (chunk_name names ch.id) (non_zero (pad_of s ch))
      (min ch.pad_len (length s - ch.pad_start)) (take 16 (pad_of s ch))
    ∷ []

-- One round's work on a chunk.
unfoldable pub visit : List ℕ → (ℕ → Option String) → ℕ → CheckState → ChunkInfo → ℕ → CheckState
visit s names note_samples st ch next =
    let stale = non_zero (pad_of s ch) in
    record {
      problems = st.problems ++ length_problem names (st.n + 1) ch;
      notes =
          st.notes
          ++ (if not (stale == 0) && ltb (length st.notes) note_samples
              then stale_note s names (st.n + 1) ch
              else []);
      stale_chunks = st.stale_chunks + (if stale == 0 then 0 else 1);
      stale_bytes = st.stale_bytes + stale;
      padding_bytes = st.padding_bytes + min ch.pad_len (length s - ch.pad_start);
      broken = st.broken;
      pos = next;
      n = st.n + 1;
    }

-- How the loop ends: with its state, or by an exception that nothing catches.
pub data CheckRun : Type 0 where
  checked : CheckState → CheckRun
  check_struct_error : CheckRun
  check_out_of_fuel : CheckRun

unfoldable pub check_round :
    List ℕ → (ℕ → Option String) → ℕ → CheckState → (CheckState → CheckRun) → Frame → CheckRun
check_round s names note_samples st again (chunk_at ch next) =
    again (visit s names note_samples st ch next)
check_round s names note_samples st again end_of_stream = checked st
check_round s names note_samples st again (frame_error e) =
    checked (record st { problems = st.problems ++ bad_frame e ∷ []; broken = true })
check_round s names note_samples st again struct_error = check_struct_error

unfoldable pub check_from : ℕ → List ℕ → (ℕ → Option String) → ℕ → CheckState → CheckRun
check_from zero s names note_samples st = check_out_of_fuel
check_from (suc fuel) s names note_samples st = elim (leb (st.pos + 4) (length s)) [
  | true ↦
      check_round s names note_samples st (check_from fuel s names note_samples)
        (read_frame s st.pos)
  | false ↦ checked st
]

abbrev pub check_start : CheckState
check_start = record {
  problems = [];
  notes = [];
  stale_chunks = 0;
  stale_bytes = 0;
  padding_bytes = 0;
  broken = false;
  pos = 0;
  n = 0;
}

-- The notes behind the loop.
unfoldable pub closing_notes : List ℕ → CheckState → List Note
closing_notes s st =
    (if st.stale_chunks == 0
      then clean_total st.padding_bytes st.n ∷ []
      else stale_total st.stale_chunks st.n st.stale_bytes st.padding_bytes ∷ [])
    ++ (if ltb 4 (length s - st.pos) && not st.broken
        then trailing_bytes (length s - st.pos) (take 16 (drop st.pos s)) ∷ []
        else [])

-- `(problems, notes)`; `none` where the loop raised.
unfoldable pub report_of : List ℕ → CheckRun → Option (List Problem × List Note)
report_of s (checked st) = some (st.problems, st.notes ++ closing_notes s st)
report_of s check_struct_error = none
report_of s check_out_of_fuel = none

unfoldable pub check_stream : List ℕ → (ℕ → Option String) → ℕ → Option (List Problem × List Note)
check_stream s names note_samples =
    report_of s (check_from (length s + 1) s names note_samples check_start)
