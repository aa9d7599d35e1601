-- ===== src/Stream/Frame/Format.antt =====
-- The layout of one chunk, as a writer of the format puts it down: the header word with a flag for
-- each field that is present, the fields in order, the payload's length, the payload, and padding.
use rdc_tools.Prelude.{
  ℕ, ◌+◌, ◌-◌, ◌*◌, ◌/◌, ◌%◌, ◌^◌, ◌≤◌, ◌<◌, ◌≡◌, refl, arith, Bool, true, false, Option, none,
  some, List, [], ◌∷◌, ◌++◌, length, ◌==◌, if◌then◌else◌,
}
use rdc_tools.Stream.Words.{bytes_of}
use rdc_tools.Stream.Frame.{
  ChunkInfo, chunk_align, align_up, chunk_callstack, chunk_threadid, chunk_duration,
  chunk_timestamp, chunk_64bitsize, has_flag,
}

pub record Chunk : Type 0 where
  pub id : ℕ
  pub callstack : List ℕ
  pub threadid : Option ℕ
  pub duration : Option ℕ
  pub timestamp : Option ℕ
  pub size64 : Bool
  pub payload : List ℕ
  pub padding : List ℕ

abbrev pub bit : Bool → ℕ
bit false = 0
bit true = 1

abbrev pub is_some : Option ℕ → Bool
is_some none = false
is_some (some v) = true

abbrev pub is_nonempty : List ℕ → Bool
is_nonempty [] = false
is_nonempty (x ∷ xs) = true

-- The header word.
unfoldable pub chunk_word : Chunk → ℕ
chunk_word c =
    c.id
    + 0x10000
      * (bit (is_nonempty c.callstack)
          + 2 * bit (is_some c.threadid)
          + 4 * bit (is_some c.duration)
          + 8 * bit (is_some c.timestamp)
          + 16 * bit c.size64)

unfoldable pub words8 : List ℕ → List ℕ
words8 [] = []
words8 (v ∷ vs) = bytes_of 8 v ++ words8 vs

unfoldable pub callstack_bytes : List ℕ → List ℕ
callstack_bytes [] = []
callstack_bytes (v ∷ vs) = bytes_of 4 (length (v ∷ vs)) ++ words8 (v ∷ vs)

unfoldable pub optional8 : Option ℕ → List ℕ
optional8 none = []
optional8 (some v) = bytes_of 8 v

abbrev pub metadata_bytes : Chunk → List ℕ
metadata_bytes c = optional8 c.threadid ++ (optional8 c.duration ++ optional8 c.timestamp)

unfoldable pub size_bytes : Bool → ℕ → List ℕ
size_bytes true n = bytes_of 8 n
size_bytes false n = bytes_of 4 n

unfoldable pub write_chunk : Chunk → List ℕ
write_chunk c =
    bytes_of 4 (chunk_word c)
    ++ (callstack_bytes c.callstack
        ++ (metadata_bytes c
            ++ (size_bytes c.size64 (length c.payload) ++ (c.payload ++ c.padding))))

-- What stands before the payload.
unfoldable pub header_length : Chunk → ℕ
header_length c =
    4
    + length (callstack_bytes c.callstack)
    + length (metadata_bytes c)
    + length (size_bytes c.size64 0)

-- The fields fit their words, and the padding ends the chunk at the next multiple of 64.
pub record IsWritable (c : Chunk) : Type 0 where
  pub has_id : 0 < c.id
  pub id_fits : c.id < 0x10000
  pub callstack_fits : length c.callstack < 2 ^ 32
  pub payload_fits : length c.payload < (if c.size64 then 2 ^ 64 else 2 ^ 32)
  pub padded :
      header_length c + length c.payload + length c.padding
      ≡ align_up (header_length c + length c.payload) chunk_align

-- What reading the chunk at `start` is to report.
unfoldable pub written_info : Chunk → ℕ → ChunkInfo
written_info c start = record {
  off = start;
  id = c.id;
  flags = chunk_word c - c.id;
  length = length c.payload;
  payload_offset = start + header_length c;
  pad_start = start + header_length c + length c.payload;
  pad_len = length c.padding;
}

bit-le : (b : Bool) → bit b ≤ 1
bit-le b = ground arith

bit_test : (b : Bool) → (bit b == 1) ≡ b
bit_test b = ground arith

bits_apart :
    (i a b c d e w : ℕ)
    → i < 0x10000
    → a ≤ 1
    → b ≤ 1
    → c ≤ 1
    → d ≤ 1
    → e ≤ 1
    → w ≡ i + 0x10000 * (a + 2 * b + 4 * c + 8 * d + 16 * e)
    → (w / 0x10000 % 2 ≡ a)
      × (w / 0x20000 % 2 ≡ b)
      × (w / 0x40000 % 2 ≡ c)
      × (w / 0x80000 % 2 ≡ d)
      × (w / 0x100000 % 2 ≡ e)
      × (w % 0x10000 ≡ i)
      × (w < 2 ^ 32)
bits_apart i a b c d e w hi ha hb hc hd he h =
    (omega arith, omega arith, omega arith, omega arith, omega arith, omega arith, omega arith)

flag_of : (w k : ℕ) (b : Bool) → w / k % 2 ≡ bit b → has_flag w k ≡ b
flag_of w k b h = rw h (bit_test b)

-- Each flag of the header word says whether its field is there.
module _ (c : Chunk) (w : IsWritable c) where
  pub chunk_word_flags :
      (has_flag (chunk_word c) chunk_callstack ≡ is_nonempty c.callstack)
      × (has_flag (chunk_word c) chunk_threadid ≡ is_some c.threadid)
      × (has_flag (chunk_word c) chunk_duration ≡ is_some c.duration)
      × (has_flag (chunk_word c) chunk_timestamp ≡ is_some c.timestamp)
      × (has_flag (chunk_word c) chunk_64bitsize ≡ c.size64)
      × (chunk_word c % 0x10000 ≡ c.id)
      × (chunk_word c < 2 ^ 32)
  chunk_word_flags =
      let (e0, e1, e2, e3, e4, e5, e6) =
        bits_apart c.id (bit (is_nonempty c.callstack)) (bit (is_some c.threadid))
          (bit (is_some c.duration)) (bit (is_some c.timestamp)) (bit c.size64) (chunk_word c)
          w.id_fits (bit-le _) (bit-le _) (bit-le _) (bit-le _) (bit-le _)
          (unfold chunk_word in refl) in
      (
        flag_of _ _ _ e0,
        flag_of _ _ _ e1,
        flag_of _ _ _ e2,
        flag_of _ _ _ e3,
        flag_of _ _ _ e4,
        e5,
        e6,
      )
