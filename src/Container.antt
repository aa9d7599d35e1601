-- ===== src/Container.antt =====
-- `parse_container` of src/py/rdc_stream.py: the header, the metadata and the section table of an
-- `.rdc` file. Text stays the bytes that the source decodes, and the timer's frequency, a double, the
-- eight bytes that hold it. A section takes a header of forty bytes at least, so as many rounds as the
-- file has bytes, and one, are enough for the section walk.
pub mod Sections
use rdc_tools.Prelude.{
  ℕ, zero, suc, ◌+◌, ◌-◌, Bool, true, false, not, Option, none, some, List, [], ◌∷◌, ◌++◌, ◌||◌,
  ◌&&◌, length, take, drop, get_elem?, ltb, leb, ◌==◌, if◌then◌else◌,
}
use rdc_tools.Stream.Words.{u16, u32, u64}

pub record SectionInfo : Type 0 where
  pub kind : ℕ
  pub comp_len : ℕ
  pub uncomp_len : ℕ
  pub version : ℕ
  pub flags : ℕ
  pub name_len : ℕ
  pub name : List ℕ
  pub data_offset : ℕ

pub record CaptureInfo : Type 0 where
  pub size : ℕ
  pub version : ℕ
  pub header_length : ℕ
  pub prog_version : List ℕ
  pub thumbnail : ℕ × ℕ × ℕ
  pub driver_id : ℕ
  pub driver_name : List ℕ
  pub time_base : ℕ
  pub time_freq : List ℕ
  pub sections : List SectionInfo

pub data ParseError : Type 0 where
  not_an_rdc : ParseError
  struct_error : ParseError
  index_error : ParseError
  out_of_fuel : ParseError

pub data Parsed {ℓ} (A : Type ℓ) : Type ℓ where
  ok : A → Parsed A
  err : ParseError → Parsed A

infixl 5 ◌>>=◌
abbrev pub ◌>>=◌ {ℓ κ} : {A : Type ℓ} {B : Type κ} → Parsed A → (A → Parsed B) → Parsed B
ok a >>= f = f a
err e >>= f = err e

-- A word read, or the `struct.error` of one that does not fit.
abbrev pub word : Option ℕ → Parsed ℕ
word none = err struct_error
word (some v) = ok v

-- `data[i]`
abbrev pub byte_at : List ℕ → ℕ → Parsed ℕ
byte_at bytes i = elim (get_elem? bytes i) [ none ↦ err index_error | some b ↦ ok b ]

-- `data[a:b]`
abbrev pub slice : List ℕ → ℕ → ℕ → List ℕ
slice bytes a b = take (b - a) (drop a bytes)

-- `.split(b'\x00')[0]`
unfoldable pub until_nul : List ℕ → List ℕ
until_nul [] = []
until_nul (b ∷ bs) = if b == 0 then [] else b ∷ until_nul bs

-- The header of the section at `o`, whose name is not yet read.
unfoldable pub section_at : List ℕ → ℕ → Parsed SectionInfo
section_at bytes o = do
  kind ← word (u32 bytes (o + 4))
  comp ← word (u64 bytes (o + 8))
  uncomp ← word (u64 bytes (o + 16))
  version ← word (u64 bytes (o + 24))
  flags ← word (u32 bytes (o + 32))
  name_len ← word (u32 bytes (o + 36))
  ok (record {
    kind = kind;
    comp_len = comp;
    uncomp_len = uncomp;
    version = version;
    flags = flags;
    name_len = name_len;
    name = [];
    data_offset = 0;
  })

-- `0 < sec['nameLen'] <= 2048`
abbrev pub name_len_valid : ℕ → Bool
name_len_valid n = ltb 0 n && leb n 2048

abbrev pub with_name : List ℕ → ℕ → SectionInfo → SectionInfo
with_name bytes o sec = record sec {
  name = slice bytes (o + 40) (o + 40 + sec.name_len - 1);
  data_offset = o + 40 + sec.name_len;
}

-- One round behind the test of the first byte, with `again` the rounds behind it.
unfoldable pub take_section :
    List ℕ → ℕ → (ℕ → Parsed (List SectionInfo)) → SectionInfo → Parsed (List SectionInfo)
take_section bytes o again sec =
    if name_len_valid sec.name_len
    then (do rest ← again (o + 40 + sec.name_len + sec.comp_len); ok (with_name bytes o sec ∷ rest))
    else ok []

unfoldable pub section_round :
    List ℕ → ℕ → (ℕ → Parsed (List SectionInfo)) → ℕ → Parsed (List SectionInfo)
section_round bytes o again first =
    if first == 0 then (do sec ← section_at bytes o; take_section bytes o again sec) else ok []

unfoldable pub sections_from : ℕ → List ℕ → ℕ → Parsed (List SectionInfo)
sections_from zero bytes o = err out_of_fuel
sections_from (suc fuel) bytes o = elim (leb (o + 40) (length bytes)) [
  | true ↦ byte_at bytes o >>= section_round bytes o (sections_from fuel bytes)
  | false ↦ ok []
]

-- `data[:4] == b'RDOC'`
unfoldable pub has_magic : List ℕ → Bool
has_magic (a ∷ b ∷ c ∷ d ∷ rest) = a == b'R' && (b == b'D' && (c == b'O' && d == b'C'))
has_magic _ = false

-- Behind the magic.
unfoldable pub parse_fields : List ℕ → Parsed CaptureInfo
parse_fields bytes = do
  version ← word (u32 bytes 8)
  header ← word (u32 bytes 12)
  thumb_w ← word (u16 bytes 32)
  thumb_h ← word (u16 bytes 34)
  thumb_len ← word (u32 bytes 36)
  driver ← word (u32 bytes (40 + thumb_len + 8))
  name_len ← byte_at bytes (40 + thumb_len + 12)
  base ← word (u64 bytes (40 + thumb_len + 13 + name_len))
  freq ← word (u64 bytes (40 + thumb_len + 13 + name_len + 8))
  sections ← sections_from (length bytes + 1) bytes header
  ok (record {
    size = length bytes;
    version = version;
    header_length = header;
    prog_version = until_nul (slice bytes 16 32);
    thumbnail = (thumb_w, thumb_h, thumb_len);
    driver_id = driver;
    driver_name = until_nul (slice bytes (40 + thumb_len + 13) (40 + thumb_len + 13 + name_len));
    time_base = base;
    time_freq =
        slice bytes (40 + thumb_len + 13 + name_len + 8) (40 + thumb_len + 13 + name_len + 16);
    sections = sections;
  })

unfoldable pub parse_container : List ℕ → Parsed CaptureInfo
parse_container bytes = if has_magic bytes then parse_fields bytes else err not_an_rdc
