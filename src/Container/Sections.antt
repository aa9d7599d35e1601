-- ===== src/Container/Sections.antt =====
-- The section walk ends without an exception, and the sections that it finds form a chain.
use rdc_tools.Prelude.{
  ℕ, zero, suc, ◌+◌, ◌-◌, ◌≤◌, ◌<◌, ◌≡◌, ◌≢◌, refl, arith, Option, none, some, List, [], ◌∷◌,
  length, leb, ◌==◌, leb→le, if_cases, bool_cases,
}
use rdc_tools.Stream.Words.{u16, u32, u64, u32_fits, u64_fits}
use rdc_tools.Container.{
  SectionInfo, CaptureInfo, out_of_fuel, word, has_magic, parse_fields, parse_container, Parsed, ok,
  err, section_at, take_section, section_round, sections_from, with_name, name_len_valid, byte_at,
  ◌>>=◌,
}

-- Sections that follow one another from `o`: each header and name lie where the data of the section
-- before it ends, and the walk read them inside the file.
abbrev pub IsChain : ℕ → ℕ → List SectionInfo → Type 0
IsChain size o [] = Unit {0}
IsChain size o (sec ∷ secs) =
    (o + 40 ≤ size)
    × (0 < sec.name_len)
    × (sec.name_len ≤ 2048)
    × (sec.data_offset ≡ o + 40 + sec.name_len)
    × IsChain size (sec.data_offset + sec.comp_len) secs

-- A walk that returns a chain.
abbrev pub ReturnsChain : ℕ → ℕ → Parsed (List SectionInfo) → Type 0
ReturnsChain size o (ok secs) = IsChain size o secs
ReturnsChain size o (err e) = ⊥

byte_at_inside : (bytes : List ℕ) (i : ℕ) → i < length bytes → (b : ℕ) × (byte_at bytes i ≡ ok b)
byte_at_inside [] i h = absurd (omega arith)
byte_at_inside (x ∷ xs) zero h = (x, refl)
byte_at_inside (x ∷ xs) (suc i) h = byte_at_inside xs i (omega arith)

section_at_inside :
    (bytes : List ℕ) (o : ℕ)
    → o + 40 ≤ length bytes
    → (sec : SectionInfo) × (section_at bytes o ≡ ok sec)
unfolding section_at
section_at_inside bytes o h =
    let (a, ea) = u32_fits bytes (o + 4) (omega arith) in
    let (b, eb) = u64_fits bytes (o + 8) (omega arith) in
    let (c, ec) = u64_fits bytes (o + 16) (omega arith) in
    let (d, ed) = u64_fits bytes (o + 24) (omega arith) in
    let (e, ee) = u32_fits bytes (o + 32) (omega arith) in
    let (f, ef) = u32_fits bytes (o + 36) (omega arith) in
    (
      record {
        kind = a;
        comp_len = b;
        uncomp_len = c;
        version = d;
        flags = e;
        name_len = f;
        name = [];
        data_offset = 0;
      },
      rw (ea, eb, ec, ed, ee, ef),
    )

module _ (bytes : List ℕ) (o : ℕ) (again : ℕ → Parsed (List SectionInfo)) where
  chain_cons :
      (sec : SectionInfo) (r : Parsed (List SectionInfo))
      → o + 40 ≤ length bytes
      → 0 < sec.name_len
      → sec.name_len ≤ 2048
      → ReturnsChain (length bytes) (o + 40 + sec.name_len + sec.comp_len) r
      → ReturnsChain (length bytes) o (do rest ← r; ok (with_name bytes o sec ∷ rest))
  chain_cons sec (ok secs) a b c h = (a, b, c, refl, h)
  chain_cons sec (err e) a b c h = h

  take_section-ReturnsChain :
      (sec : SectionInfo)
      → o + 40 ≤ length bytes
      → ((o' : ℕ) → o + 41 ≤ o' → ReturnsChain (length bytes) o' (again o'))
      → ReturnsChain (length bytes) o (take_section bytes o again sec)
  unfolding take_section
  take_section-ReturnsChain sec a h =
      if_cases (ReturnsChain (length bytes) o) (name_len_valid sec.name_len) _ _
        (λ v.
          chain_cons sec _ a (ground arith) (ground arith)
            (h (o + 40 + sec.name_len + sec.comp_len) (ground arith)))
        (λ v. tt)

  section_round-ReturnsChain :
      (first : ℕ)
      → o + 40 ≤ length bytes
      → ((o' : ℕ) → o + 41 ≤ o' → ReturnsChain (length bytes) o' (again o'))
      → ReturnsChain (length bytes) o (section_round bytes o again first)
  unfolding section_round
  section_round-ReturnsChain first a h =
      let (sec, e) = section_at_inside bytes o a in
      if_cases (ReturnsChain (length bytes) o) (first == 0) _ _
        (λ v. rw e (take_section-ReturnsChain sec a h)) (λ v. tt)

-- The section walk ends on every file and from every offset, without an exception, and what it finds
-- is a chain: each section's header lies inside the file, its name has 1 to 2048 bytes, its data
-- starts behind its name, and the next section starts where its data ends.
sections_from-ReturnsChain :
    (fuel : ℕ) (bytes : List ℕ) (o : ℕ)
    → length bytes - o < fuel
    → ReturnsChain (length bytes) o (sections_from fuel bytes o)
unfolding sections_from
sections_from-ReturnsChain zero bytes o h = absurd (omega arith)
sections_from-ReturnsChain (suc fuel) bytes o h =
    bool_cases (ReturnsChain (length bytes) o) (leb (o + 40) (length bytes)) _ _
      (λ inside.
        let fits : o + 40 ≤ length bytes = leb→le _ _ inside in
        let (b, e) = byte_at_inside bytes o (omega arith) in
        rw e (
          section_round-ReturnsChain bytes o (sections_from fuel bytes) b fits
            λ o' a. sections_from-ReturnsChain fuel bytes o' (omega arith)))
      (λ done. tt)

-- A capture whose sections form a chain from its header's end, or an exception of the source.
abbrev pub ReturnsCapture : ℕ → Parsed CaptureInfo → Type 0
ReturnsCapture size (ok info) = (info.size ≡ size) × IsChain size info.header_length info.sections
ReturnsCapture size (err e) = e ≢ out_of_fuel

module _ (size : ℕ) where
  ReturnsCapture-word :
      (o : Option ℕ) (f : ℕ → Parsed CaptureInfo)
      → ((v : ℕ) → ReturnsCapture size (f v))
      → ReturnsCapture size (word o >>= f)
  ReturnsCapture-word none f h = λ e. cc
  ReturnsCapture-word (some v) f h = h v

  ReturnsCapture-byte :
      (bytes : List ℕ) (i : ℕ) (f : ℕ → Parsed CaptureInfo)
      → ((v : ℕ) → ReturnsCapture size (f v))
      → ReturnsCapture size (byte_at bytes i >>= f)
  ReturnsCapture-byte [] i f h = λ e. cc
  ReturnsCapture-byte (x ∷ xs) zero f h = h x
  ReturnsCapture-byte (x ∷ xs) (suc i) f h = ReturnsCapture-byte xs i f h

ReturnsCapture-chain :
    (size header : ℕ) (r : Parsed (List SectionInfo)) (f : List SectionInfo → CaptureInfo)
    → ((secs : List SectionInfo)
        → ((f secs).size ≡ size) × ((f secs).header_length ≡ header) × ((f secs).sections ≡ secs))
    → ReturnsChain size header r
    → ReturnsCapture size (do secs ← r; ok (f secs))
ReturnsCapture-chain size header (ok secs) f fields h =
    let (a, b, c) = fields secs in (a, rw (b, c) h)
ReturnsCapture-chain size header (err e) f fields h = absurd h

-- On every file the parser returns a capture, whose size is the file's and whose sections form a chain
-- from the end of the header on, or fails as the source does: by its assertion, a word or a byte past
-- the end. The section walk never runs out of rounds.
pub parse_container-ReturnsCapture :
    (bytes : List ℕ) → ReturnsCapture (length bytes) (parse_container bytes)
unfolding parse_container parse_fields
parse_container-ReturnsCapture bytes =
    let size : ℕ = length bytes in
    if_cases (ReturnsCapture size) (has_magic bytes) _ _
      (λ m. ReturnsCapture-word size (u32 bytes 8) _ λ version.
        ReturnsCapture-word size (u32 bytes 12) _ λ header.
          ReturnsCapture-word size (u16 bytes 32) _ λ w.
            ReturnsCapture-word size (u16 bytes 34) _ λ h.
              ReturnsCapture-word size (u32 bytes 36) _ λ len.
                ReturnsCapture-word size (u32 bytes (40 + len + 8)) _ λ driver.
                  ReturnsCapture-byte size bytes (40 + len + 12) _ λ name.
                    ReturnsCapture-word size (u64 bytes (40 + len + 13 + name)) _ λ base.
                      ReturnsCapture-word size (u64 bytes (40 + len + 13 + name + 8)) _ λ freq.
                        ReturnsCapture-chain size header _ _ (λ secs. (refl, refl, refl))
                          (sections_from-ReturnsChain (length bytes + 1) bytes header
                            (omega arith)))
      (λ m e. cc)
