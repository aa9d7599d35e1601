-- ===== src/Stream/Words.antt =====
-- The readers of src/py/rdc_stream.py (`u16`, `u32`, `u64`): little-endian words of a byte list.
-- A byte is a number below 256. `none` is the `struct.error` of a read past the end.
use mathlib.Core.Option
use native.Mathlib.Nat.{pow-suc}
use rdc_tools.Prelude.{
  ℕ, zero, suc, ◌+◌, ◌*◌, ◌/◌, ◌%◌, ◌^◌, ◌≤◌, ◌<◌, ◌≡◌, refl, ap, Option, none, some, List, [], ◌∷◌,
  ◌++◌, arith, length, drop, length-drop,
}

abbrev pub IsByte : ℕ → Type 0
IsByte b = b < 256

-- The first `n` bytes as a number, lowest byte first: `struct.unpack` with '<H', '<I' or '<Q'.
unfoldable pub little : ℕ → List ℕ → Option ℕ
little zero b = some 0
little (suc n) [] = none
little (suc n) (x ∷ b) = Option.map (λ r. x + 256 * r) (little n b)

unfoldable pub u16 : List ℕ → ℕ → Option ℕ
u16 b o = little 2 (drop o b)

unfoldable pub u32 : List ℕ → ℕ → Option ℕ
u32 b o = little 4 (drop o b)

unfoldable pub u64 : List ℕ → ℕ → Option ℕ
u64 b o = little 8 (drop o b)

-- `v.to_bytes(n, 'little')`: what the writers of tests/rdc_fixtures.py put into a stream.
unfoldable pub bytes_of : ℕ → ℕ → List ℕ
bytes_of zero v = []
bytes_of (suc n) v = (v % 256) ∷ bytes_of n (v / 256)

pub length-bytes_of : (n v : ℕ) → length (bytes_of n v) ≡ n
unfolding bytes_of
length-bytes_of zero v = refl
length-bytes_of (suc n) v = omega (arith, length-bytes_of n (v / 256))

pub little-bytes_of :
    (n v : ℕ) (rest : List ℕ) → v < 256 ^ n → little n (bytes_of n v ++ rest) ≡ some v
unfolding little bytes_of
little-bytes_of zero v rest h = ground arith
little-bytes_of (suc n) v rest h =
    let shrinks : v / 256 < 256 ^ n = omega (arith, pow-suc 256 n) in
    rw (little-bytes_of n (v / 256) rest shrinks) (ap some (omega arith))

-- A word is read exactly where it fits.
pub little_fits : (n : ℕ) (b : List ℕ) → n ≤ length b → (v : ℕ) × (little n b ≡ some v)
unfolding little
little_fits zero b h = (0, refl)
little_fits (suc n) [] h = absurd (omega arith)
little_fits (suc n) (x ∷ b) h = let (v, e) = little_fits n b (omega arith) in (x + 256 * v, rw e)

pub little_short : (n : ℕ) (b : List ℕ) → length b < n → little n b ≡ none
unfolding little
little_short zero b h = absurd (omega arith)
little_short (suc n) [] h = refl
little_short (suc n) (x ∷ b) h = rw (little_short n b (omega arith))

pub u32_fits : (b : List ℕ) (o : ℕ) → o + 4 ≤ length b → (v : ℕ) × (u32 b o ≡ some v)
unfolding u32
u32_fits b o h = little_fits 4 (drop o b) (omega (arith, length-drop o b))

pub u64_fits : (b : List ℕ) (o : ℕ) → o + 8 ≤ length b → (v : ℕ) × (u64 b o ≡ some v)
unfolding u64
u64_fits b o h = little_fits 8 (drop o b) (omega (arith, length-drop o b))

pub u32_short : (b : List ℕ) (o : ℕ) → length b < o + 4 → u32 b o ≡ none
unfolding u32
u32_short b o h = little_short 4 (drop o b) (omega (arith, length-drop o b))
