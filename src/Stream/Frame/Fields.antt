-- ===== src/Stream/Frame/Fields.antt =====
-- Each field of a chunk in the writer's layout, and what the steps of `_read_frame` make of it.
use rdc_tools.Prelude.{
  ℕ, ◌+◌, ◌*◌, ◌%◌, ◌^◌, ◌<◌, ◌≡◌, refl, sym, ap, ◌∙◌, arith, Bool, true, false, Option, none, some,
  List, [], ◌∷◌, ◌++◌, append_assoc, length, length-append, drop-append, if◌then◌else◌,
}
use rdc_tools.Stream.Words.{u32, u64, bytes_of, length-bytes_of, little-bytes_of}
use rdc_tools.Stream.Frame.{
  chunk_at, chunk_align, align_up, chunk_info, chunk_callstack, chunk_64bitsize, has_flag,
  skip_callstack, place_payload, size_width, read_size, read_payload,
}
use rdc_tools.Stream.Frame.Format.{
  Chunk, words8, callstack_bytes, optional8, metadata_bytes, size_bytes, is_some, is_nonempty,
}

-- A word that stands in the stream behind `p`.
pub u32-bytes_of :
    (s p r : List ℕ) (o v : ℕ)
    → s ≡ p ++ (bytes_of 4 v ++ r)
    → length p ≡ o
    → v < 2 ^ 32
    → u32 s o ≡ some v
unfolding u32
u32-bytes_of s p r o v e h fits =
    rw (e, drop-append p (bytes_of 4 v ++ r) o h) (little-bytes_of 4 v r fits)

u64-bytes_of :
    (s p r : List ℕ) (o v : ℕ)
    → s ≡ p ++ (bytes_of 8 v ++ r)
    → length p ≡ o
    → v < 2 ^ 64
    → u64 s o ≡ some v
unfolding u64
u64-bytes_of s p r o v e h fits =
    rw (e, drop-append p (bytes_of 8 v ++ r) o h) (little-bytes_of 8 v r fits)

pub length-words8 : (vs : List ℕ) → length (words8 vs) ≡ 8 * length vs
unfolding words8
length-words8 [] = refl
length-words8 (v ∷ vs) =
    omega (arith, length-append (bytes_of 8 v) (words8 vs), length-bytes_of 8 v, length-words8 vs)

pub length-optional8 : (o : Option ℕ) → length (optional8 o) ≡ (if is_some o then 8 else 0)
unfolding optional8
length-optional8 none = refl
length-optional8 (some v) = length-bytes_of 8 v

pub length-size_bytes : (b : Bool) (n : ℕ) → length (size_bytes b n) ≡ (if b then 8 else 4)
unfolding size_bytes
length-size_bytes true n = length-bytes_of 8 n
length-size_bytes false n = length-bytes_of 4 n

pub length-metadata_bytes :
    (c : Chunk)
    → length (metadata_bytes c)
      ≡ (if is_some c.threadid then 8 else 0)
        + (if is_some c.duration then 8 else 0)
        + (if is_some c.timestamp then 8 else 0)
length-metadata_bytes c = omega (
  arith,
  length-append (optional8 c.threadid) (optional8 c.duration ++ optional8 c.timestamp),
  length-append (optional8 c.duration) (optional8 c.timestamp),
  length-optional8 c.threadid,
  length-optional8 c.duration,
  length-optional8 c.timestamp,
)

pub skip_callstack-callstack_bytes :
    (s p r : List ℕ) (w pos : ℕ) (cs : List ℕ)
    → has_flag w chunk_callstack ≡ is_nonempty cs
    → s ≡ p ++ (callstack_bytes cs ++ r)
    → length p ≡ pos
    → length cs < 2 ^ 32
    → skip_callstack s w pos ≡ some (pos + length (callstack_bytes cs))
unfolding skip_callstack callstack_bytes
skip_callstack-callstack_bytes s p r w pos [] f e h fits = rw f (ap some (omega arith))
skip_callstack-callstack_bytes s p r w pos (v ∷ vs) f e h fits =
    rw
      (
        f,
        u32-bytes_of s p (words8 (v ∷ vs) ++ r) pos (length (v ∷ vs))
            (e ∙ ap (λ t. p ++ t) (append_assoc _ _ r)) h fits,
      )
      (ap some (
        omega (
          arith,
          length-append (bytes_of 4 (length (v ∷ vs))) (words8 (v ∷ vs)),
          length-bytes_of 4 (length (v ∷ vs)),
          length-words8 (v ∷ vs),
        )))

-- The payload's length, behind the metadata.
pub read_size-size_bytes :
    (s p r : List ℕ) (n w pos : ℕ) (wide : Bool)
    → has_flag w chunk_64bitsize ≡ wide
    → s ≡ p ++ (size_bytes wide n ++ r)
    → length p ≡ pos
    → n < (if wide then 2 ^ 64 else 2 ^ 32)
    → read_size s w pos ≡ some n
unfolding size_bytes
read_size-size_bytes s p r n w pos true f e h fits = rw f (u64-bytes_of s p r pos n e h fits)
read_size-size_bytes s p r n w pos false f e h fits = rw f (u32-bytes_of s p r pos n e h fits)

pub size_width-size_bytes :
    (w n : ℕ) (wide : Bool)
    → has_flag w chunk_64bitsize ≡ wide
    → size_width w ≡ length (size_bytes wide n)
size_width-size_bytes w n wide f = rw f (sym (length-size_bytes wide n))

pub read_payload-size_bytes :
    (s p r payload : List ℕ) (start w pos : ℕ) (wide : Bool)
    → has_flag w chunk_64bitsize ≡ wide
    → s ≡ p ++ (size_bytes wide (length payload) ++ (payload ++ r))
    → length p ≡ pos
    → length payload < (if wide then 2 ^ 64 else 2 ^ 32)
    → read_payload s start w pos
      ≡ chunk_at
          (chunk_info start w (pos + size_width w) (length payload))
          (align_up (pos + size_width w + length payload) chunk_align)
unfolding read_payload place_payload
read_payload-size_bytes s p r payload start w pos wide f e h fits = ground (
  arith,
  read_size-size_bytes s p (payload ++ r) (length payload) w pos wide f e h fits,
  size_width-size_bytes w (length payload) wide f,
  ap (λ t. length t) e,
  length-append p (size_bytes wide (length payload) ++ (payload ++ r)),
  length-append (size_bytes wide (length payload)) (payload ++ r),
  length-append payload r,
)

pub align_up_shift : (x k : ℕ) → x % 64 ≡ 0 → align_up (x + k) 64 ≡ x + align_up k 64
unfolding align_up
align_up_shift x k h = omega arith
