-- ===== src/Metadata.antt =====
-- Padding buckets and batch delays of messk/src/lib/protocolContract.ts, which hide the length and
-- the moment of a direct message.
pub mod Padding
pub mod Delay
mod Tests
use Prim.Native.Nat.{bit_xor}
use messk.Prelude.{
  ℕ, ◌+◌, ◌-◌, ◌*◌, ◌/◌, ◌%◌, ◌^◌, max, Bool, ◌&&◌, Option, none, some, List, [], ◌∷◌, ◌++◌, Text,
  leb, ltb, ◌==◌, ◌or_else◌, if◌then◌else◌,
}
use messk.Prelude.Int.{ℤ, pos_part}

pub data PaddingProfile : Type 0 where
  disabled interactive balanced high_privacy : PaddingProfile

abbrev pub padding_buckets : PaddingProfile → List ℕ
padding_buckets disabled = []
padding_buckets interactive = 256 ∷ (1024 ∷ (4096 ∷ (16384 ∷ [])))
padding_buckets balanced = 2048 ∷ (16384 ∷ (65536 ∷ []))
padding_buckets high_privacy = 16384 ∷ (65536 ∷ (262144 ∷ []))

-- The loop `for (const bucket of buckets) if (length <= bucket) return bucket`.
unfoldable pub first_bucket : List ℕ → ℕ → Option ℕ
first_bucket [] len = none
first_bucket (b ∷ bs) len = if leb len b then some b else first_bucket bs len

-- `buckets[buckets.length - 1] || Math.max(1, length)`
unfoldable pub last_bucket : List ℕ → ℕ → ℕ
last_bucket [] len = max 1 len
last_bucket (b ∷ []) len = if b == 0 then max 1 len else b
last_bucket (b ∷ bs) len = last_bucket bs len

-- Math.ceil(len / block) * block
unfoldable pub round_up : ℕ → ℕ → ℕ
round_up len block = (len + (block - 1)) / block * block

unfoldable pub bucket_or_blocks : List ℕ → ℕ → ℕ
unfolding first_bucket last_bucket round_up
bucket_or_blocks buckets len =
    first_bucket buckets len or_else round_up len (last_bucket buckets len)

-- The length is an integer, as every caller passes a string's length; `pos_part` is
-- `Math.max(0, Math.floor(…))` of it.
unfoldable pub metadata_padding_target_len : PaddingProfile → ℤ → ℕ
unfolding bucket_or_blocks
metadata_padding_target_len disabled payload_length = pos_part payload_length
metadata_padding_target_len profile payload_length =
    bucket_or_blocks (padding_buckets profile) (pos_part payload_length)

-- The UTF-8 bytes of one code point.
unfoldable pub utf8_point : ℕ → List ℕ
utf8_point c =
    if ltb c 0x80
    then c ∷ []
    else if ltb c 0x800
    then (0xC0 + c / 64) ∷ ((0x80 + c % 64) ∷ [])
    else if ltb c 0x10000
    then (0xE0 + c / 4096) ∷ ((0x80 + c / 64 % 64) ∷ ((0x80 + c % 64) ∷ []))
    else (0xF0 + c / 262144)
      ∷ ((0x80 + c / 4096 % 64) ∷ ((0x80 + c / 64 % 64) ∷ ((0x80 + c % 64) ∷ [])))

abbrev is_high : ℕ → Bool
is_high c = leb 0xD800 c && leb c 0xDBFF

abbrev is_low : ℕ → Bool
is_low c = leb 0xDC00 c && leb c 0xDFFF

-- A surrogate that stands alone is encoded as U+FFFD.
unfoldable pub utf8_unit : ℕ → List ℕ
unfolding utf8_point
utf8_unit c = if leb 0xD800 c && leb c 0xDFFF then utf8_point 0xFFFD else utf8_point c

-- TextEncoder.encode
unfoldable pub utf8 : Text → List ℕ
unfolding utf8_unit
utf8 [] = []
utf8 (c ∷ []) = utf8_unit c
utf8 (c ∷ (d ∷ s)) =
    let joined = utf8_point (0x10000 + (c - 0xD800) * 0x400 + (d - 0xDC00)) ++ utf8 s in
    let single = utf8_unit c ++ utf8 (d ∷ s) in if is_high c && is_low d then joined else single

-- `hash ^= byte; hash = Math.imul(hash, 0x01000193) >>> 0`
unfoldable pub mix : ℕ → ℕ → ℕ
mix hash byte = bit_xor hash byte * 0x01000193 % 2 ^ 32

unfoldable pub mix_bytes : ℕ → List ℕ → ℕ
unfolding mix
mix_bytes hash [] = hash
mix_bytes hash (b ∷ bs) = mix_bytes (mix hash b) bs

unfoldable pub mix_parts : ℕ → List Text → ℕ
unfolding mix_bytes utf8
mix_parts hash [] = hash
mix_parts hash (part ∷ parts) = mix_parts (mix (mix_bytes hash (utf8 part)) 0xff) parts

unfoldable pub stable_metadata_hash32 : List Text → ℕ
unfolding mix_parts
stable_metadata_hash32 parts = mix_parts 0x811c9dc5 parts % 2 ^ 32

pub record MetadataBatchPolicy : Type 0 where
  pub min_batch_delay_ms : ℤ
  pub max_batch_delay_ms : ℤ

unfoldable pub metadata_batch_delay_ms : MetadataBatchPolicy → Text → Text → ℕ
metadata_batch_delay_ms policy thread_id msg_id =
    let min_ms = pos_part policy.min_batch_delay_ms in
    let max_ms = max min_ms (pos_part policy.max_batch_delay_ms) in
    let window_ms = max_ms - min_ms in
    if window_ms == 0
    then min_ms
    else min_ms + stable_metadata_hash32 (thread_id ∷ (msg_id ∷ [])) % (window_ms + 1)
