-- ===== src/Metadata/Padding.antt =====
-- Padding targets: their size and order.
use messk.Prelude.{
  ℕ, ◌+◌, ◌*◌, ◌≤◌, ◌<◌, ◌≡◌, ◌⊎◌, refl, arith, Any, List, [], ◌∷◌, some, Option-cases, Bool-cases,
  inl, inr, ◌/◌, ◌-◌, leb,
}
use messk.Prelude.Int.{ℤ, pos, pos_part}
use messk.Metadata.{
  PaddingProfile, disabled, interactive, balanced, high_privacy, padding_buckets,
  metadata_padding_target_len, first_bucket, last_bucket, bucket_or_blocks,
}

abbrev pub block_size : PaddingProfile → ℕ
block_size disabled = 1
block_size interactive = 16384
block_size balanced = 65536
block_size high_privacy = 262144

-- The sizes that a padded payload can have: a bucket of the profile, or a multiple of the last one.
abbrev pub IsPaddedSize : PaddingProfile → ℕ → Type 0
IsPaddedSize profile n =
    Any (λ b. n ≡ b) (padding_buckets profile) ⊎ ((k : ℕ) × (n ≡ k * block_size profile))

first_bucket-listed : (bs : List ℕ) (len b : ℕ) → first_bucket bs len ≡ some b → Any (λ a. b ≡ a) bs
unfolding first_bucket
first_bucket-listed [] len b h = absurd (ground arith)
first_bucket-listed (a ∷ bs) len b h = elim (Bool-cases (leb len a)) [
  | inl fits ↦ inl (ground arith)
  | inr more ↦ inr (first_bucket-listed bs len b (rw more at h))
]

bucket_or_blocks-size :
    (bs : List ℕ) (len : ℕ)
    → Any (λ a. bucket_or_blocks bs len ≡ a) bs
      ⊎ ((k : ℕ) × (bucket_or_blocks bs len ≡ k * last_bucket bs len))
unfolding bucket_or_blocks
bucket_or_blocks-size bs len = elim (Option-cases (first_bucket bs len)) [
  | inl missing ↦ inr ((len + (last_bucket bs len - 1)) / last_bucket bs len, rw missing)
  | inr (b, found) ↦ inl (rw found (first_bucket-listed bs len b found))
]

-- The target covers the payload and is a size of the profile.
pub padding_target_lem :
    (profile : PaddingProfile) (len : ℤ)
    → (pos_part len ≤ metadata_padding_target_len profile len)
      × IsPaddedSize profile (metadata_padding_target_len profile len)
unfolding metadata_padding_target_len
padding_target_lem disabled len = (omega arith, inr (pos_part len, omega arith))
padding_target_lem interactive len =
    (ground arith, bucket_or_blocks-size (padding_buckets interactive) (pos_part len))
padding_target_lem balanced len =
    (ground arith, bucket_or_blocks-size (padding_buckets balanced) (pos_part len))
padding_target_lem high_privacy len =
    (ground arith, bucket_or_blocks-size (padding_buckets high_privacy) (pos_part len))

-- A size of the profile is its own target, so padding again changes nothing.
pub padding_target-fixed :
    (profile : PaddingProfile) (n : ℕ)
    → IsPaddedSize profile n
    → 0 < n
    → metadata_padding_target_len profile (pos n) ≡ n
unfolding metadata_padding_target_len
padding_target-fixed disabled n h p = refl
padding_target-fixed interactive n h p = ground arith
padding_target-fixed balanced n h p = ground arith
padding_target-fixed high_privacy n h p = ground arith

-- A longer payload never gets a shorter target.
pub padding_target_mono :
    (profile : PaddingProfile) (a b : ℕ)
    → a ≤ b
    → metadata_padding_target_len profile (pos a) ≤ metadata_padding_target_len profile (pos b)
unfolding metadata_padding_target_len
padding_target_mono disabled a b h = h
padding_target_mono interactive a b h = ground arith
padding_target_mono balanced a b h = ground arith
padding_target_mono high_privacy a b h = ground arith

-- The target is the least size of the profile that covers the payload.
pub padding_target-least :
    (profile : PaddingProfile) (a n : ℕ)
    → a ≤ n
    → IsPaddedSize profile n
    → 0 < n
    → metadata_padding_target_len profile (pos a) ≤ n
padding_target-least profile a n h size p =
    rw (padding_target-fixed profile n size p) at (padding_target_mono profile a n h)
