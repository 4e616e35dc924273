-- ===== src/Metadata/Tests.antt =====
-- Runs of the padding and delay functions, and instances of the padding theorems.
use messk.Prelude.{◌≡◌, refl, codes}
use messk.Prelude.Int.{pos}
use messk.Metadata.{
  disabled, interactive, balanced, high_privacy, metadata_padding_target_len,
  metadata_batch_delay_ms,
}

target_tests :
    (metadata_padding_target_len disabled (pos 7) ≡ 7)
    × (metadata_padding_target_len interactive (pos 7) ≡ 256)
    × (metadata_padding_target_len interactive (pos 257) ≡ 1024)
    × (metadata_padding_target_len balanced (pos 2049) ≡ 16384)
    × (metadata_padding_target_len high_privacy (pos 71680) ≡ 262144)
    × (metadata_padding_target_len interactive (pos 40000) ≡ 49152)
unfolding metadata_padding_target_len
target_tests = (refl, refl, refl, refl, refl, refl)

swapped_bounds_test :
    metadata_batch_delay_ms
      (record { min_batch_delay_ms = pos 40; max_batch_delay_ms = pos 20 })
      (codes "thread-a")
      (codes "msg-a")
    ≡ 40
unfolding metadata_batch_delay_ms
swapped_bounds_test = refl
