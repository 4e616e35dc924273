-- ===== src/Metadata/Delay.antt =====
-- The batch delay stays in the policy's window.
use Prim.Native.Nat.{max}
use messk.Prelude.{◌≤◌, Text, arith, ℕ, ◌+◌, ◌-◌, ◌%◌, [], ◌∷◌}
use messk.Prelude.Int.{pos_part}
use messk.Metadata.{MetadataBatchPolicy, metadata_batch_delay_ms, stable_metadata_hash32}

rem-le : (h w : ℕ) → h % (w + 1) ≤ w
rem-le h w = grind arith

-- The delay is at least the minimum, and at most the larger of the two bounds (each raised to 0).
pub metadata_batch_delay_bounds :
    (policy : MetadataBatchPolicy) (thread_id msg_id : Text)
    → (pos_part policy.min_batch_delay_ms ≤ metadata_batch_delay_ms policy thread_id msg_id)
      × (metadata_batch_delay_ms policy thread_id msg_id
          ≤ max (pos_part policy.min_batch_delay_ms) (pos_part policy.max_batch_delay_ms))
unfolding metadata_batch_delay_ms
metadata_batch_delay_bounds policy thread_id msg_id =
    let h = stable_metadata_hash32 (thread_id ∷ (msg_id ∷ [])) in
    let low = pos_part policy.min_batch_delay_ms in
    ground (arith, rem-le h (max low (pos_part policy.max_batch_delay_ms) - low))
