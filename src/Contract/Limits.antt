-- ===== src/Contract/Limits.antt =====
-- The page size that a history request asks for.
use messk.Prelude.{◌≤◌, ◌≡◌, ◌↔◌, arith, ◌&&◌, if◌then◌else◌}
use messk.Prelude.Int.{ℤ, pos, negsuc, leb_ℤ, pos_part}
use messk.Prelude.Number.{Number, is_finite, at_most, above}
use messk.Contract.{clamp_history_limit}

-- The page size is at most 500, and it is 0 exactly for a limit strictly between 0 and 1.
pub clamp_history_limit_lem :
    (limit : Number)
    → (clamp_history_limit limit ≤ 500)
      × ((clamp_history_limit limit ≡ 0) ↔ (limit ≡ Number.between (pos 0)))
unfolding clamp_history_limit is_finite at_most above
clamp_history_limit_lem (Number.int (pos m)) = (ground arith, ground arith)
clamp_history_limit_lem (Number.between (pos m)) = (ground arith, ground arith)
clamp_history_limit_lem _ = (ground arith, ground arith)

-- Of the integers, those from 1 to 500 are kept and all others give 100.
pub clamp_history_limit-int :
    (z : ℤ)
    → clamp_history_limit (Number.int z)
      ≡ (if leb_ℤ (pos 1) z && leb_ℤ z (pos 500) then pos_part z else 100)
unfolding clamp_history_limit is_finite at_most above
clamp_history_limit-int (pos m) = ground arith
clamp_history_limit-int (negsuc m) = ground arith
