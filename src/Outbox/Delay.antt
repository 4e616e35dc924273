-- ===== src/Outbox/Delay.antt =====
-- The delays between attempts.
use messk.Prelude.{ℕ, zero, suc, ◌+◌, ◌-◌, ◌^◌, ◌≤◌, ◌≡◌, refl, arith, leb, if◌then◌else◌, ◌==◌}
use messk.Outbox.{get_direct_retry_delay, get_reconnect_delay}

power-pos : (n : ℕ) → 1 ≤ 2 ^ n
power-pos zero = omega arith
power-pos (suc n) = omega (arith, power-pos n)

power_mono : (a b : ℕ) → a ≤ b → 2 ^ a ≤ 2 ^ b
power_mono zero b h = power-pos b
power_mono (suc a) zero h = absurd (omega arith)
power_mono (suc a) (suc b) h = omega (arith, power_mono a b (omega arith))

-- The wait before a retry is 3, 6, 12 and 24 seconds for the first four attempts and 30 seconds from
-- then on.
pub get_direct_retry_delay_lem :
    (attempts : ℕ)
    → get_direct_retry_delay attempts ≡ (
        if leb attempts 1
        then 3000
        else if attempts == 2
        then 6000
        else if attempts == 3
        then 12000
        else if attempts == 4
        then 24000
        else 30000)
unfolding get_direct_retry_delay
get_direct_retry_delay_lem zero = refl
get_direct_retry_delay_lem (suc zero) = refl
get_direct_retry_delay_lem (suc (suc zero)) = refl
get_direct_retry_delay_lem (suc (suc (suc zero))) = refl
get_direct_retry_delay_lem (suc (suc (suc (suc zero)))) = refl
get_direct_retry_delay_lem (suc (suc (suc (suc (suc n))))) =
    ground (arith, power_mono 4 (n + 4) (omega arith))

-- After more attempts the wait before the next retry is not shorter.
pub get_direct_retry_delay_mono :
    (a b : ℕ) → a ≤ b → get_direct_retry_delay a ≤ get_direct_retry_delay b
unfolding get_direct_retry_delay
get_direct_retry_delay_mono a b h = omega (arith, power_mono (a - 1) (b - 1) (omega arith))

-- The wait before a reconnect is 1, 2, 4, 8 and 16 seconds after so many failures from none to four,
-- and a minute from the fifth on.
pub get_reconnect_delay_lem :
    (attempts : ℕ)
    → get_reconnect_delay attempts ≡ (
        if leb 5 attempts
        then 60000
        else if attempts == 0
        then 1000
        else if attempts == 1
        then 2000
        else if attempts == 2
        then 4000
        else if attempts == 3
        then 8000
        else 16000)
unfolding get_reconnect_delay
get_reconnect_delay_lem zero = refl
get_reconnect_delay_lem (suc zero) = refl
get_reconnect_delay_lem (suc (suc zero)) = refl
get_reconnect_delay_lem (suc (suc (suc zero))) = refl
get_reconnect_delay_lem (suc (suc (suc (suc zero)))) = refl
get_reconnect_delay_lem (suc (suc (suc (suc (suc n))))) = ground arith
