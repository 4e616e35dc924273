-- ===== src/Prelude/Decimal.antt =====
-- Decimal digits of a number, as `String(n)` gives them below 10 ^ 21.
use mathlib.Core.Path.{◌≡◌, refl, ap, sym, ◌∙◌}
use mathlib.Core.Bool.{Bool, true, ◌&&◌}
use mathlib.Core.List.{[], ◌∷◌, ◌++◌}
use native.Mathlib.Omega.{arith}
use Prim.Native.Nat.{ℕ, zero, suc, ◌+◌, ◌*◌, ◌/◌, ◌%◌, ◌<◌, ◌-◌}
use messk.Prelude.Tests.{ltb, leb, if◌then◌else◌, Bool-cases}
use mathlib.Core.Logic.{inl, inr, ◌≢◌}
use messk.Prelude.Lists.{all}
use messk.Prelude.Strings.{Text}
use messk.Prelude.Separators.{Lacks, Lacks-append}

decimal_on : ℕ → ℕ → Text
decimal_on zero n = []
decimal_on (suc fuel) n =
    let front = decimal_on fuel (n / 10) in
    if ltb n 10 then (48 + n) ∷ [] else front ++ (48 + n % 10) ∷ []

unfoldable pub decimal : ℕ → Text
unfolding decimal_on
decimal n = decimal_on (suc n) n

-- The number that a text of digits stands for, after `n`.
unfoldable pub value_from : ℕ → Text → ℕ
value_from n [] = n
value_from n (c ∷ s) = value_from (n * 10 + (c - 48)) s

value_from-append :
    (n : ℕ) (s : Text) (c : ℕ) → value_from n (s ++ c ∷ []) ≡ value_from n s * 10 + (c - 48)
unfolding value_from
value_from-append n [] c = refl
value_from-append n (d ∷ s) c = value_from-append (n * 10 + (d - 48)) s c

value-decimal_on : (fuel n : ℕ) → n < fuel → value_from 0 (decimal_on fuel n) ≡ n
unfolding value_from decimal_on
value-decimal_on zero n h = absurd (omega arith)
value-decimal_on (suc fuel) n h = ground (
  arith,
  value-decimal_on fuel (n / 10),
  value_from-append 0 (decimal_on fuel (n / 10)) (48 + n % 10),
)

pub decimal_inj : (n m : ℕ) → decimal n ≡ decimal m → n ≡ m
unfolding decimal
decimal_inj n m e =
    sym (value-decimal_on (suc n) n (omega arith))
    ∙ ap (value_from 0) e
    ∙ value-decimal_on (suc m) m (omega arith)

decimal_on-colon : (fuel n : ℕ) → Lacks b':' (decimal_on fuel n)
unfolding decimal_on
decimal_on-colon zero n = refl
decimal_on-colon (suc fuel) n = ground (
  arith,
  decimal_on-colon fuel (n / 10),
  Lacks-append b':' (decimal_on fuel (n / 10)) ((48 + n % 10) ∷ []),
)

pub decimal-Lacks_colon : (n : ℕ) → Lacks b':' (decimal n)
unfolding decimal
decimal-Lacks_colon n = decimal_on-colon (suc n) n

pub value-decimal : (n : ℕ) → value_from 0 (decimal n) ≡ n
unfolding decimal
value-decimal n = value-decimal_on (suc n) n (omega arith)

abbrev is_digit : ℕ → Bool
is_digit c = leb 48 c && leb c 57

all-append :
    (s t : Text) → all is_digit s ≡ true → all is_digit t ≡ true → all is_digit (s ++ t) ≡ true
all-append [] t h k = k
all-append (c ∷ s) t h k = ground (arith, all-append s t)

-- Of a positive number the first digit is not 0.
abbrev HasHead : Text → Type 0
HasHead t =
    (d : ℕ) × (s : Text) × (t ≡ d ∷ s) × (is_digit d ≡ true) × (d ≢ 48) × (all is_digit s ≡ true)

HasHead-append : (t : Text) (c : ℕ) → is_digit c ≡ true → HasHead t → HasHead (t ++ c ∷ [])
HasHead-append t c h (d, s, q, digit, nonzero, digits) =
    (d, s ++ c ∷ [], rw q, digit, nonzero, all-append s (c ∷ []) digits (ground arith))

decimal_on-head : (fuel n : ℕ) → n < fuel → 0 < n → HasHead (decimal_on fuel n)
unfolding decimal_on
decimal_on-head zero n h p = absurd (omega arith)
decimal_on-head (suc fuel) n h p = elim (Bool-cases (ltb n 10)) [
  | inl small ↦ rw small (48 + n, [], refl, ground arith, omega arith, refl)
  | inr large ↦ rw large (
      HasHead-append (decimal_on fuel (n / 10)) (48 + n % 10) (ground arith)
        (decimal_on-head fuel (n / 10) (ground arith) (ground arith)))
]

pub decimal-head :
    (n : ℕ)
    → 0 < n
    → (d : ℕ) × (s : Text) × (decimal n ≡ d ∷ s)
      × (is_digit d ≡ true)
      × (d ≢ 48)
      × (all is_digit s ≡ true)
unfolding decimal
decimal-head n h = decimal_on-head (suc n) n (omega arith) h
