-- ===== src/Security/ConstantTime.antt =====
-- The comparison in constant time, against equality.
use Prim.Native.Nat.{bit_or, bit_xor, bit_or-bitwise, bit_xor-bitwise, digits, differ}
use messk.Prelude.{
  ℕ, zero, suc, ◌/◌, ◌%◌, ◌≤◌, ◌≡◌, ◌↔◌, inl, inr, refl, ap, ◌∙◌, sym, max, [], ◌∷◌, same, same_iff,
  length, Bool-cases, arith,
}
use messk.Security.{Bytes, differences, constant_time_equal}

differ-zero : (x y : ℕ) → differ x y ≡ 0 → x ≡ y
differ-zero zero y e = sym e
differ-zero (suc x) zero e = absurd (omega arith)
differ-zero (suc x) (suc y) e = ap suc (differ-zero x y e)

differ_refl : (x : ℕ) → differ x x ≡ 0
differ_refl zero = refl
differ_refl (suc x) = differ_refl x

xor-zero : (n a b : ℕ) → a ≤ n → digits (λ b. b) differ n a b ≡ 0 → a ≡ b
xor-zero zero a b low e = omega arith
xor-zero (suc n) zero b low e = omega arith
xor-zero (suc n) (suc a) b low e =
    let halves = xor-zero n (suc a / 2) (b / 2) (omega arith) (omega arith) in
    let last = differ-zero (suc a % 2) (b % 2) (omega arith) in omega arith

xor_refl : (n a : ℕ) → a ≤ n → digits (λ b. b) differ n a a ≡ 0
xor_refl zero a low = omega arith
xor_refl (suc n) zero low = refl
xor_refl (suc n) (suc a) low =
    let half = xor_refl n (suc a / 2) (omega arith) in
    let last = differ_refl (suc a % 2) in omega arith

bit_xor-zero_iff : (a b : ℕ) → (bit_xor a b ≡ 0) ↔ (a ≡ b)
bit_xor-zero_iff a b = (
  (λ e. xor-zero a a b (omega arith) (sym (bit_xor-bitwise a b) ∙ e)),
  (λ e. bit_xor-bitwise a b ∙ rw (← e) (xor_refl a a (omega arith))),
)

max-zero : (x y : ℕ) → max x y ≡ 0 → (x ≡ 0) × (y ≡ 0)
max-zero x y e = (omega arith, omega arith)

or-zero : (n a b : ℕ) → a ≤ n → digits (λ b. b) max n a b ≡ 0 → (a ≡ 0) × (b ≡ 0)
or-zero zero a b low e = (omega arith, e)
or-zero (suc n) zero b low e = (refl, e)
or-zero (suc n) (suc a) b low e =
    let (half, half') = or-zero n (suc a / 2) (b / 2) (omega arith) (omega arith) in
    let (last, last') = max-zero (suc a % 2) (b % 2) (omega arith) in (omega arith, omega arith)

or-zeros : (n a b : ℕ) → a ≡ 0 → b ≡ 0 → digits (λ b. b) max n a b ≡ 0
or-zeros zero a b ha hb = hb
or-zeros (suc n) zero b ha hb = hb
or-zeros (suc n) (suc a) b ha hb = absurd (omega arith)

bit_or-zero_iff : (a b : ℕ) → (bit_or a b ≡ 0) ↔ ((a ≡ 0) × (b ≡ 0))
bit_or-zero_iff a b = (
  (λ e. or-zero a a b (omega arith) (sym (bit_or-bitwise a b) ∙ e)),
  (λ (ha, hb). bit_or-bitwise a b ∙ or-zeros a a b ha hb),
)

-- Nothing differs exactly if nothing did before and the bytes are the same.
differences-zero :
    (d : ℕ) (a b : Bytes) → length a ≡ length b → differences d a b ≡ 0 → (d ≡ 0) × (a ≡ b)
unfolding differences
differences-zero d [] [] l e = (e, refl)
differences-zero d [] (y ∷ ys) l e = absurd (omega arith)
differences-zero d (x ∷ xs) [] l e = absurd (omega arith)
differences-zero d (x ∷ xs) (y ∷ ys) l e =
    let (either, rest) = differences-zero (bit_or d (bit_xor x y)) xs ys (omega arith) e in
    let (before, here) = (bit_or-zero_iff d (bit_xor x y)).0 either in
    (before, ap (λ z. z ∷ xs) ((bit_xor-zero_iff x y).0 here) ∙ ap (y ∷◌) rest)

differences_refl : (a : Bytes) → differences 0 a a ≡ 0
unfolding differences
differences_refl [] = refl
differences_refl (x ∷ xs) =
    rw ((bit_xor-zero_iff x x).1 refl)
      (rw ((bit_or-zero_iff 0 0).1 (refl, refl)) (differences_refl xs))

-- The comparison in constant time is equality of the bytes.
pub constant_time_equal-same : (a b : Bytes) → constant_time_equal a b ≡ same a b
unfolding constant_time_equal
constant_time_equal-same a b = elim (Bool-cases (same a b)) [
  | inl equal ↦
      let e : a ≡ b = (same_iff a b).0 equal in rw (equal, ← e, differences_refl a) (ground arith)
  | inr different ↦ ground (arith, differences-zero 0 a b, same_iff a b)
]
