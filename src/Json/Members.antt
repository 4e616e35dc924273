-- ===== src/Json/Members.antt =====
-- Written values, members and objects are read back.
use messk.Prelude.{
  ℕ, suc, ◌≡◌, ◌∙◌, true, false, Option, some, ◌∷◌, ◌++◌, Text, arith, decimal, decimal-head, zero,
}
use mathlib.Core.List.{append_assoc}
use messk.Prelude.Int.{pos}
use messk.Prelude.Number.{Number}
use messk.Json.{Json, str, num, obj, Fields, nil, field, quote}
use messk.Json.Parse.{parse_value, parse_members, add_field, is_digit, read_unsigned}
use messk.Json.Written.{unquote-quote_units, read_unsigned-decimal, ends_number}

module _ (size fuel : ℕ) where
  pub parse_value-quote :
      (s rest : Text) → parse_value size (suc fuel) (quote s ++ rest) ≡ some (str s, rest)
  unfolding parse_value
  parse_value-quote s rest = unfold quote in rw (append_assoc, unquote-quote_units s rest)

  parse_value-digit :
      (d : ℕ) (s : Text)
      → is_digit d ≡ true
      → parse_value size (suc fuel) (d ∷ s) ≡ read_unsigned false (d ∷ s)
  unfolding parse_value
  parse_value-digit d s h = ground arith

  pub parse_value-decimal :
      (n c : ℕ) (rest : Text)
      → ends_number c ≡ true
      → parse_value size (suc fuel) (decimal n ++ c ∷ rest)
        ≡ some (num (Number.int (pos n)), c ∷ rest)
  unfolding parse_value
  parse_value-decimal zero c rest h = unfold decimal in read_unsigned-decimal zero c rest h
  parse_value-decimal (suc m) c rest h =
      let (d, s, q, digit, _, _) = decimal-head (suc m) (omega arith) in
      rw q (
        parse_value-digit d (s ++ c ∷ rest) digit
        ∙ (rw q at (read_unsigned-decimal (suc m) c rest h)))

  pub parse_value-object :
      (t rest : Text) (fs : Fields)
      → parse_members (parse_value size fuel) size (34 ∷ t) ≡ some (fs, rest)
      → parse_value size (suc fuel) (123 ∷ (34 ∷ t)) ≡ some (obj fs, rest)
  unfolding parse_value
  parse_value-object t rest fs h = rw h

module _ (value : Text → Option (Json × Text)) (fuel : ℕ) (key t : Text) (v : Json)
    (rest : Text) where
  pub parse_members-last :
      value t ≡ some (v, 125 ∷ rest)
      → parse_members value (suc fuel) (quote key ++ b':' ∷ t) ≡ some (field key v nil, rest)
  unfolding parse_members quote
  parse_members-last h = rw (append_assoc, unquote-quote_units key (b':' ∷ t)) (rw h)

  pub parse_members-more :
      (more : Text) (fs : Fields)
      → value t ≡ some (v, b',' ∷ more)
      → parse_members value fuel more ≡ some (fs, rest)
      → parse_members value (suc fuel) (quote key ++ b':' ∷ t) ≡ some (add_field key v fs, rest)
  unfolding parse_members quote
  parse_members-more more fs h k =
      rw (append_assoc, unquote-quote_units key (b':' ∷ t)) (rw h (rw k))
