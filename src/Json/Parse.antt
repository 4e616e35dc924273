-- ===== src/Json/Parse.antt =====
-- JSON.parse. `none` is a SyntaxError. A number is read exactly and not rounded to a double, which
-- differs above 2 ^ 53 only.
use messk.Prelude.{
  ℕ, zero, suc, ◌+◌, ◌-◌, ◌*◌, ◌/◌, ◌%◌, ◌^◌, Bool, true, false, ◌&&◌, ◌||◌, Option, none, some, [],
  ◌∷◌, Text, codes, leb, ltb, ◌==◌, length, is_some, if◌then◌else◌,
}
use messk.Prelude.Int.{ℤ, pos, negsuc}
use messk.Prelude.Number.{Number}
use messk.Json.{
  Json, null, bool, num, str, arr, obj, Items, end, item, Fields, nil, field, field_of,
}

infixl 5 ◌>>=◌
abbrev pub ◌>>=◌ {ℓ κ} : {A : Type ℓ} {B : Type κ} → Option A → (A → Option B) → Option B
none >>= k = none
some a >>= k = k a

abbrev pub is_blank : ℕ → Bool
is_blank c = c == 32 || c == 9 || c == 10 || c == 13

unfoldable pub skip_blanks : Text → Text
skip_blanks [] = []
skip_blanks (c ∷ s) = let rest = skip_blanks s in if is_blank c then rest else c ∷ s

-- The rest behind one given character.
unfoldable pub expect : ℕ → Text → Option Text
expect c [] = none
expect c (d ∷ s) = if d == c then some s else none

unfoldable pub expect_all : Text → Text → Option Text
unfolding expect
expect_all [] s = some s
expect_all (c ∷ cs) s = expect c s >>= λ rest. expect_all cs rest

unfoldable pub hex_value : ℕ → Option ℕ
hex_value c =
    if leb 48 c && leb c 57
    then some (c - 48)
    else if leb 97 c && leb c 102
    then some (c - 87)
    else if leb 65 c && leb c 70
    then some (c - 55)
    else none

abbrev pub is_escape : ℕ → Bool
is_escape c =
    c == 34 || c == 92 || c == 47 || c == b'b' || c == b'f' || c == b'n' || c == b'r' || c == b't'

-- The unit that a one-letter escape stands for.
abbrev pub unescape : ℕ → ℕ
unescape c =
    if c == b'b'
    then 8
    else if c == b't'
    then 9
    else if c == b'n'
    then 10
    else if c == b'f'
    then 12
    else if c == b'r'
    then 13
    else c

abbrev pub prepend : ℕ → Option (Text × Text) → Option (Text × Text)
prepend c r = r >>= λ p. some (c ∷ p.0, p.1)

-- Where the reader of a string literal stands: between characters, behind a backslash, or inside
-- `\\uXXXX` with so many digits to come behind the next one and the value of those read.
pub data Mode : Type 0 where
  plain escaped : Mode
  unicode : ℕ → ℕ → Mode

-- The units of a string literal behind its opening quote, and the rest behind the closing one.
unfoldable pub unquote : Mode → Text → Option (Text × Text)
unfolding hex_value
unquote m [] = none
unquote plain (c ∷ s) =
    let escape = unquote escaped s in
    let kept = prepend c (unquote plain s) in
    if c == 34 then some ([], s) else if c == 92 then escape else if ltb c 32 then none else kept
unquote escaped (c ∷ s) =
    let kept = prepend (unescape c) (unquote plain s) in
    let digits = unquote (unicode 3 0) s in
    if is_escape c then kept else if c == b'u' then digits else none
unquote (unicode zero value) (c ∷ s) =
    let rest = unquote plain s in hex_value c >>= λ v. prepend (value * 16 + v) rest
unquote (unicode (suc left) value) (c ∷ s) = elim (hex_value c) [
  | none ↦ none
  | some v ↦ unquote (unicode left (value * 16 + v)) s
]

abbrev pub is_digit : ℕ → Bool
is_digit c = leb 48 c && leb c 57

-- Digits read after a value: the new value, how many were read, the rest.
unfoldable pub read_digits : ℕ → ℕ → Text → ℕ × ℕ × Text
read_digits value count [] = (value, count, [])
read_digits value count (c ∷ s) =
    let more = read_digits (value * 10 + (c - 48)) (count + 1) s in
    if is_digit c then more else (value, count, c ∷ s)

-- 0 | [1-9][0-9]*
unfoldable pub read_integer : Text → Option (ℕ × Text)
unfolding read_digits
read_integer [] = none
read_integer (c ∷ s) =
    if c == 48
    then some (0, s)
    else if is_digit c
    then (let (value, _, rest) = read_digits (c - 48) 1 s in some (value, rest))
    else none

-- An optional fraction: the value with its digits, their number, the rest.
unfoldable pub read_fraction : ℕ → Text → Option (ℕ × ℕ × Text)
unfolding read_digits
read_fraction value [] = some (value, 0, [])
read_fraction value (c ∷ s) =
    if c == b'.'
    then (let (v, count, rest) = read_digits value 0 s in
        if count == 0 then none else some (v, count, rest))
    else some (value, 0, c ∷ s)

-- The exponent behind its sign.
unfoldable pub read_power : Text → Option (ℕ × Text)
unfolding read_digits
read_power s =
    let (v, count, rest) = read_digits 0 0 s in if count == 0 then none else some (v, rest)

abbrev pub signed_power : Text → Option (ℤ × Text)
signed_power [] = none
signed_power (c ∷ s) =
    if c == b'-'
    then (read_power s >>= λ r. some ((if r.0 == 0 then pos 0 else negsuc (r.0 - 1)), r.1))
    else if c == b'+'
    then (read_power s >>= λ r. some (pos r.0, r.1))
    else (read_power (c ∷ s) >>= λ r. some (pos r.0, r.1))

-- An optional exponent.
unfoldable pub read_exponent : Text → Option (ℤ × Text)
unfolding read_power
read_exponent [] = some (pos 0, [])
read_exponent (c ∷ s) = if c == b'e' || c == b'E' then signed_power s else some (pos 0, c ∷ s)

-- The number (-1)^negative * value / 10 ^ down.
abbrev pub scaled : Bool → ℕ → ℕ → Number
scaled false value down =
    if value % 10 ^ down == 0
    then Number.int (pos (value / 10 ^ down))
    else Number.between (pos (value / 10 ^ down))
scaled true value down =
    if value == 0
    then Number.int (pos 0)
    else if value % 10 ^ down == 0
    then Number.int (negsuc (value / 10 ^ down - 1))
    else Number.between (negsuc (value / 10 ^ down))

unfoldable pub make_number : Bool → ℕ → ℕ → ℤ → Number
make_number negative value fraction (pos e) =
    if leb fraction e
    then scaled negative (value * 10 ^ (e - fraction)) 0
    else scaled negative value (fraction - e)
make_number negative value fraction (negsuc e) = scaled negative value (fraction + suc e)

unfoldable pub read_unsigned : Bool → Text → Option (Json × Text)
unfolding read_integer read_fraction read_exponent make_number
read_unsigned negative s = read_integer s >>= λ i. read_fraction i.0 i.1 >>= λ f.
    read_exponent f.2 >>= λ e. some (num (make_number negative f.0 f.1 e.0), e.1)

abbrev pub with_rest : Json → Option Text → Option (Json × Text)
with_rest v r = r >>= λ rest. some (v, rest)

-- Of two members with one key the later one counts.
abbrev pub add_field : Text → Json → Fields → Fields
add_field key v fs = if is_some (field_of fs key) then fs else field key v fs

-- The lists of members and of items, for a reader of values; the fuel bounds their length.
module _ (value : Text → Option (Json × Text)) where
  unfoldable pub parse_members : ℕ → Text → Option (Fields × Text)
  unfolding skip_blanks expect unquote field_of
  parse_members zero s = none
  parse_members (suc fuel) s = expect 34 (skip_blanks s) >>= λ s1. unquote plain s1 >>= λ k.
      expect b':' (skip_blanks k.1) >>= λ s3. value s3 >>= λ v.
      elim (expect b',' (skip_blanks v.1)) [
        | some more ↦ parse_members fuel more >>= λ fs. some (add_field k.0 v.0 fs.0, fs.1)
        | none ↦ expect 125 (skip_blanks v.1) >>= λ rest. some (field k.0 v.0 nil, rest)
      ]

  unfoldable pub parse_items : ℕ → Text → Option (Items × Text)
  unfolding skip_blanks expect
  parse_items zero s = none
  parse_items (suc fuel) s = value s >>= λ v. elim (expect b',' (skip_blanks v.1)) [
    | some more ↦ parse_items fuel more >>= λ vs. some (item v.0 vs.0, vs.1)
    | none ↦ expect 93 (skip_blanks v.1) >>= λ rest. some (item v.0 end, rest)
  ]

  unfoldable pub parse_object : ℕ → Text → Option (Json × Text)
  unfolding parse_members
  parse_object fuel s = elim (expect 125 (skip_blanks s)) [
    | some rest ↦ some (obj nil, rest)
    | none ↦ parse_members fuel s >>= λ fs. some (obj fs.0, fs.1)
  ]

  unfoldable pub parse_array : ℕ → Text → Option (Json × Text)
  unfolding parse_items
  parse_array fuel s = elim (expect 93 (skip_blanks s)) [
    | some rest ↦ some (arr end, rest)
    | none ↦ parse_items fuel s >>= λ vs. some (arr vs.0, vs.1)
  ]

  -- By the first character behind the blanks.
  unfoldable pub parse_first : ℕ → Text → Option (Json × Text)
  unfolding parse_object parse_array read_unsigned expect_all
  parse_first fuel [] = none
  parse_first fuel (c ∷ s) =
      if c == 123
      then parse_object fuel s
      else if c == 91
      then parse_array fuel s
      else if c == 34
      then (unquote plain s >>= λ r. some (str r.0, r.1))
      else if c == b't'
      then with_rest (bool true) (expect_all (codes "rue") s)
      else if c == b'f'
      then with_rest (bool false) (expect_all (codes "alse") s)
      else if c == b'n'
      then with_rest null (expect_all (codes "ull") s)
      else if c == b'-'
      then read_unsigned true s
      else read_unsigned false (c ∷ s)

-- The fuel bounds how deep values stand in one another; the text's length is enough of it.
unfoldable pub parse_value : ℕ → ℕ → Text → Option (Json × Text)
unfolding parse_first
parse_value size zero s = none
parse_value size (suc fuel) s = parse_first (parse_value size fuel) size (skip_blanks s)

abbrev pub when_blank : Json → Text → Option Json
when_blank v [] = some v
when_blank v (c ∷ s) = none

unfoldable pub parse_json : Text → Option Json
unfolding parse_value
parse_json s = parse_value (length s) (suc (length s)) s >>= λ r. when_blank r.0 (skip_blanks r.1)
