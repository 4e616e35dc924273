-- ===== src/Json/Plain.antt =====
-- Values without fractions and lists, and the text that `JSON.stringify` writes of them.
pub mod Parsed
use messk.Prelude.{
  ℕ, zero, suc, ◌+◌, ◌≤◌, ◌<◌, ◌≡◌, refl, ap, sym, ◌∙◌, Bool, true, false, Option, none, List, some,
  [], ◌∷◌, ◌++◌, Text, codes, decimal, decimal-head, length, length-append, arith,
}
use mathlib.Core.List.{append_assoc, append-nil}
use messk.Prelude.Int.{pos}
use messk.Prelude.Number.{Number}
use messk.Json.{
  Json, null, bool, num, str, arr, obj, Items, end, item, Fields, nil, field, field_of, quote,
}
use messk.Json.Parse.{
  parse_json, parse_value, parse_members, parse_items, skip_blanks, when_blank, ◌>>=◌,
}
use messk.Json.Members.{
  parse_value-quote, parse_value-decimal, parse_value-object, parse_members-last,
  parse_members-more,
}
use messk.Json.Written.{ends_number}

mutual
  pub data Plain : Type 0 where
    nothing : Plain
    flag : Bool → Plain
    text : Text → Plain
    count : ℕ → Plain
    object : Members → Plain

  pub data Members : Type 0 where
    none_left : Members
    member : Text → Plain → Members → Members

unfoldable mutual
  pub json_of : Plain → Json
  json_of nothing = null
  json_of (flag b) = bool b
  json_of (text s) = str s
  json_of (count n) = num (Number.int (pos n))
  json_of (object ms) = obj (fields_of ms)

  pub fields_of : Members → Fields
  fields_of none_left = nil
  fields_of (member k v ms) = field k (json_of v) (fields_of ms)

unfoldable mutual
  -- `JSON.stringify`
  pub write : Plain → Text
  write nothing = codes "null"
  write (flag true) = codes "true"
  write (flag false) = codes "false"
  write (text s) = quote s
  write (count n) = decimal n
  write (object none_left) = codes "{}"
  write (object (member k v ms)) = 123 ∷ (quote k ++ b':' ∷ (write v ++ write_rest ms))

  -- The text behind a member.
  pub write_rest : Members → Text
  write_rest none_left = 125 ∷ []
  write_rest (member k v ms) = b',' ∷ (quote k ++ b':' ∷ (write v ++ write_rest ms))

abbrev pub members : List (Text × Plain) → Members
members [] = none_left
members ((k, v) ∷ ms) = member k v (members ms)

-- No object has a key twice.
abbrev mutual
  pub HasKeys : Plain → Type 0
  HasKeys (object ms) = HasDistinctKeys ms
  HasKeys nothing = Unit
  HasKeys (flag b) = Unit
  HasKeys (text s) = Unit
  HasKeys (count n) = Unit

  pub HasDistinctKeys : Members → Type 0
  HasDistinctKeys none_left = Unit
  HasDistinctKeys (member k v ms) =
      (field_of (fields_of ms) k ≡ none) × HasKeys v × HasDistinctKeys ms

unfoldable mutual
  pub weight : Plain → ℕ
  weight (object ms) = suc (weight_members ms)
  weight nothing = 1
  weight (flag b) = 1
  weight (text s) = 1
  weight (count n) = 1

  pub weight_members : Members → ℕ
  weight_members none_left = 0
  weight_members (member k v ms) = suc (weight v + weight_members ms)
