-- ===== src/Json.antt =====
-- JSON values as the source reads and writes them: `JSON.stringify` of a string is here, and
-- `JSON.parse` in the child module.
pub mod Parse
pub mod Written
pub mod Members
pub mod Plain
mod Tests
use messk.Prelude.{
  ℕ, ◌+◌, ◌-◌, ◌/◌, ◌%◌, Bool, true, false, ◌&&◌, ◌||◌, Option, none, some, [], ◌∷◌, ◌++◌, Text,
  codes, same, nonempty, leb, ltb, ◌==◌, if◌then◌else◌,
}
use messk.Prelude.Int.{ℤ, pos}
use messk.Prelude.Number.{Number}

mutual
  pub data Json : Type 0 where
    null : Json
    bool : Bool → Json
    num : Number → Json
    str : Text → Json
    arr : Items → Json
    obj : Fields → Json

  pub data Items : Type 0 where
    end : Items
    item : Json → Items → Items

  pub data Fields : Type 0 where
    nil : Fields
    field : Text → Json → Fields → Fields

-- The value of a key of an object; the keys of a parsed object are distinct.
unfoldable pub field_of : Fields → Text → Option Json
field_of nil key = none
field_of (field k v fs) key = if same k key then some v else field_of fs key

-- `value[key]`, for a value that is not null; `none` is undefined.
unfoldable pub get : Json → Text → Option Json
unfolding field_of
get (obj fs) key = field_of fs key
get _ key = none

-- Boolean(value), where undefined is `none`.
unfoldable pub is_truthy : Option Json → Bool
is_truthy (some (bool b)) = b
is_truthy (some (str s)) = nonempty s
is_truthy (some (num (Number.int (pos n)))) = ltb 0 n
is_truthy (some (num Number.nan)) = false
is_truthy (some null) = false
is_truthy none = false
is_truthy _ = true

abbrev pub hex_digit : ℕ → ℕ
hex_digit d = if ltb d 10 then 48 + d else 87 + d

-- \uXXXX
unfoldable pub unicode_escape : ℕ → Text
unicode_escape c =
    codes "\\u"
    ++ (hex_digit (c / 4096)
        ∷ (hex_digit (c / 256 % 16) ∷ (hex_digit (c / 16 % 16) ∷ (hex_digit (c % 16) ∷ []))))

-- One code unit inside a string literal (ECMAScript, QuoteJSONString); a surrogate that stands
-- alone is escaped.
unfoldable pub quote_unit : ℕ → Text
unfolding unicode_escape
quote_unit c =
    if c == 34
    then 92 ∷ (34 ∷ [])
    else if c == 92
    then 92 ∷ (92 ∷ [])
    else if c == 8
    then codes "\\b"
    else if c == 9
    then codes "\\t"
    else if c == 10
    then codes "\\n"
    else if c == 12
    then codes "\\f"
    else if c == 13
    then codes "\\r"
    else if ltb c 32 || leb 0xD800 c && leb c 0xDFFF
    then unicode_escape c
    else c ∷ []

unfoldable pub quote_units : Text → Text
unfolding quote_unit
quote_units [] = []
quote_units (c ∷ []) = quote_unit c
quote_units (c ∷ (d ∷ s)) =
    let pair = c ∷ (d ∷ quote_units s) in
    let single = quote_unit c ++ quote_units (d ∷ s) in
    if leb 0xD800 c && leb c 0xDBFF && leb 0xDC00 d && leb d 0xDFFF then pair else single

unfoldable pub quote : Text → Text
unfolding quote_units
quote s = 34 ∷ (quote_units s ++ 34 ∷ [])
