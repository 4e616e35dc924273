-- ===== src/Ratchet/Wire.antt =====
-- The authenticated envelope: what is written under a message's encryption is read back.
use messk.Prelude.{
  ℕ, suc, ◌≡◌, refl, ap, ◌∙◌, Option, some, [], ◌∷◌, ◌++◌, Text, codes, same, length, decimal, ◌≤◌,
  ◌-◌, arith,
}
use messk.Prelude.Int.{pos}
use messk.Prelude.Number.{Number}
use messk.Json.{Json, str, num, obj, Fields, nil, field, field_of, quote}
use messk.Json.Parse.{parse_json, parse_value, skip_blanks, ◌>>=◌, when_blank}
use messk.Json.Members.{
  parse_value-quote, parse_value-decimal, parse_value-object, parse_members-last,
  parse_members-more,
}
use messk.Ratchet.Platform.{stringify_envelope, envelope_json}

module _ (pub_key : Text) (n pn : ℕ) where
  abbrev header_fields : Fields
  header_fields = field (codes "ratchetPubKey") (str pub_key) (
      field (codes "n") (num (Number.int (pos n)))
        (field (codes "pn") (num (Number.int (pos pn))) nil))

module _ (size fuel : ℕ) (pub_key : Text) (n pn : ℕ) (rest : Text) where
  header_text : Text
  header_text =
      codes "{\"ratchetPubKey\":"
      ++ (quote pub_key
          ++ (codes ",\"n\":" ++ (decimal n ++ (codes ",\"pn\":" ++ (decimal pn ++ 125 ∷ rest)))))

  parse-header :
      parse_value (suc (suc (suc size))) (suc (suc fuel)) header_text
      ≡ some (obj (header_fields pub_key n pn), rest)
  unfolding header_text quote field_of same
  parse-header =
      parse_value-object (suc (suc (suc size))) (suc fuel) _ rest (header_fields pub_key n pn) (
        parse_members-more (parse_value (suc (suc (suc size))) (suc fuel)) (suc (suc size))
          (codes "ratchetPubKey") _ (str pub_key) rest _ _
          (parse_value-quote (suc (suc (suc size))) fuel pub_key _)
          (parse_members-more (parse_value (suc (suc (suc size))) (suc fuel)) (suc size) (codes "n")
            _ (num (Number.int (pos n))) rest _ _
            (parse_value-decimal (suc (suc (suc size))) fuel n b',' _ refl)
            (parse_members-last (parse_value (suc (suc (suc size))) (suc fuel)) size (codes "pn") _
              (num (Number.int (pos pn))) rest
              (parse_value-decimal (suc (suc (suc size))) fuel pn 125 _ refl))))

parse-version :
    (size fuel : ℕ) (rest : Text)
    → parse_value size (suc fuel) (b'1' ∷ (b',' ∷ rest))
      ≡ some (num (Number.int (pos 1)), b',' ∷ rest)
unfolding parse_value
parse-version size fuel rest = refl

-- The four members, with fuel to spare.
parse-envelope :
    (size fuel : ℕ) (pub_key : Text) (n pn : ℕ) (plaintext padding : Text)
    → parse_value
        (suc (suc (suc (suc size))))
        (suc (suc (suc fuel)))
        (stringify_envelope pub_key n pn plaintext padding)
      ≡ some (envelope_json pub_key n pn plaintext padding, [])
unfolding stringify_envelope header_text quote field_of same
parse-envelope size fuel pub_key n pn plaintext padding =
    let deep = suc (suc (suc (suc size))) in
    let value = parse_value deep (suc (suc fuel)) in
    parse_value-object deep (suc (suc fuel)) _ [] _ (
      parse_members-more value (suc (suc (suc size))) (codes "v") _ (num (Number.int (pos 1))) [] _
        _ (parse-version deep (suc fuel) _)
        (parse_members-more value (suc (suc size)) (codes "header") _
          (obj (header_fields pub_key n pn)) [] _ _ (parse-header (suc size) fuel pub_key n pn _)
          (parse_members-more value (suc size) (codes "plaintext") _ (str plaintext) [] _ _
            (parse_value-quote deep (suc fuel) plaintext _)
            (parse_members-last value size (codes "padding") _ (str padding) []
              (parse_value-quote deep (suc fuel) padding _)))))

parse_json-of_value :
    (s : Text) (v : Json) (size : ℕ)
    → length s ≡ suc (suc (suc (suc size)))
    → parse_value (suc (suc (suc (suc size)))) (suc (suc (suc (suc (suc size))))) s ≡ some (v, [])
    → parse_json s ≡ some v
unfolding parse_json
parse_json-of_value s v size e h =
    ap (λ (r : Option (Json × Text)). r >>= λ p. when_blank p.0 (skip_blanks p.1))
      (ap (λ n. parse_value n (suc n) s) e ∙ h)

length-stringify_envelope :
    (pub_key : Text) (n pn : ℕ) (plaintext padding : Text)
    → 4 ≤ length (stringify_envelope pub_key n pn plaintext padding)
unfolding stringify_envelope
length-stringify_envelope pub_key n pn plaintext padding = omega arith

-- `JSON.parse` reads the envelope that `JSON.stringify` writes, for any strings and counters.
pub parse-stringify_envelope :
    (pub_key : Text) (n pn : ℕ) (plaintext padding : Text)
    → parse_json (stringify_envelope pub_key n pn plaintext padding)
      ≡ some (envelope_json pub_key n pn plaintext padding)
parse-stringify_envelope pub_key n pn plaintext padding =
    let s = stringify_envelope pub_key n pn plaintext padding in
    let size = length s - 4 in
    parse_json-of_value s (envelope_json pub_key n pn plaintext padding) size
      (omega (arith, length-stringify_envelope pub_key n pn plaintext padding))
      (parse-envelope size (suc (suc size)) pub_key n pn plaintext padding)
