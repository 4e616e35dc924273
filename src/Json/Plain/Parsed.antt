-- ===== src/Json/Plain/Parsed.antt =====
-- What `JSON.parse` reads of it.
use messk.Prelude.{
  ℕ, zero, suc, ◌≤◌, ◌<◌, ◌≡◌, refl, ap, sym, ◌∙◌, true, false, Option, some, [], ◌∷◌, ◌++◌, Text,
  codes, decimal, decimal-head, length, length-append, arith,
}
use mathlib.Core.List.{append_assoc, append-nil}
use messk.Json.{Json, null, bool, str, obj, Fields, nil, quote}
use messk.Json.Parse.{parse_json, parse_value, parse_members, skip_blanks, when_blank, ◌>>=◌}
use messk.Json.Members.{
  parse_value-quote, parse_value-decimal, parse_value-object, parse_members-last,
  parse_members-more,
}
use messk.Json.Written.{ends_number}
use messk.Json.Plain.{
  Plain, nothing, flag, text, count, object, Members, none_left, member, json_of, fields_of, write,
  write_rest, HasKeys, HasDistinctKeys, weight, weight_members,
}

parse_value-literal :
    (size fuel : ℕ) (rest : Text)
    → (parse_value size (suc fuel) (codes "null" ++ rest) ≡ some (null, rest))
      × (parse_value size (suc fuel) (codes "true" ++ rest) ≡ some (bool true, rest))
      × (parse_value size (suc fuel) (codes "false" ++ rest) ≡ some (bool false, rest))
      × (parse_value size (suc fuel) (codes "{}" ++ rest) ≡ some (obj nil, rest))
unfolding parse_value
parse_value-literal size fuel rest = (refl, refl, refl, refl)

-- The text of the members, and what follows the object.
abbrev pub open_members : Members → Text → Text
open_members none_left rest = rest
open_members (member k v ms) rest = quote k ++ b':' ∷ (write v ++ (write_rest ms ++ rest))

write-object :
    (k : Text) (v : Plain) (ms : Members) (rest : Text)
    → write (object (member k v ms)) ++ rest ≡ 123 ∷ open_members (member k v ms) rest
unfolding write
write-object k v ms rest = simp append_assoc

open-nil :
    (k : Text) (v : Plain) (ms : Members)
    → open_members (member k v ms) [] ≡ quote k ++ b':' ∷ (write v ++ write_rest ms)
open-nil k v ms = simp append-nil

rest-members :
    (j : Text) (u : Plain) (ms : Members) (rest : Text)
    → (quote j ++ b':' ∷ (write u ++ write_rest ms)) ++ rest ≡ open_members (member j u ms) rest
rest-members j u ms rest = simp append_assoc

parse_value-members :
    (size fuel : ℕ) (k t rest : Text) (fs : Fields)
    → parse_members (parse_value size fuel) size (quote k ++ t) ≡ some (fs, rest)
    → parse_value size (suc fuel) (123 ∷ (quote k ++ t)) ≡ some (obj fs, rest)
unfolding quote
parse_value-members size fuel k t rest fs h = parse_value-object size fuel _ rest fs h

mutual
  unfolding write json_of weight

  parse-plain :
      (v : Plain) (size fuel c : ℕ) (rest : Text)
      → HasKeys v
      → weight v ≤ suc fuel
      → weight v ≤ size
      → ends_number c ≡ true
      → parse_value size (suc fuel) (write v ++ c ∷ rest) ≡ some (json_of v, c ∷ rest)
  parse-plain nothing size fuel c rest h w w' e = (parse_value-literal size fuel (c ∷ rest)).0
  parse-plain (flag true) size fuel c rest h w w' e = (parse_value-literal size fuel (c ∷ rest)).1
  parse-plain (flag false) size fuel c rest h w w' e = (parse_value-literal size fuel (c ∷ rest)).2
  parse-plain (text s) size fuel c rest h w w' e = parse_value-quote size fuel s (c ∷ rest)
  parse-plain (count n) size fuel c rest h w w' e = parse_value-decimal size fuel n c rest e
  parse-plain (object none_left) size fuel c rest h w w' e =
      (parse_value-literal size fuel (c ∷ rest)).3
  parse-plain (object (member k v ms)) size zero c rest h w w' e = absurd (omega arith)
  parse-plain (object (member k v ms)) size (suc fuel) c rest h w w' e =
      ap (parse_value size (suc (suc fuel))) (write-object k v ms (c ∷ rest))
      ∙ parse_value-members size (suc fuel) k _ (c ∷ rest) (fields_of (member k v ms)) (
          parse-members (member k v ms) size fuel size (c ∷ rest) h (omega arith) (omega arith)
            (omega arith) (omega arith))

  parse-members :
      (ms : Members) (size fuel left : ℕ) (rest : Text)
      → HasDistinctKeys ms
      → 0 < weight_members ms
      → weight_members ms ≤ suc fuel
      → weight_members ms ≤ left
      → weight_members ms ≤ size
      → parse_members (parse_value size (suc fuel)) left (open_members ms rest)
        ≡ some (fields_of ms, rest)
  parse-members none_left size fuel left rest h n w l s = absurd (omega arith)
  parse-members (member k v ms) size fuel zero rest h n w l s = absurd (omega arith)
  parse-members (member k v none_left) size fuel (suc left) rest (new, hv, hs) n w l s =
      parse_members-last (parse_value size (suc fuel)) left k (write v ++ 125 ∷ rest) (json_of v)
        rest (parse-plain v size fuel 125 rest hv (omega arith) (omega arith) refl)
  parse-members (member k v (member j u ms)) size fuel (suc left) rest (new, hv, hs) n w l s =
      ap
        (λ t.
          parse_members (parse_value size (suc fuel)) (suc left)
            (quote k ++ b':' ∷ (write v ++ b',' ∷ t)))
        (rest-members j u ms rest)
      ∙ parse_members-more (parse_value size (suc fuel)) left k
          (write v ++ b',' ∷ open_members (member j u ms) rest) (json_of v) rest
          (open_members (member j u ms) rest) (fields_of (member j u ms))
          (parse-plain v size fuel b',' (open_members (member j u ms) rest) hv (omega arith)
            (omega arith) refl)
          (parse-members (member j u ms) size fuel left rest hs (omega arith) (omega arith)
            (omega arith) (omega arith))
      ∙ ap (λ fs. some (fs, rest)) (rw new refl)

length-written : (s : Text) (n : ℕ) → (1 ≤ length (quote s)) × (1 ≤ length (decimal n))
unfolding quote
length-written s zero = (omega arith, unfold decimal in omega arith)
length-written s (suc n) =
    let (d, t, q, _, _, _) = decimal-head (suc n) (omega arith) in (omega arith, rw q (omega arith))

mutual
  unfolding write weight

  weight-le-length : (v : Plain) → weight v ≤ length (write v)
  weight-le-length nothing = omega arith
  weight-le-length (flag true) = omega arith
  weight-le-length (flag false) = omega arith
  weight-le-length (text s) = omega (arith, (length-written s 0).0)
  weight-le-length (count n) = omega (arith, (length-written [] n).1)
  weight-le-length (object none_left) = omega arith
  weight-le-length (object (member k v ms)) = omega (
    arith,
    weight-le-length v,
    weight-le-rest ms,
    length-append (quote k) (b':' ∷ (write v ++ write_rest ms)),
    length-append (write v) (write_rest ms),
  )

  weight-le-rest : (ms : Members) → weight_members ms ≤ length (write_rest ms)
  weight-le-rest none_left = omega arith
  weight-le-rest (member k v ms) = omega (
    arith,
    weight-le-length v,
    weight-le-rest ms,
    length-append (quote k) (b':' ∷ (write v ++ write_rest ms)),
    length-append (write v) (write_rest ms),
  )

parse_json-value :
    (s : Text) (v : Json)
    → parse_value (length s) (suc (length s)) s ≡ some (v, [])
    → parse_json s ≡ some v
unfolding parse_json
parse_json-value s v h =
    ap (λ (r : Option (Json × Text)). r >>= λ p. when_blank p.0 (skip_blanks p.1)) h

parse_json-object :
    (k : Text) (v : Plain) (ms : Members)
    → HasDistinctKeys (member k v ms)
    → parse_json (write (object (member k v ms))) ≡ some (json_of (object (member k v ms)))
unfolding write json_of weight
parse_json-object k v ms h =
    let t = quote k ++ b':' ∷ (write v ++ write_rest ms) in
    let w = weight-le-rest ms in
    let w' = weight-le-length v in
    let l = length-append (quote k) (b':' ∷ (write v ++ write_rest ms)) in
    let l' = length-append (write v) (write_rest ms) in
    parse_json-value (123 ∷ t) (obj (fields_of (member k v ms))) (
      parse_value-members (suc (length t)) (suc (length t)) k _ [] (fields_of (member k v ms)) (
        ap (parse_members (parse_value (suc (length t)) (suc (length t))) (suc (length t)))
          (sym (open-nil k v ms))
        ∙ parse-members (member k v ms) (suc (length t)) (length t) (suc (length t)) [] h
            (omega arith) (omega arith) (omega arith) (omega arith)))

-- Not a number alone, behind which `JSON.parse` sees the end of the text.
abbrev pub IsNotCount : Plain → Type 0
IsNotCount (count n) = ⊥
IsNotCount _ = Unit

-- `JSON.parse` reads the text that `JSON.stringify` writes of a value.
pub parse-write : (v : Plain) → HasKeys v → IsNotCount v → parse_json (write v) ≡ some (json_of v)
unfolding write json_of
parse-write nothing h c = unfold parse_json parse_value in refl
parse-write (flag true) h c = unfold parse_json parse_value in refl
parse-write (flag false) h c = unfold parse_json parse_value in refl
parse-write (text s) h c = parse_json-value (quote s) (str s) (
    ap (parse_value (length (quote s)) (suc (length (quote s)))) (sym (append-nil (quote s)))
    ∙ parse_value-quote (length (quote s)) (length (quote s)) s [])
parse-write (count n) h c = absurd c
parse-write (object none_left) h c = unfold parse_json parse_value in refl
parse-write (object (member k v ms)) h c = parse_json-object k v ms h
