-- ===== src/Json/Written.antt =====
-- What JSON.stringify writes, JSON.parse reads back: string literals and natural numbers.
use messk.Prelude.{
  ℕ, zero, suc, ◌+◌, ◌-◌, ◌*◌, ◌/◌, ◌%◌, ◌<◌, ◌≤◌, ◌≡◌, ◌≢◌, refl, ap, ◌∙◌, Bool, true, false, ◌&&◌,
  ◌||◌, some, [], ◌∷◌, ◌++◌, Text, arith, leb, ltb, ◌==◌, subst, codes, if◌then◌else◌, decimal,
  Bool-cases, inl, inr, all, length, value_from, decimal-head, value-decimal,
}
use mathlib.Core.List.{append_assoc}
use messk.Json.{quote_unit, quote_units, unicode_escape, hex_digit}
use messk.Json.Parse.{
  hex_value, unquote, plain, prepend, is_digit, read_digits, read_integer, read_unsigned,
  read_fraction, read_exponent, make_number,
}
use messk.Json.{num}
use messk.Prelude.Int.{pos}
use messk.Prelude.Number.{Number}

hex_value-digit : (d : ℕ) → d < 16 → hex_value (hex_digit d) ≡ some d
unfolding hex_value
hex_value-digit d h = ground arith

unquote-plain :
    (c : ℕ) (t : Text)
    → 32 ≤ c
    → c ≢ 34
    → c ≢ 92
    → unquote plain (c ∷ t) ≡ prepend c (unquote plain t)
unfolding unquote
unquote-plain c t h p q = ground arith

unquote-unicode :
    (c : ℕ) (t : Text)
    → c < 65536
    → unquote plain (unicode_escape c ++ t) ≡ prepend c (unquote plain t)
unfolding unquote unicode_escape
unquote-unicode c t h =
    rw
      (
        hex_value-digit (c / 4096) (omega arith),
        hex_value-digit (c / 256 % 16) (omega arith),
        hex_value-digit (c / 16 % 16) (omega arith),
        hex_value-digit (c % 16) (omega arith),
      )
      (ap (λ v. prepend v (unquote plain t)) (omega arith))

abbrev Reads : ℕ → Text → Text → Type 0
Reads c t written = unquote plain (written ++ t) ≡ prepend c (unquote plain t)

Reads-if :
    (c : ℕ) (t : Text) (b : Bool) (x y : Text)
    → (b ≡ true → Reads c t x)
    → (b ≡ false → Reads c t y)
    → Reads c t (if b then x else y)
Reads-if c t true x y p q = p refl
Reads-if c t false x y p q = q refl

-- A unit whose escape is a backslash and one letter.
Reads-escape : (c k : ℕ) (t escape : Text) → ((c == k) ≡ true) → Reads k t escape → Reads c t escape
Reads-escape c k t escape e r = let q : k ≡ c = ground arith in subst (λ v. Reads v t escape) q r

unquote-unit : (c : ℕ) (t : Text) → Reads c t (quote_unit c)
unfolding quote_unit unquote
unquote-unit c t =
    Reads-if c t (c == 34) _ _ (λ e. Reads-escape c 34 t (92 ∷ (34 ∷ [])) e refl)
      λ n34.
        Reads-if c t (c == 92) _ _ (λ e. Reads-escape c 92 t (92 ∷ (92 ∷ [])) e refl)
          λ n92.
            Reads-if c t (c == 8) _ _ (λ e. Reads-escape c 8 t (codes "\\b") e refl)
              λ _.
                Reads-if c t (c == 9) _ _ (λ e. Reads-escape c 9 t (codes "\\t") e refl)
                  λ _.
                    Reads-if c t (c == 10) _ _ (λ e. Reads-escape c 10 t (codes "\\n") e refl)
                      λ _.
                        Reads-if c t (c == 12) _ _ (λ e. Reads-escape c 12 t (codes "\\f") e refl)
                          λ _.
                            Reads-if c t (c == 13) _ _
                              (λ e. Reads-escape c 13 t (codes "\\r") e refl)
                              λ _.
                                Reads-if c t (ltb c 32 || leb 0xD800 c && leb c 0xDFFF) _ _
                                  (λ e. unquote-unicode c t (ground arith))
                                  (λ n.
                                    unquote-plain c t (ground arith) (ground arith) (ground arith))

abbrev is_pair : ℕ → ℕ → Bool
is_pair c d = leb 0xD800 c && leb c 0xDBFF && leb 0xDC00 d && leb d 0xDFFF

unquote-pair :
    (c d : ℕ) (t : Text)
    → is_pair c d ≡ true
    → unquote plain (c ∷ (d ∷ t)) ≡ prepend c (prepend d (unquote plain t))
unquote-pair c d t h =
    unquote-plain c (d ∷ t) (ground arith) (ground arith) (ground arith)
    ∙ ap (prepend c) (unquote-plain d t (ground arith) (ground arith) (ground arith))

-- A quoted text is read back, whatever follows it.
pub unquote-quote_units :
    (s rest : Text) → unquote plain (quote_units s ++ 34 ∷ rest) ≡ some (s, rest)
unfolding quote_units
unquote-quote_units [] rest = unfold unquote in refl
unquote-quote_units (c ∷ []) rest =
    unquote-unit c (34 ∷ rest) ∙ ap (prepend c) (unquote-quote_units [] rest)
unquote-quote_units (c ∷ (d ∷ s)) rest = elim (Bool-cases (is_pair c d)) [
  | inl pair ↦ rw pair (
      unquote-pair c d (quote_units s ++ 34 ∷ rest) pair
      ∙ ap (λ r. prepend c (prepend d r)) (unquote-quote_units s rest))
  | inr single ↦
      rw (single, append_assoc)
        (unquote-unit c (quote_units (d ∷ s) ++ 34 ∷ rest)
          ∙ ap (prepend c) (unquote-quote_units (d ∷ s) rest))
]

read_digits-all :
    (v k : ℕ) (s : Text) (c : ℕ) (rest : Text)
    → all is_digit s ≡ true
    → is_digit c ≡ false
    → read_digits v k (s ++ c ∷ rest) ≡ (value_from v s, k + length s, c ∷ rest)
unfolding read_digits value_from
read_digits-all v k [] c rest h e = ground arith
read_digits-all v k (d ∷ s) c rest h e =
    ground (arith, read_digits-all (v * 10 + (d - 48)) (k + 1) s c rest)

-- A natural number is read back up to the character behind it.
read_integer-decimal :
    (n c : ℕ) (rest : Text)
    → is_digit c ≡ false
    → read_integer (decimal n ++ c ∷ rest) ≡ some (n, c ∷ rest)
unfolding read_integer value_from
read_integer-decimal zero c rest e = unfold decimal in refl
read_integer-decimal (suc m) c rest e =
    let (d, s, q, digit, nonzero, digits) = decimal-head (suc m) (omega arith) in
    rw q (
      ground (
        arith,
        read_digits-all (d - 48) 1 s c rest digits e,
        value-decimal (suc m),
        ap (value_from 0) q,
      ))

-- The characters that JSON.stringify puts behind a number.
abbrev pub ends_number : ℕ → Bool
ends_number c = c == b',' || c == 125 || c == 93

whole-scale : (n : ℕ) → make_number false n 0 (pos 0) ≡ Number.int (pos n)
unfolding make_number
whole-scale n = ground arith

read_fraction-end :
    (n c : ℕ) (rest : Text)
    → ends_number c ≡ true
    → read_fraction n (c ∷ rest) ≡ some (n, 0, c ∷ rest)
unfolding read_fraction
read_fraction-end n c rest h = ground arith

read_exponent-end :
    (c : ℕ) (rest : Text) → ends_number c ≡ true → read_exponent (c ∷ rest) ≡ some (pos 0, c ∷ rest)
unfolding read_exponent
read_exponent-end c rest h = ground arith

pub read_unsigned-decimal :
    (n c : ℕ) (rest : Text)
    → ends_number c ≡ true
    → read_unsigned false (decimal n ++ c ∷ rest) ≡ some (num (Number.int (pos n)), c ∷ rest)
unfolding read_unsigned
read_unsigned-decimal n c rest h =
    rw (read_integer-decimal n c rest (ground arith))
      (rw (read_fraction-end n c rest h) (rw (read_exponent-end c rest h) (rw (whole-scale n))))
