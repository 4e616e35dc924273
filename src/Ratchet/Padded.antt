-- ===== src/Ratchet/Padded.antt =====
-- The length of the text that is sealed, in UTF-16 code units.
use messk.Prelude.{
  ℕ, zero, suc, ◌+◌, ◌-◌, ◌≤◌, ◌≡◌, refl, ap, ◌++◌, ◌∷◌, [], some, Text, codes, decimal, length,
  length-append, length-replicate, replicate, ltb, arith, Bool-cases, inl, inr,
}
use messk.Prelude.Int.{pos}
use messk.Json.{quote, quote_unit, quote_units}
use messk.Metadata.{interactive}
use messk.Metadata.Padding.{padding_target_lem, IsPaddedSize}
use messk.Ratchet.Platform.{stringify_envelope}
use messk.Ratchet.Seal.{build_authenticated_plaintext, padding_target, max_padded_payload_bytes}

quote_units-zeros : (n : ℕ) → quote_units (replicate n b'0') ≡ replicate n b'0'
unfolding quote_units quote_unit
quote_units-zeros zero = refl
quote_units-zeros (suc zero) = refl
quote_units-zeros (suc (suc n)) = ap (b'0' ∷◌) (quote_units-zeros (suc n))

longer : (s t t' : Text) (n : ℕ) → length t' ≡ length t + n → length (s ++ t') ≡ length (s ++ t) + n
longer s t t' n e = omega (arith, length-append s t, length-append s t')

longer_nine :
    (a b c d e f g h i t t' : Text) (n : ℕ)
    → length t' ≡ length t + n
    → length (a ++ (b ++ (c ++ (d ++ (e ++ (f ++ (g ++ (h ++ (i ++ t')))))))))
      ≡ length (a ++ (b ++ (c ++ (d ++ (e ++ (f ++ (g ++ (h ++ (i ++ t))))))))) + n
longer_nine a b c d e f g h i t t' n q = longer a _ _ n (
    longer b _ _ n (
      longer c _ _ n (
        longer d _ _ n
          (longer e _ _ n (longer f _ _ n (longer g _ _ n (longer h _ _ n (longer i t t' n q))))))))

quoted_zeros :
    (n : ℕ) (rest : Text)
    → length (quote (replicate n b'0') ++ rest) ≡ length (quote [] ++ rest) + n
unfolding quote
quoted_zeros n rest = rw (quote_units-zeros n) (
    omega (
      arith,
      length-append {A = ℕ} (replicate n b'0' ++ 34 ∷ []) rest,
      length-append {A = ℕ} (replicate n b'0') (34 ∷ []),
      length-replicate {A = ℕ} n b'0',
    ))

length-stringify_padding :
    (k : Text) (n pn : ℕ) (t : Text) (m : ℕ)
    → length (stringify_envelope k n pn t (replicate m b'0'))
      ≡ length (stringify_envelope k n pn t []) + m
unfolding stringify_envelope
length-stringify_padding k n pn t m =
    longer_nine (codes "{\"v\":1,\"header\":{\"ratchetPubKey\":") (quote k) (codes ",\"n\":")
      (decimal n) (codes ",\"pn\":") (decimal pn) (codes "},\"plaintext\":") (quote t)
      (codes ",\"padding\":") (quote [] ++ codes "}") (quote (replicate m b'0') ++ codes "}") m
      (quoted_zeros m (codes "}"))

padded-length :
    (k : Text) (n pn : ℕ) (t s : Text)
    → build_authenticated_plaintext k n pn t ≡ some s
    → (length s ≡ padding_target k n pn t) × (padding_target k n pn t ≤ max_padded_payload_bytes)
unfolding build_authenticated_plaintext padding_target
padded-length k n pn t s e =
    let len = length (stringify_envelope k n pn t []) in
    let covers = (padding_target_lem interactive (pos len)).0 in
    let target = padding_target k n pn t in
    elim (Bool-cases (ltb max_padded_payload_bytes target)) [
      | inl large ↦ absurd (ground arith)
      | inr fits ↦
          let q : stringify_envelope k n pn t (replicate (target - len) b'0') ≡ s = ground arith in
          (
            rw (← q) (omega (arith, length-stringify_padding k n pn t (target - len), covers)),
            ground arith,
          )
    ]

padding_target-size :
    (k : Text) (n pn : ℕ) (t : Text) → IsPaddedSize interactive (padding_target k n pn t)
unfolding padding_target
padding_target-size k n pn t =
    (padding_target_lem interactive (pos (length (stringify_envelope k n pn t [])))).1

-- The text that is encrypted has one of the padded sizes, and at most 1048576 units, both counted
-- in UTF-16 code units, as the source counts.
pub build_plaintext-IsPaddedSize :
    (k : Text) (n pn : ℕ) (t s : Text)
    → build_authenticated_plaintext k n pn t ≡ some s
    → IsPaddedSize interactive (length s) × (length s ≤ 1048576)
build_plaintext-IsPaddedSize k n pn t s e =
    let (q, fits) = padded-length k n pn t s e in
    (rw q (padding_target-size k n pn t), omega (arith, q, fits))
