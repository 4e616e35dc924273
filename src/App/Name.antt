-- ===== src/App/Name.antt =====
-- The names of databases.
use messk.Prelude.{
  ℕ, zero, suc, ◌==◌, ◌≡◌, refl, sym, ap, ◌∙◌, Bool, true, not, ◌&&◌, [], ◌∷◌, ◌++◌, Text, nonempty,
  map, all, replicate, drop, arith,
}
use messk.App.{safe_char, strip_padding, get_database_name_for_identity}

-- Of the alphabet of Base64, or at least none of the characters that the replacements bring in.
abbrev pub is_plain : ℕ → Bool
is_plain c = not (c == b'-') && not (c == b'_') && not (c == b'=')

-- A Base64 text with its padding.
abbrev pub padded : Text → ℕ → Text
padded s n = s ++ replicate n b'='

strip-padding : (n : ℕ) → strip_padding (map safe_char (replicate n b'=')) ≡ []
unfolding strip_padding
strip-padding zero = refl
strip-padding (suc n) = rw (strip-padding n) refl

strip-padded :
    (s : Text) (n : ℕ)
    → all is_plain s ≡ true
    → strip_padding (map safe_char (padded s n)) ≡ map safe_char s
unfolding strip_padding
strip-padded [] n h = strip-padding n
strip-padded (c ∷ s) n h = ground (arith, strip-padded s n)

map-safe_char_inj :
    (s t : Text)
    → all is_plain s ≡ true
    → all is_plain t ≡ true
    → map safe_char s ≡ map safe_char t
    → s ≡ t
map-safe_char_inj [] [] h k e = refl
map-safe_char_inj [] (d ∷ t) h k e = absurd (cc)
map-safe_char_inj (c ∷ s) [] h k e = absurd (cc)
map-safe_char_inj (c ∷ s) (d ∷ t) h k e = ground (arith, map-safe_char_inj s t)

-- Two public keys in Base64, with the same padding, that give one database name are the same key.
pub database_name_inj :
    (s t : Text) (n : ℕ)
    → all is_plain s ≡ true
    → all is_plain t ≡ true
    → nonempty s ≡ true
    → nonempty t ≡ true
    → get_database_name_for_identity (padded s n) ≡ get_database_name_for_identity (padded t n)
    → padded s n ≡ padded t n
unfolding get_database_name_for_identity
database_name_inj [] t n h k p q e = absurd (cc)
database_name_inj (c ∷ s) [] n h k p q e = absurd (cc)
database_name_inj (c ∷ s) (d ∷ t) n h k p q e =
    let stripped = ap (λ u. drop 25 u) e in
    ap (λ u. padded u n)
      (map-safe_char_inj (c ∷ s) (d ∷ t) h k
        (sym (strip-padded (c ∷ s) n h) ∙ stripped ∙ strip-padded (d ∷ t) n k))
