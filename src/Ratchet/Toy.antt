-- ===== src/Ratchet/Toy.antt =====
-- A concrete platform for the tests: encodings that change nothing, key derivations by sums, and a
-- box that carries its key.
use messk.Prelude.{
  ℕ, ◌+◌, ◌-◌, ◌*◌, ◌/◌, ◌<◌, ◌==◌, ◌≡◌, refl, ap, sym, Option, none, some, [], ◌∷◌, ◌++◌,
  ◌or_else◌, same, same_refl, subst, nonempty, true, length, take, drop, replicate,
  length-replicate, length-append, take-append, drop-append, if◌then◌else◌, arith, Bool-cases, inl,
  inr,
}
use messk.Ratchet.Platform.{Platform, IsPlatform, Bytes, KeyPair}
use messk.Ratchet.Turn.{IsKeyExchange}

abbrev sum : Bytes → ℕ
sum [] = 0
sum (b ∷ bs) = b + sum bs

abbrev toy_tag : Bytes → Bytes
toy_tag key = replicate 16 (sum key)

abbrev toy_box : Bytes → Bytes → Bytes → Option Bytes
toy_box m nonce key = if length nonce == 24 then some (m ++ toy_tag key) else none

abbrev toy_open : Bytes → Bytes → Bytes → Option (Option Bytes)
toy_open c nonce key =
    if same (drop (length c - 16) c) (toy_tag key)
    then some (some (take (length c - 16) c))
    else some none

abbrev pub toy : Platform
toy = record {
  decode_base64 = λ t. some t;
  encode_base64 = λ b. b;
  decode_utf8 = λ t. some t;
  encode_utf8 = λ b. some b;
  derive_bits = λ secret salt info bits. some (replicate (bits / 8) (sum secret + sum salt));
  sign = λ key d. some (replicate 32 (sum key + sum d));
  box_before = λ pub_key secret. some (replicate 32 (sum pub_key * sum secret));
  secretbox = toy_box;
  secretbox_open = toy_open;
}

toy-base64_nonempty : (b : Bytes) → 0 < length b → nonempty b ≡ true
toy-base64_nonempty [] h = absurd (omega arith)
toy-base64_nonempty (c ∷ b) h = refl

toy-box :
    (m nonce key c : Bytes)
    → toy_box m nonce key ≡ some c
    → (length nonce ≡ 24) × (length c ≡ length m + 16) × (toy_open c nonce key ≡ some (some m))
toy-box m nonce key c e = elim (Bool-cases (length nonce == 24)) [
  | inl right ↦
      let q : c ≡ m ++ toy_tag key = ground arith in
      let l : length c ≡ length m + 16 = rw q (omega (arith, length-append m (toy_tag key))) in
      let front : length c - 16 ≡ length m = omega (arith, l) in
      (
        ground arith,
        l,
        rw front (
            rw
              (
                q,
                drop-append (length m) m (toy_tag key) refl,
                take-append (length m) m (toy_tag key) refl,
                same_refl (toy_tag key),
              )
              refl),
      )
  | inr wrong ↦ absurd (ground arith)
]

pub toy-IsPlatform : IsPlatform toy
toy-IsPlatform = record {
  base64 = λ b. refl;
  base64_nonempty = toy-base64_nonempty;
  utf8 = λ t b e. sym e;
  box = toy-box;
  sign_length = λ key d r e. ap (λ (o : Option Bytes). length (o or_else replicate 32 0)) (sym e);
}

-- A key pair whose two keys are one.
abbrev pub ToyPair : KeyPair → Type 0
ToyPair pair = (pair.public_key ≡ pair.secret_key) × (0 < length pair.public_key)

toy-shared :
    (a b : KeyPair)
    → ToyPair a
    → ToyPair b
    → (dh : Bytes) × (toy.box_before a.public_key b.secret_key ≡ some dh)
      × (toy.box_before b.public_key a.secret_key ≡ some dh)
toy-shared a b (ha, la) (hb, lb) = (
  replicate 32 (sum a.public_key * sum b.secret_key),
  refl,
  ap (λ n. some (replicate 32 n))
      (let both : sum b.public_key * sum a.secret_key ≡ sum a.public_key * sum b.secret_key =
          rw (ha, hb) (omega arith) in
        both),
)

pub toy-IsKeyExchange : IsKeyExchange toy ToyPair
toy-IsKeyExchange = record {
  shared = toy-shared;
  long = λ a h. h.1;
  long_secret = λ a h. subst (λ (k : Bytes). 0 < length k) h.0 h.1;
  derive = λ secret salt info n bound. (
    replicate (n * 8 / 8) (sum secret + sum salt),
    refl,
    omega (arith, length-replicate {A = ℕ} (n * 8 / 8) (sum secret + sum salt)),
  );
}
