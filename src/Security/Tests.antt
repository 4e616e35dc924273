-- ===== src/Security/Tests.antt =====
-- A vault that hides nothing, for the tests.
use messk.Prelude.{
  ◌+◌, ◌-◌, ◌≡◌, refl, ap, sym, Option, none, some, [], ◌∷◌, ◌++◌, Text, codes, same, Lacks, map,
  arith,
}
use messk.Security.{
  Vault, IsVault, Bytes, hash_pin, verify_pin, remember_identity_with_pin,
  restore_remembered_identity_with_pin, joined, constant_time_equal,
}
use messk.Security.ConstantTime.{constant_time_equal-same}
use messk.Security.Pin.{verify_pin-hash_pin}
use messk.Security.Remembered.{restore-remember}

-- The code units are shifted past the colon.
abbrev toy_btoa : Bytes → Text
toy_btoa b = map (λ c. c + 64) b

abbrev toy_atob : Text → Option Bytes
toy_atob t = some (map (λ c. c - 64) t)

abbrev pub toy : Vault
toy = record {
  pbkdf2 = λ pin salt iterations. some (pin ++ salt);
  derive_key = λ pin salt iterations. some (pin ++ salt);
  sha256 = λ t. t;
  aes_encrypt = λ key iv t. some t;
  aes_decrypt = λ key iv c. some c;
  btoa = toy_btoa;
  atob = toy_atob;
}

shift_back : (b : Bytes) → map (λ c. c - 64) (toy_btoa b) ≡ b
shift_back [] = refl
shift_back (c ∷ b) = ground (arith, shift_back b)

toy_btoa-Lacks_colon : (b : Bytes) → Lacks b':' (toy_btoa b)
toy_btoa-Lacks_colon [] = refl
toy_btoa-Lacks_colon (c ∷ b) = ground (arith, toy_btoa-Lacks_colon b)

pub toy-IsVault : IsVault toy
toy-IsVault = record {
  base64 = λ b. ap some (shift_back b);
  no_colon = toy_btoa-Lacks_colon;
  aes = λ key iv x c e. sym e;
}

abbrev text_or_nil : Option Text → Text
text_or_nil none = []
text_or_nil (some t) = t

abbrev pub raw : Text
raw =
    text_or_nil
      (remember_identity_with_pin toy (1 ∷ []) (2 ∷ []) 7 (codes "a") (codes "s") (codes "1234"))

pub is_remembered :
    remember_identity_with_pin toy (1 ∷ []) (2 ∷ []) 7 (codes "a") (codes "s") (codes "1234")
    ≡ some raw
unfolding remember_identity_with_pin
is_remembered = refl

restore-remember_example :
    restore_remembered_identity_with_pin toy (some raw) (codes "1234") ≡ some (codes "a", codes "s")
restore-remember_example =
    restore-remember toy toy-IsVault (1 ∷ []) (2 ∷ []) 7 (codes "a") (codes "s") (codes "1234") raw
      is_remembered

is_hashed :
    hash_pin toy (1 ∷ []) (codes "1234") ≡ some (joined toy (1 ∷ []) (codes "1234" ++ 1 ∷ []))
unfolding hash_pin
is_hashed = refl

verify_pin-hash_pin_example :
    verify_pin toy (codes "1111") (joined toy (1 ∷ []) (codes "1234" ++ 1 ∷ []))
    ≡ same (codes "1111" ++ 1 ∷ []) (codes "1234" ++ 1 ∷ [])
verify_pin-hash_pin_example =
    verify_pin-hash_pin toy toy-IsVault (1 ∷ []) (codes "1234") (codes "1111")
      (codes "1234" ++ 1 ∷ []) (codes "1111" ++ 1 ∷ [])
      (joined toy (1 ∷ []) (codes "1234" ++ 1 ∷ [])) refl refl is_hashed

constant_time_equal-same_example :
    constant_time_equal (1 ∷ (2 ∷ [])) (1 ∷ (3 ∷ [])) ≡ same (1 ∷ (2 ∷ [])) (1 ∷ (3 ∷ []))
constant_time_equal-same_example = constant_time_equal-same (1 ∷ (2 ∷ [])) (1 ∷ (3 ∷ []))
