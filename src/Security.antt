-- ===== src/Security.antt =====
-- messk/src/lib/security.ts: the PIN's hash, and the identity that is remembered under the PIN.
-- WebCrypto, `btoa` and `atob` are the record `Vault`, where `none` is an exception; the salt, the
-- initialisation vector and the time are arguments. Overwriting buffers with zeros is not modelled.
pub mod ConstantTime
pub mod Pin
pub mod Remembered
pub mod Tests
use Prim.Native.Nat.{bit_or, bit_xor}
use messk.Prelude.{
  ℕ, zero, suc, ◌+◌, ◌*◌, ◌/◌, ◌%◌, ◌==◌, ◌<◌, ◌≡◌, Bool, true, false, ◌&&◌, ◌||◌, not, Option,
  none, some, List, [], ◌∷◌, ◌++◌, Text, codes, same, nonempty, ltb, leb, length, decimal, split,
  starts_with, trim_start, value_from, Lacks, if◌then◌else◌,
}
use messk.Prelude.Int.{pos}
use messk.Prelude.Number.{Number}
use messk.Json.{Json, num, str, get}
use messk.Json.Parse.{parse_json, is_digit}
use messk.Json.Plain.{Plain, text, count, object, members, write}
use messk.Ratchet.Step.{◌>>?◌}

abbrev pub Bytes : Type 0
Bytes = List ℕ

pub record Vault : Type 0 where
  -- PBKDF2 with SHA-256 of the text's bytes, with salt and iterations: 256 bits, and an AES key.
  pub pbkdf2 : Text → Bytes → ℕ → Option Bytes
  pub derive_key : Text → Bytes → Number → Option Bytes
  pub sha256 : Text → Bytes
  -- AES-GCM of a text's bytes, with key and initialisation vector. A wrong key throws.
  pub aes_encrypt : Bytes → Bytes → Text → Option Bytes
  pub aes_decrypt : Bytes → Bytes → Bytes → Option Text
  pub btoa : Bytes → Text
  pub atob : Text → Option Bytes

-- What they are documented to do: `atob` undoes `btoa`, whose alphabet has no colon, and decryption
-- undoes encryption, where the text is what JSON.stringify writes (which has no lone surrogate and does not
-- begin with a byte order mark, and so is kept by TextEncoder and TextDecoder).
pub record IsVault (v : Vault) : Type 0 where
  pub base64 : (b : Bytes) → v.atob (v.btoa b) ≡ some b
  pub no_colon : (b : Bytes) → Lacks b':' (v.btoa b)
  pub aes :
      (key iv : Bytes) (x : Plain) (c : Bytes)
      → v.aes_encrypt key iv (write x) ≡ some c
      → v.aes_decrypt key iv c ≡ some (write x)

abbrev pub pin_hash_prefix : Text
pin_hash_prefix = codes "pbkdf2:v1"

abbrev pub pin_hash_iterations : ℕ
pin_hash_iterations = 210000

abbrev pub remembered_identity_prefix : Text
remembered_identity_prefix = codes "pinbox:v1"

abbrev pub remembered_identity_iterations : ℕ
remembered_identity_iterations = 310000

abbrev pub hex_digit : ℕ → ℕ
hex_digit n = if ltb n 10 then 48 + n else 87 + n

-- `byte.toString(16).padStart(2, '0')` for each byte
unfoldable pub to_hex : Bytes → Text
to_hex [] = []
to_hex (b ∷ bs) = hex_digit (b / 16) ∷ (hex_digit (b % 16) ∷ to_hex bs)

-- `diff |= a[i] ^ b[i]` over all bytes
unfoldable pub differences : ℕ → Bytes → Bytes → ℕ
differences diff (x ∷ xs) (y ∷ ys) = differences (bit_or diff (bit_xor x y)) xs ys
differences diff _ _ = diff

unfoldable pub constant_time_equal : Bytes → Bytes → Bool
constant_time_equal a b = if not (length a == length b) then false else differences 0 a b == 0

-- The digits that a text begins with.
unfoldable pub leading_digits : Text → Text
leading_digits [] = []
leading_digits (c ∷ s) = let rest = leading_digits s in if is_digit c then c ∷ rest else []

abbrev digits_value : Text → Option ℕ
digits_value [] = none
digits_value (d ∷ ds) = some (value_from 0 (d ∷ ds))

-- `Number.parseInt(s, 10)` where that is a natural number; `none` for NaN and below 0, which are both
-- refused.
unfoldable pub parse_int : Text → Option ℕ
parse_int s = elim (trim_start s) [
  | [] ↦ none
  | c ∷ rest ↦ digits_value (leading_digits (if c == b'+' then rest else c ∷ rest))
]

module _ (v : Vault) where
  unfoldable pub digest_pin : Text → Text
  digest_pin pin = to_hex (v.sha256 pin)

  -- `[…].join(':')`
  abbrev pub joined : Bytes → Bytes → Text
  joined salt hash =
      pin_hash_prefix
      ++ b':' ∷ (decimal pin_hash_iterations ++ b':' ∷ (v.btoa salt ++ b':' ∷ v.btoa hash))

  unfoldable pub hash_pin : Bytes → Text → Option Text
  hash_pin salt pin = v.pbkdf2 pin salt pin_hash_iterations >>? λ hash. some (joined salt hash)

  abbrev is_some_true : Option Bool → Bool
  is_some_true (some b) = b
  is_some_true none = false

  -- The comparison in the `try`; an exception gives false.
  abbrev pub verify_derived : Text → ℕ → Text → Text → Bool
  verify_derived pin iterations salt_text expected_text = is_some_true (
      v.atob salt_text >>? λ salt. v.atob expected_text >>? λ expected.
      v.pbkdf2 pin salt iterations >>? λ actual. some (constant_time_equal actual expected))

  abbrev pub verify_iterations : Text → Option ℕ → Text → Text → Bool
  verify_iterations pin none salt_text expected_text = false
  verify_iterations pin (some iterations) salt_text expected_text =
      if not (ltb 0 iterations)
      then false
      else verify_derived pin iterations salt_text expected_text

  -- `parts.length !== 5`
  abbrev pub verify_parts : Text → List Text → Bool
  verify_parts pin (a ∷ (b ∷ (iterations ∷ (salt ∷ (hash ∷ []))))) =
      verify_iterations pin (parse_int iterations) salt hash
  verify_parts pin _ = false

  unfoldable pub verify_pin : Text → Text → Bool
  verify_pin pin expected_hash =
      if not (starts_with expected_hash (pin_hash_prefix ++ b':' ∷ []))
      then same (digest_pin pin) expected_hash
      else verify_parts pin (split b':' expected_hash)

  abbrev pub identity_plain : Text → Text → ℕ → Plain
  identity_plain public_key secret_key now = object (
      members (
        (codes "publicKey", text public_key)
        ∷ ((codes "secretKey", text secret_key) ∷ ((codes "savedAt", count now) ∷ []))))

  abbrev pub envelope_plain : Bytes → Bytes → Bytes → Plain
  envelope_plain salt iv ciphertext = object (
      members (
        (codes "version", text remembered_identity_prefix)
        ∷ ((codes "iterations", count remembered_identity_iterations)
            ∷ ((codes "salt", text (v.btoa salt))
                ∷ ((codes "iv", text (v.btoa iv))
                    ∷ ((codes "ciphertext", text (v.btoa ciphertext)) ∷ []))))))

  -- What is written to localStorage; `none` is an exception, and nothing is written.
  unfoldable pub remember_identity_with_pin : Bytes → Bytes → ℕ → Text → Text → Text → Option Text
  remember_identity_with_pin salt iv now public_key secret_key pin =
      v.derive_key pin salt (Number.int (pos remembered_identity_iterations)) >>? λ key.
      v.aes_encrypt key iv (write (identity_plain public_key secret_key now)) >>? λ ciphertext.
      some (write (envelope_plain salt iv ciphertext))

  abbrev pub text_member : Json → Text → Option Text
  text_member x k = elim (get x k) [ some (str s) ↦ some s | _ ↦ none ]

  abbrev pub number_member : Json → Text → Option Number
  number_member x k = elim (get x k) [ some (num n) ↦ some n | _ ↦ none ]

  abbrev pub read_identity : Json → Option (Text × Text)
  read_identity payload = text_member payload (codes "publicKey") >>? λ public_key.
      text_member payload (codes "secretKey") >>? λ secret_key. some (public_key, secret_key)

  abbrev pub open_envelope : Text → Json → Option (Text × Text)
  open_envelope pin envelope = text_member envelope (codes "version") >>? λ version.
      number_member envelope (codes "iterations") >>? λ iterations.
      text_member envelope (codes "salt") >>? λ salt_text.
      text_member envelope (codes "iv") >>? λ iv_text.
      text_member envelope (codes "ciphertext") >>? λ ciphertext_text.
      if not (same version remembered_identity_prefix)
      then none
      else (v.atob salt_text >>? λ salt. v.atob iv_text >>? λ iv.
          v.atob ciphertext_text >>? λ ciphertext. v.derive_key pin salt iterations >>? λ key.
          v.aes_decrypt key iv ciphertext >>? λ plaintext.
          parse_json plaintext >>? λ payload. read_identity payload)

  -- `raw` is the stored text; every exception and every refusal gives null, `none`.
  unfoldable pub restore_remembered_identity_with_pin : Option Text → Text → Option (Text × Text)
  restore_remembered_identity_with_pin none pin = none
  restore_remembered_identity_with_pin (some raw) pin =
      if not (nonempty raw) then none else parse_json raw >>? λ envelope. open_envelope pin envelope
