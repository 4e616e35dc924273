-- ===== src/Security/Pin.antt =====
-- The PIN against its stored hash.
use messk.Prelude.{
  ◌≡◌, refl, sym, ap, ◌∙◌, true, Option, some, [], ◌∷◌, Text, codes, same, decimal, split,
  split-append, split-last, decimal-Lacks_colon, starts_with, trim_start, value_from, ◌or_else◌,
}
use messk.Ratchet.Step.{◌>>?◌}
use messk.Security.{
  Vault, IsVault, Bytes, hash_pin, verify_pin, joined, pin_hash_iterations, parse_int,
  leading_digits,
}
use messk.Security.ConstantTime.{constant_time_equal-same}

iterations-parse : parse_int (decimal 210000) ≡ some 210000
unfolding parse_int leading_digits decimal value_from trim_start
iterations-parse = refl

module _ (v : Vault) (h : IsVault v) (salt : Bytes) (pin pin' : Text) where
  split-joined :
      (hash : Bytes)
      → split b':' (joined v salt hash)
        ≡ codes "pbkdf2"
          ∷ (codes "v1" ∷ (decimal pin_hash_iterations ∷ (v.btoa salt ∷ (v.btoa hash ∷ []))))
  split-joined hash =
      split-append b':' (codes "pbkdf2") _ refl
      ∙ ap (codes "pbkdf2" ∷◌) (
          split-append b':' (codes "v1") _ refl
          ∙ ap (codes "v1" ∷◌) (
              split-append b':' (decimal pin_hash_iterations) _
                (decimal-Lacks_colon pin_hash_iterations)
              ∙ ap (decimal pin_hash_iterations ∷◌) (
                  split-append b':' (v.btoa salt) (v.btoa hash) (h.no_colon salt)
                  ∙ ap (v.btoa salt ∷◌) (split-last b':' (v.btoa hash) (h.no_colon hash)))))

  has_prefix : (hash : Bytes) → starts_with (joined v salt hash) (codes "pbkdf2:v1:") ≡ true
  unfolding starts_with
  has_prefix hash = refl

  -- A PIN is accepted against a stored hash exactly if PBKDF2 gives the same bytes for it, with the
  -- stored salt and iterations, as for the PIN that was stored: that PIN is, and another one is only if
  -- the two collide.
  pub verify_pin-hash_pin :
      (hash hash' : Bytes) (stored : Text)
      → v.pbkdf2 pin salt pin_hash_iterations ≡ some hash
      → v.pbkdf2 pin' salt pin_hash_iterations ≡ some hash'
      → hash_pin v salt pin ≡ some stored
      → verify_pin v pin' stored ≡ same hash' hash
  unfolding hash_pin verify_pin
  verify_pin-hash_pin hash hash' stored derived derived' e =
      let is_joined : stored ≡ joined v salt hash = sym (
        ap (λ (o : Option Text). o or_else [])
          (sym (ap (λ o. o >>? λ b. some (joined v salt b)) derived) ∙ e)) in
      rw
        (
          is_joined,
          has_prefix hash,
          split-joined hash,
          iterations-parse,
          h.base64 salt,
          h.base64 hash,
          derived',
        )
        (constant_time_equal-same hash' hash)
