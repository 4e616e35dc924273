-- ===== src/Handshake/Tests.antt =====
-- A handshake and a box on the toy platform.
use messk.Prelude.{ℕ, ◌≡◌, refl, none, some, [], ◌∷◌, codes, length, replicate, Text, ◌++◌, arith}
use messk.Ratchet.Platform.{KeyPair, Bytes}
use messk.Ratchet.Toy.{toy, toy-IsPlatform, ToyPair, toy-IsKeyExchange}
use messk.Handshake.{x3dh_initiate, x3dh_respond, encrypt_message, decrypt_message}
use messk.Handshake.Agreement.{x3dh-agree}
use messk.Handshake.Boxes.{decrypt_message-encrypt_message}

abbrev key : ℕ → KeyPair
key n = record { public_key = n ∷ []; secret_key = n ∷ [] }

x3dh-agree_example :
    (secret : Bytes) × (length secret ≡ 32)
    × (x3dh_initiate toy (key 3) (1 ∷ []) (2 ∷ []) (some (5 ∷ [])) none ≡ some (secret, 3 ∷ []))
    × (x3dh_respond toy (2 ∷ []) (some (5 ∷ [])) none (1 ∷ []) (3 ∷ []) none ≡ some secret)
x3dh-agree_example =
    x3dh-agree toy toy-IsPlatform ToyPair toy-IsKeyExchange (key 1) (key 2) (key 3) (some (key 5))
      (refl, omega arith) (refl, omega arith) (refl, omega arith) (refl, omega arith)

abbrev nonce : Bytes
nonce = replicate 24 9

abbrev sealed : Text
sealed = nonce ++ (codes "hi" ++ replicate 16 64)

is_sealed : encrypt_message toy nonce (codes "hi") (1 ∷ []) (2 ∷ []) ≡ some sealed
unfolding encrypt_message
is_sealed = refl

decrypt_message-encrypt_message_example :
    decrypt_message toy sealed (2 ∷ []) (1 ∷ []) ≡ some (codes "hi")
decrypt_message-encrypt_message_example =
    decrypt_message-encrypt_message toy toy-IsPlatform ToyPair toy-IsKeyExchange (key 1) (key 2)
      nonce (codes "hi") sealed (refl, omega arith) (refl, omega arith) is_sealed
