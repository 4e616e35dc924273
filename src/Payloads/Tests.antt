-- ===== src/Payloads/Tests.antt =====
-- Payloads read from JSON texts, and an instance of the round trip.
use messk.Prelude.{◌≡◌, refl, none, some, [], codes, same, trim}
use messk.Prelude.Int.{pos}
use messk.Prelude.Number.{Number}
use messk.Json.{get}
use messk.Json.Parse.{parse_json, parse_value}
use messk.Store.{sent}
use messk.Payloads.{
  SelfSyncPayload, direct_message, parse_self_sync_payload, non_empty_string,
  parse_group_cipher_envelope, parse_group_invite_payload, parse_group_reaction_payload,
  parse_group_edit_payload, parse_group_sender_key_payload,
}
use messk.Payloads.Written.{stringify_self_sync, parse-stringify_self_sync, IsSendable}

cipher_test :
    parse_group_cipher_envelope
      (codes "{\"v\":1,\"mode\":\"sender_key_v1\",\"ciphertext\":\"abc\"}")
    ≡ some (record { ciphertext = codes "abc" })
unfolding parse_group_cipher_envelope parse_json parse_value get same
cipher_test = refl

reaction_tests :
    (parse_group_reaction_payload (codes "{\"reaction\":null}") ≡ some none)
    × (parse_group_reaction_payload (codes "null") ≡ none)
    × (parse_group_edit_payload (codes "{\"text\":\" \"}") ≡ none)
    × (parse_group_sender_key_payload (codes "{\"groupId\":\"g\",\"senderKey\":\"k\"}")
        ≡ some (record { group_id = codes "g"; sender_key = codes "k"; member_fingerprint = [] }))
    × (parse_group_invite_payload (codes "{\"groupId\":\"g\",\"title\":\"t\",\"role\":\"r\"}")
        ≡ none)
unfolding parse_group_reaction_payload parse_group_edit_payload parse_group_sender_key_payload
    parse_group_invite_payload non_empty_string parse_json parse_value get same trim
reaction_tests = (refl, refl, refl, refl, refl)

abbrev payload : SelfSyncPayload
payload =
    direct_message (codes "m1") (codes "alice") (codes "me") (codes "a \"quoted\" text")
      (Number.int (pos 1700000000000)) sent

payload-IsSendable : IsSendable payload
unfolding trim
payload-IsSendable = (refl, refl, refl, (1700000000000, refl), λ e. absurd (cc))

parse-stringify_self_sync_example :
    parse_self_sync_payload (stringify_self_sync payload) ≡ some payload
parse-stringify_self_sync_example = parse-stringify_self_sync payload payload-IsSendable
