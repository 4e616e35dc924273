-- ===== src/Contract/Tests.antt =====
-- Runs of the event and transport tables, and instances of their theorems.
use messk.Prelude.{
  ◌≡◌, ◌≤◌, ◌↔◌, refl, true, false, [], ◌∷◌, Text, List, codes, same, includes, some, none, any,
}
use messk.Prelude.Int.{pos}
use messk.Prelude.Number.{Number, is_finite, at_most, above}
use messk.Contract.{
  is_direct_history_event, requires_target_message_id, requires_encrypted_data,
  should_handle_server_ack, normalize_transport_priority, is_supported_transport_kind,
  unseen_supported, clamp_history_limit,
}
use messk.Contract.Limits.{clamp_history_limit_lem}

event_tests :
    (is_direct_history_event (codes "pin") ≡ true)
    × (is_direct_history_event (codes "typing") ≡ false)
    × (requires_target_message_id (codes "reply") ≡ true)
    × (requires_target_message_id (codes "message") ≡ false)
    × (requires_encrypted_data (codes "dummy") ≡ true)
    × (requires_encrypted_data (codes "pin") ≡ false)
    × (should_handle_server_ack none ≡ true)
    × (should_handle_server_ack (some (codes "typing")) ≡ false)
unfolding is_direct_history_event requires_target_message_id requires_encrypted_data
    should_handle_server_ack includes same
event_tests = (refl, refl, refl, refl, refl, refl, refl, refl)

abbrev listed : List Text
listed =
    codes "user_proxy" ∷ (codes "carrier_pigeon" ∷ (codes "user_proxy" ∷ (codes "direct_p2p" ∷ [])))

priority_test : normalize_transport_priority listed ≡ codes "user_proxy" ∷ (codes "direct_p2p" ∷ [])
unfolding normalize_transport_priority is_supported_transport_kind unseen_supported includes same
priority_test = refl

fraction_test : clamp_history_limit (Number.between (pos 0)) ≡ 0
unfolding clamp_history_limit is_finite at_most above
fraction_test = refl

some_supported : any is_supported_transport_kind listed ≡ true
unfolding is_supported_transport_kind includes same
some_supported = refl

clamp_history_limit_lem_example :
    (clamp_history_limit (Number.int (pos 50)) ≤ 500)
    × ((clamp_history_limit (Number.int (pos 50)) ≡ 0)
        ↔ (Number.int (pos 50) ≡ Number.between (pos 0)))
clamp_history_limit_lem_example = clamp_history_limit_lem (Number.int (pos 50))
