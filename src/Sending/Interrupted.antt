-- ===== src/Sending/Interrupted.antt =====
-- A session reset whose repair cannot be sent (`handlePeerSessionReset`).
use messk.Prelude.{◌≡◌, refl, true, false, none, some, List, [], ◌∷◌, Text, same_iff, truthy, arith}
use messk.Prelude.Dict.{Dict, lookup}
use messk.Ratchet.Platform.{Platform}
use messk.Ratchet.Step.{Outcome, done, null, throws}
use messk.Sessions.{SessionStore, encrypt_in_session, delete_session}
use messk.Outbox.{Channel, OutgoingDirectMessage}
use messk.Outbox.Acknowledge.{retry_direct_message}
use messk.Sending.{Sender, Call, my_key, my_secret}
use messk.Sending.Reset.{
  is_for, delete_for, repair_then_resend, repair_text, cleared, handle_peer_session_reset,
}

-- The table of queued messages has one row for each id.
abbrev pub HasUniqueRows : Dict OutgoingDirectMessage → Type 0
HasUniqueRows [] = Unit
HasUniqueRows ((id, row) ∷ rows) = (lookup id rows ≡ none) × HasUniqueRows rows

module _ (peer my_public_key : Text) where
  lookup-delete_for-none :
      (id : Text) (rows : Dict OutgoingDirectMessage)
      → lookup id rows ≡ none
      → lookup id (delete_for peer my_public_key rows) ≡ none
  unfolding lookup delete_for
  lookup-delete_for-none id [] e = refl
  lookup-delete_for-none id ((j, row) ∷ rows) e = ground (arith, lookup-delete_for-none id rows)

  pub lookup-delete_for :
      (id : Text) (row : OutgoingDirectMessage) (rows : Dict OutgoingDirectMessage)
      → HasUniqueRows rows
      → lookup id rows ≡ some row
      → is_for peer my_public_key row ≡ true
      → lookup id (delete_for peer my_public_key rows) ≡ none
  unfolding lookup delete_for
  lookup-delete_for id row [] u e own = refl
  lookup-delete_for id row ((j, r) ∷ rows) (alone, u) e own =
      ground (arith, same_iff j id, lookup-delete_for-none id rows, lookup-delete_for id row rows u)

module _ (p : Platform) (preview : Text → Text) (channel : Channel) (call : Call) (peer : Text)
    (order : Dict OutgoingDirectMessage → List OutgoingDirectMessage) where
  -- The repair is not sent: only the sessions have changed.
  unsent :
      (r : Outcome Text × SessionStore) (sender : Sender)
      → call.repair_sends ≡ false
      → ((repair_then_resend p preview channel call peer order r sender).0 ≡ false)
        × ((repair_then_resend p preview channel call peer order r sender).1.box ≡ sender.box)
  unsent (done payload, store) sender off = rw off (refl, refl)
  unsent (null, store) sender off = (refl, refl)
  unsent (throws, store) sender off = (refl, refl)

  -- Where the repair cannot be sent after a session reset, the handler throws, and a message that was
  -- queued for the peer is lost: its row, as it was, is still among the messages, but it is no longer
  -- queued, and trying again is refused.
  pub handle_peer_session_reset-interrupted :
      (sender : Sender) (id : Text) (row : OutgoingDirectMessage)
      → truthy channel.my_public_key ≡ true
      → truthy channel.my_secret_key ≡ true
      → call.repair_sends ≡ false
      → HasUniqueRows sender.box.outgoing_direct_messages
      → lookup id sender.box.outgoing_direct_messages ≡ some row
      → is_for peer (my_key channel) row ≡ true
      → ((handle_peer_session_reset p preview channel call peer order sender).0 ≡ false)
        × ((handle_peer_session_reset p preview channel call peer order sender).1.box.db
            ≡ sender.box.db)
        × (retry_direct_message preview order channel id
              (handle_peer_session_reset p preview channel call peer order sender).1.box
            ≡ none)
  unfolding handle_peer_session_reset retry_direct_message
  handle_peer_session_reset-interrupted sender id row mine secret off u queued own =
      let (flag, box) =
        unsent
          (encrypt_in_session p (call.draws 0) peer (repair_text call.now) (my_secret channel)
            (call.pre_keys 0) (delete_session peer sender.store))
          (cleared p preview channel call peer sender) off in
      rw
        (
          mine,
          secret,
          box,
          lookup-delete_for peer (my_key channel) id row sender.box.outgoing_direct_messages u
              queued own,
        )
        (flag, refl, refl)
