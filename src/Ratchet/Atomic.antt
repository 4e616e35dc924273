-- ===== src/Ratchet/Atomic.antt =====
-- What `decrypt` as a whole leaves of a session.
use messk.Prelude.{◌≡◌, refl, Text, truthy, not, if-property, inl, inr, ◌⊎◌}
use messk.Prelude.Dict.{lookup}
use messk.Ratchet.Platform.{Platform, KeyPair, Session, RatchetMessage}
use messk.Ratchet.Step.{Outcome, done, null, throws}
use messk.Ratchet.Keys.{validate_message}
use messk.Ratchet.Receive.{
  decrypt, decrypt_skipped, decrypt_draft, spend_skipped, commit, message_key_id,
}

module _ (p : Platform) (msg : RatchetMessage) (session : Session) where
  -- A text that is not empty, or the session as it was.
  abbrev Atomic : Outcome Text × Session → Type 0
  Atomic (outcome, after) = ((t : Text) × (outcome ≡ done t)) ⊎ (after ≡ session)

  commit-Atomic : (r : Outcome Text × Session) → Atomic (commit session r)
  commit-Atomic (done t, draft) = inl (t, refl)
  commit-Atomic (null, draft) = inr refl
  commit-Atomic (throws, draft) = inr refl

  spend-Atomic : (o : Outcome Text) → Atomic (spend_skipped msg o session)
  spend-Atomic (done t) = inl (t, refl)
  spend-Atomic null = inr refl
  spend-Atomic throws = inr refl

  -- `decrypt` gives a text or leaves the session as it was, whether it returns null or throws.
  pub decrypt-atomic :
      (pair : KeyPair)
      → ((t : Text) × ((decrypt p msg pair session).0 ≡ done t))
        ⊎ ((decrypt p msg pair session).1 ≡ session)
  unfolding decrypt decrypt_skipped
  decrypt-atomic pair =
      if-property Atomic (not (validate_message msg)) _ _ (λ _. inr refl)
        (λ _.
          if-property Atomic (truthy (lookup (message_key_id msg) session.skipped_keys)) _ _
            (λ _. spend-Atomic _) (λ _. commit-Atomic (decrypt_draft p msg pair session)))
