-- ===== src/Sessions/Unread.antt =====
-- Messages that cannot be read.
use messk.Prelude.{
  ℕ, ◌≡◌, ◌≢◌, ◌⊎◌, inl, inr, refl, Bool, true, false, not, Option, none, some, Text, nonempty,
  if◌then◌else◌, Bool-cases,
}
use messk.Prelude.Dict.{lookup}
use messk.Json.{Json}
use messk.Json.Parse.{parse_json}
use messk.Ratchet.Platform.{Platform, Bytes, KeyPair, Session}
use messk.Ratchet.Step.{Outcome, done, null, throws}
use messk.Sessions.{
  X3dhParams, SessionStore, PreKey, store_read, delete_session, prekey_id, has_no_header,
  used_prekey,
}
use messk.Sessions.Decrypt.{decrypt_in_session, decrypt_json, decrypt_fresh, answer, or_start_again}

-- Either a text was read, or the store is as it was.
abbrev pub UnreadSame : SessionStore → Outcome Text × SessionStore → Type 0
UnreadSame store (done t, after) = Unit
UnreadSame store (null, after) = after ≡ store
UnreadSame store (throws, after) = after ≡ store

-- Either a text was read, or the store is as it was, or the session has been deleted.
abbrev pub UnreadAtMostDeleted :
    Text → SessionStore → Option X3dhParams → Outcome Text × SessionStore → Type 0
UnreadAtMostDeleted peer store x3dh (done t, after) = Unit
UnreadAtMostDeleted peer store x3dh (null, after) =
    (after ≡ store) ⊎ ((x3dh ≢ none) × (after ≡ delete_session peer store))
UnreadAtMostDeleted peer store x3dh (throws, after) =
    (after ≡ store) ⊎ ((x3dh ≢ none) × (after ≡ delete_session peer store))

if-UnreadSame :
    (store : SessionStore) (b : Bool) (x y : Outcome Text × SessionStore)
    → UnreadSame store x
    → UnreadSame store y
    → UnreadSame store (if b then x else y)
if-UnreadSame store true x y hx hy = hx
if-UnreadSame store false x y hx hy = hy

store_read-UnreadSame :
    (store : SessionStore) (consumed : Option ℕ) (r : Outcome Text × Session)
    → UnreadSame store (store_read store consumed r)
store_read-UnreadSame store consumed (done t, s) =
    if-UnreadSame store (not (nonempty t)) (null, store) _ refl tt
store_read-UnreadSame store consumed (null, s) = refl
store_read-UnreadSame store consumed (throws, s) = refl

module _ (p : Platform) (ratchet pair : KeyPair) (peer my_secret_key : Text) where
  answer-UnreadSame :
      (ratchet_data : Json) (used : Option PreKey) (o : Option Bytes) (store : SessionStore)
      → UnreadSame store (answer p ratchet pair ratchet_data peer used o store)
  answer-UnreadSame ratchet_data used none store = refl
  answer-UnreadSame ratchet_data used (some secret) store =
      if-UnreadSame store (has_no_header ratchet_data) (throws, store) _ refl
        (store_read-UnreadSame store (prekey_id used) _)

  decrypt_fresh-UnreadSame :
      (ratchet_data : Json) (x3dh : Option X3dhParams) (store : SessionStore)
      → UnreadSame store (decrypt_fresh p ratchet pair ratchet_data peer my_secret_key x3dh store)
  decrypt_fresh-UnreadSame ratchet_data none store = refl
  decrypt_fresh-UnreadSame ratchet_data (some x3dh) store =
      if-UnreadSame store (not (nonempty x3dh.ephemeral_pub)) (null, store) _ refl
        (answer-UnreadSame ratchet_data (used_prekey x3dh.pre_key_pub_used store) _ store)

  same_or_deleted :
      (store : SessionStore) (x3dh : Option X3dhParams) (r : Outcome Text × SessionStore)
      → UnreadSame store r
      → UnreadAtMostDeleted peer store x3dh r
  same_or_deleted store x3dh (done t, after) u = tt
  same_or_deleted store x3dh (null, after) u = inl u
  same_or_deleted store x3dh (throws, after) u = inl u

  deleted_first :
      (store : SessionStore) (x : X3dhParams) (r : Outcome Text × SessionStore)
      → UnreadSame (delete_session peer store) r
      → UnreadAtMostDeleted peer store (some x) r
  deleted_first store x (done t, after) u = tt
  deleted_first store x (null, after) u = inr ((λ e. absurd (cc)), u)
  deleted_first store x (throws, after) u = inr ((λ e. absurd (cc)), u)

  or_start_again-Unread :
      (ratchet_data : Json) (store : SessionStore) (x3dh : Option X3dhParams)
      (r : Outcome Text × SessionStore)
      → UnreadSame store r
      → UnreadAtMostDeleted peer store x3dh
          (or_start_again p ratchet pair ratchet_data peer my_secret_key x3dh r)
  or_start_again-Unread ratchet_data store none (o, after) u =
      same_or_deleted store none (o, after) u
  or_start_again-Unread ratchet_data store (some x) (done t, after) u = tt
  or_start_again-Unread ratchet_data store (some x) (throws, after) u = inl u
  or_start_again-Unread ratchet_data store (some x) (null, after) u = rw u (
      deleted_first store x _
        (decrypt_fresh-UnreadSame ratchet_data (some x) (delete_session peer store)))

  decrypt_json-Unread :
      (x3dh : Option X3dhParams) (store : SessionStore) (session : Option Session)
      (ratchet_data : Option Json)
      → UnreadAtMostDeleted peer store x3dh
          (decrypt_json p ratchet pair peer my_secret_key x3dh store session ratchet_data)
  decrypt_json-Unread x3dh store session none = inl refl
  decrypt_json-Unread x3dh store none (some ratchet_data) =
      same_or_deleted store x3dh _ (decrypt_fresh-UnreadSame ratchet_data x3dh store)
  decrypt_json-Unread x3dh store (some session) (some ratchet_data) =
      or_start_again-Unread ratchet_data store x3dh _ (store_read-UnreadSame store none _)

  -- A message that gives no text, whether with null or with an exception, leaves the sessions and the
  -- one-time keys as they were, except that one with a handshake may leave the sender's session deleted.
  pub decrypt_in_session-Unread :
      (envelope_data : Text) (x3dh : Option X3dhParams) (store : SessionStore)
      → UnreadAtMostDeleted peer store x3dh
          (decrypt_in_session p ratchet pair my_secret_key peer envelope_data x3dh store)
  unfolding decrypt_in_session
  decrypt_in_session-Unread envelope_data x3dh store = elim (Bool-cases (nonempty my_secret_key)) [
    | inl there ↦
        simp there
          (decrypt_json-Unread x3dh store (lookup peer store.sessions) (parse_json envelope_data))
    | inr missing ↦ simp missing (inl refl)
  ]
