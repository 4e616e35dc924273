-- ===== src/Payloads/Written.antt =====
-- Self-sync payloads as the client writes them (`sendSelfSyncDirectMessage` in
-- messk/src/lib/socket.ts, with the objects of its callers), against the parser.
use messk.Prelude.{
  ℕ, ◌≡◌, ◌≢◌, refl, ap, ◌∙◌, true, Option, none, some, List, [], ◌∷◌, Text, codes, same, nonempty,
  trim,
}
use messk.Prelude.Int.{pos, negsuc}
use messk.Prelude.Number.{Number}
use messk.Json.{Json, str, get, field_of}
use messk.Json.Parse.{◌>>=◌}
use messk.Json.Plain.{Plain, text, count, nothing, object, members, write, json_of, HasKeys}
use messk.Json.Plain.Parsed.{parse-write}
use messk.Store.{Status, pending, sent, delivered, read, failed}
use messk.Payloads.{
  SelfSyncPayload, direct_message, direct_edit, direct_delete, direct_reaction,
  parse_self_sync_payload, read_self_sync, non_empty_string, as_status,
}

abbrev pub status_text : Status → Text
status_text pending = codes "pending"
status_text sent = codes "sent"
status_text delivered = codes "delivered"
status_text read = codes "read"
status_text failed = codes "failed"

-- A time in milliseconds; `null` is what JSON.stringify writes for a number that is not finite.
abbrev pub plain_time : Number → Plain
plain_time (Number.int (pos n)) = count n
plain_time _ = nothing

abbrev pub plain_reaction : Option Text → Plain
plain_reaction none = nothing
plain_reaction (some r) = text r

abbrev pub self_sync_members : SelfSyncPayload → List (Text × Plain)
self_sync_members (direct_message msg_id peer sender t timestamp status) =
    (codes "msgId", text msg_id)
    ∷ ((codes "peerPubKey", text peer)
        ∷ ((codes "senderPubKey", text sender)
            ∷ ((codes "text", text t)
                ∷ ((codes "timestamp", plain_time timestamp)
                    ∷ ((codes "status", text (status_text status)) ∷ [])))))
self_sync_members (direct_edit msg_id peer t edited_at) =
    (codes "msgId", text msg_id)
    ∷ ((codes "peerPubKey", text peer)
        ∷ ((codes "text", text t) ∷ ((codes "editedAt", plain_time edited_at) ∷ [])))
self_sync_members (direct_delete msg_id peer deleted_at) =
    (codes "msgId", text msg_id)
    ∷ ((codes "peerPubKey", text peer) ∷ ((codes "deletedAt", plain_time deleted_at) ∷ []))
self_sync_members (direct_reaction msg_id peer actor reaction) =
    (codes "msgId", text msg_id)
    ∷ ((codes "peerPubKey", text peer)
        ∷ ((codes "actorPubKey", text actor) ∷ ((codes "reaction", plain_reaction reaction) ∷ [])))

abbrev pub kind_text : SelfSyncPayload → Text
kind_text (direct_message _ _ _ _ _ _) = codes "direct_message"
kind_text (direct_edit _ _ _ _) = codes "direct_edit"
kind_text (direct_delete _ _ _) = codes "direct_delete"
kind_text (direct_reaction _ _ _ _) = codes "direct_reaction"

abbrev pub plain_payload : SelfSyncPayload → Plain
plain_payload payload =
    object (members ((codes "kind", text (kind_text payload)) ∷ self_sync_members payload))

unfoldable pub stringify_self_sync : SelfSyncPayload → Text
unfolding write
stringify_self_sync payload = write (plain_payload payload)

abbrev pub IsTime : Number → Type 0
IsTime x = (n : ℕ) × (x ≡ Number.int (pos n))

abbrev pub IsNotBlank : Text → Type 0
IsNotBlank t = nonempty (trim t) ≡ true

-- A payload with ids that are not blank, a natural number for a time, and a status other than failed.
abbrev pub IsSendable : SelfSyncPayload → Type 0
IsSendable (direct_message msg_id peer sender t timestamp status) =
    IsNotBlank msg_id × IsNotBlank peer × IsNotBlank sender × IsTime timestamp × (status ≢ failed)
IsSendable (direct_edit msg_id peer t edited_at) =
    IsNotBlank msg_id × IsNotBlank peer × IsTime edited_at
IsSendable (direct_delete msg_id peer deleted_at) =
    IsNotBlank msg_id × IsNotBlank peer × IsTime deleted_at
IsSendable (direct_reaction msg_id peer actor reaction) =
    IsNotBlank msg_id × IsNotBlank peer × IsNotBlank actor

plain_time-HasKeys : (x : Number) → HasKeys (plain_time x)
plain_time-HasKeys (Number.int (pos n)) = tt
plain_time-HasKeys (Number.int (negsuc n)) = tt
plain_time-HasKeys (Number.between z) = tt
plain_time-HasKeys Number.nan = tt
plain_time-HasKeys Number.infinity = tt
plain_time-HasKeys Number.minus_infinity = tt

plain_reaction-HasKeys : (r : Option Text) → HasKeys (plain_reaction r)
plain_reaction-HasKeys none = tt
plain_reaction-HasKeys (some r) = tt

distinct_keys : (payload : SelfSyncPayload) → HasKeys (plain_payload payload)
unfolding json_of field_of same
distinct_keys (direct_message m p s t x st) = (
  refl,
  tt,
  (refl, tt, (refl, tt, (refl, tt, (refl, tt, (refl, plain_time-HasKeys x, (refl, tt, tt)))))),
)
distinct_keys (direct_edit m p t x) =
    (refl, tt, (refl, tt, (refl, tt, (refl, tt, (refl, plain_time-HasKeys x, tt)))))
distinct_keys (direct_delete m p x) =
    (refl, tt, (refl, tt, (refl, tt, (refl, plain_time-HasKeys x, tt))))
distinct_keys (direct_reaction m p a r) =
    (refl, tt, (refl, tt, (refl, tt, (refl, tt, (refl, plain_reaction-HasKeys r, tt)))))

as_status-text :
    (status : Status) → status ≢ failed → as_status (some (str (status_text status))) ≡ some status
unfolding as_status same
as_status-text pending h = refl
as_status-text sent h = refl
as_status-text delivered h = refl
as_status-text read h = refl
as_status-text failed h = absurd (h refl)

read_self_sync-json_of :
    (payload : SelfSyncPayload)
    → IsSendable payload
    → read_self_sync (json_of (plain_payload payload)) ≡ some payload
unfolding read_self_sync json_of non_empty_string get field_of same trim
read_self_sync-json_of (direct_message m p s t x st) (hm, hp, hs, (n, e), ok) =
    rw (e, hm, hp, hs, as_status-text st ok) refl
read_self_sync-json_of (direct_edit m p t x) (hm, hp, (n, e)) = rw (e, hm, hp) refl
read_self_sync-json_of (direct_delete m p x) (hm, hp, (n, e)) = rw (e, hm, hp) refl
read_self_sync-json_of (direct_reaction m p a none) (hm, hp, ha) = rw (hm, hp, ha) refl
read_self_sync-json_of (direct_reaction m p a (some r)) (hm, hp, ha) = rw (hm, hp, ha) refl

-- A self-sync payload that one device writes is the payload that another one reads, provided that its
-- ids and keys are not blank, its time is a natural number, and a message's status is not failed.
pub parse-stringify_self_sync :
    (payload : SelfSyncPayload)
    → IsSendable payload
    → parse_self_sync_payload (stringify_self_sync payload) ≡ some payload
unfolding parse_self_sync_payload stringify_self_sync
parse-stringify_self_sync payload h =
    ap (λ (o : Option Json). o >>= λ parsed. read_self_sync parsed)
      (parse-write (plain_payload payload) (distinct_keys payload) tt)
    ∙ read_self_sync-json_of payload h
