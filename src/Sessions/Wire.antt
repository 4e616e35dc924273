-- ===== src/Sessions/Wire.antt =====
-- The text of a direct message, read again.
use messk.Prelude.{ℕ, ◌≡◌, refl, true, false, Option, none, some, Text, same, nonempty}
use messk.Json.{get, field_of, is_truthy}
use messk.Json.Parse.{parse_json}
use messk.Json.Plain.{json_of, write, HasKeys}
use messk.Json.Plain.Parsed.{parse-write}
use messk.Ratchet.Platform.{RatchetMessage, sent_header}
use messk.Sessions.{
  X3dhParams, parse_envelope_x3dh, message_of, has_no_header, message_plain, stringify_message,
  x3dh_member,
}

-- What the receiver reads of the parameters of the handshake.
abbrev pub params : Option (Text × Option Text) → Option X3dhParams
params none = none
params (some (ephemeral_pub, pre_key_pub)) = some (record {
  ephemeral_pub = ephemeral_pub;
  pre_key_pub_used = pre_key_pub;
  pqc_ciphertext = none;
})

message_plain-HasKeys :
    (msg : RatchetMessage) (x3dh : Option (Text × Option Text)) → HasKeys (message_plain msg x3dh)
unfolding json_of field_of same
message_plain-HasKeys msg none = (refl, (refl, tt, (refl, tt, (refl, tt, tt))), (refl, tt, tt))
message_plain-HasKeys msg (some (e, none)) = (
  refl,
  (refl, tt, (refl, tt, (refl, tt, tt))),
  (refl, tt, (refl, (refl, tt, (refl, tt, tt)), tt)),
)
message_plain-HasKeys msg (some (e, some k)) = (
  refl,
  (refl, tt, (refl, tt, (refl, tt, tt))),
  (refl, tt, (refl, (refl, tt, (refl, tt, tt)), tt)),
)

pub parse-stringify_message :
    (msg : RatchetMessage) (x3dh : Option (Text × Option Text))
    → parse_json (stringify_message msg x3dh) ≡ some (json_of (message_plain msg x3dh))
unfolding stringify_message
parse-stringify_message msg x3dh =
    parse-write (message_plain msg x3dh) (message_plain-HasKeys msg x3dh) tt

pub message_of-plain :
    (msg : RatchetMessage) (x3dh : Option (Text × Option Text)) (k : Text) (n pn : ℕ)
    → msg.header ≡ sent_header k n pn
    → message_of (json_of (message_plain msg x3dh)) ≡ msg
unfolding message_of json_of get field_of same
message_of-plain msg none k n pn e = rw e refl
message_of-plain msg (some (ep, pk)) k n pn e = rw e refl

pub has_header :
    (msg : RatchetMessage) (x3dh : Option (Text × Option Text))
    → has_no_header (json_of (message_plain msg x3dh)) ≡ false
unfolding json_of get field_of same
has_header msg none = refl
has_header msg (some (ep, pk)) = refl

nonempty-stringify_message :
    (msg : RatchetMessage) (x3dh : Option (Text × Option Text))
    → nonempty (stringify_message msg x3dh) ≡ true
unfolding stringify_message write
nonempty-stringify_message msg x3dh = refl

x3dh_member-plain :
    (msg : RatchetMessage) (x3dh : Option (Text × Option Text))
    → x3dh_member (some (json_of (message_plain msg x3dh))) ≡ params x3dh
unfolding json_of get field_of same is_truthy
x3dh_member-plain msg none = refl
x3dh_member-plain msg (some (ep, none)) = refl
x3dh_member-plain msg (some (ep, some k)) = refl

pub parse-envelope_x3dh :
    (msg : RatchetMessage) (x3dh : Option (Text × Option Text))
    → parse_envelope_x3dh (stringify_message msg x3dh) ≡ params x3dh
unfolding parse_envelope_x3dh
parse-envelope_x3dh msg x3dh =
    simp (nonempty-stringify_message msg x3dh, parse-stringify_message msg x3dh)
      (x3dh_member-plain msg x3dh)
