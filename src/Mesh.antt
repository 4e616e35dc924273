-- ===== src/Mesh.antt =====
-- The mesh half of messk/src/lib/protocolContract.ts: topics, blind envelopes and their hops.
mod Segment
mod Split
pub mod Topic
pub mod Envelope
pub mod Loose
mod Tests
use messk.Prelude.{
  ℕ, zero, suc, ◌+◌, Bool, true, false, ◌&&◌, ◌||◌, not, Option, none, some, List, [], ◌∷◌, ◌++◌,
  map, Text, codes, same, nonempty, truthy, trim, length, all, ltb, leb, ◌==◌, is_some,
  if◌then◌else◌, split, starts_with,
}
use messk.Prelude.Int.{ℤ, pos, negsuc}
use messk.Prelude.Number.{Number, is_integer, is_finite, at_most, at_least, above}
use mathlib.Core.Option

abbrev pub mesh_protocol_version : ℤ
mesh_protocol_version = pos 1

abbrev pub mesh_topic_prefix : Text
mesh_topic_prefix = codes "messk/v1"

abbrev pub mesh_default_hop_limit : ℕ
mesh_default_hop_limit = 3

abbrev pub mesh_max_hop_limit : ℕ
mesh_max_hop_limit = 8

abbrev pub mesh_max_ciphertext_len : ℕ
mesh_max_ciphertext_len = 1048576

pub data MeshThreadKind : Type 0 where
  direct group channel : MeshThreadKind

unfoldable pub kind_text : MeshThreadKind → Text
kind_text direct = codes "direct"
kind_text group = codes "group"
kind_text channel = codes "channel"

unfoldable pub is_mesh_thread_kind : Text → Bool
is_mesh_thread_kind value =
    same value (codes "direct") || same value (codes "group") || same value (codes "channel")

unfoldable pub is_alphanumeric : ℕ → Bool
is_alphanumeric c = leb b'A' c && leb c b'Z' || leb b'a' c && leb c b'z' || leb b'0' c && leb c b'9'

-- [A-Za-z0-9_.-]
unfoldable pub is_segment_char : ℕ → Bool
unfolding is_alphanumeric
is_segment_char c = is_alphanumeric c || c == b'_' || c == b'.' || c == b'-'

-- [A-Za-z0-9_.:-]
unfoldable pub is_message_id_char : ℕ → Bool
unfolding is_alphanumeric
is_message_id_char c = is_alphanumeric c || c == b'_' || c == b'.' || c == b':' || c == b'-'

-- `toLowerCase` of a text that the pattern has already found to be ASCII.
unfoldable pub to_lower : ℕ → ℕ
to_lower c = if leb b'A' c && leb c b'Z' then c + 32 else c

unfoldable pub normalize_mesh_topic_segment : Text → Option Text
normalize_mesh_topic_segment value =
    let trimmed = trim value in
    if not (nonempty trimmed) || ltb 160 (length trimmed)
    then none
    else if all is_segment_char trimmed
    then some (map to_lower trimmed)
    else none

unfoldable pub normalize_mesh_message_id : Text → Option Text
normalize_mesh_message_id value =
    let trimmed = trim value in
    if not (nonempty trimmed) || ltb 128 (length trimmed)
    then none
    else if all is_message_id_char trimmed
    then some trimmed
    else none

-- `${MESH_TOPIC_PREFIX}/${kind}/${normalizedThreadId}`
unfoldable pub topic_text : MeshThreadKind → Text → Text
topic_text kind segment = mesh_topic_prefix ++ b'/' ∷ (kind_text kind ++ b'/' ∷ segment)

unfoldable pub mesh_topic : MeshThreadKind → Text → Option Text
mesh_topic kind thread_id = Option.map (topic_text kind) (normalize_mesh_topic_segment thread_id)

-- value.split('/')
unfoldable pub split_slash : Text → List Text
unfolding split
split_slash s = split b'/' s

-- parts[i]
unfoldable pub part_at : List Text → ℕ → Option Text
part_at [] i = none
part_at (p ∷ ps) zero = some p
part_at (p ∷ ps) (suc i) = part_at ps i

unfoldable pub is_valid_route : Option Text → Option Text → Option Text → Bool
is_valid_route (some kind) (some thread_id) extra =
    nonempty kind
    && nonempty thread_id
    && not (truthy extra)
    && is_mesh_thread_kind kind
    && is_some (normalize_mesh_topic_segment thread_id)
is_valid_route _ _ extra = false

-- `const [, , kind, threadId, extra] = topic.split('/')` behind the test of the prefix.
unfoldable pub is_valid_mesh_topic : Text → Bool
unfolding is_valid_route
is_valid_mesh_topic topic =
    if not (starts_with topic (mesh_topic_prefix ++ b'/' ∷ []))
    then false
    else let parts = split_slash topic in
      is_valid_route (part_at parts 2) (part_at parts 3) (part_at parts 4)

pub record BlindMeshEnvelope : Type 0 where
  pub v : Number
  pub topic : Text
  pub msg_id : Text
  pub ciphertext : Text
  pub hop_limit : Number
  pub expires_at_ms : Number

unfoldable pub create_blind_mesh_envelope :
    MeshThreadKind → Text → Text → Text → Number → Option BlindMeshEnvelope
create_blind_mesh_envelope kind thread_id msg_id ciphertext expires_at_ms =
    elim (mesh_topic kind thread_id) [
      | none ↦ none
      | some topic ↦ elim (normalize_mesh_message_id msg_id) [
        | none ↦ none
        | some normalized_msg_id ↦
            if not (nonempty (trim ciphertext)) || ltb mesh_max_ciphertext_len (length ciphertext)
            then none
            else some (record {
              v = Number.int mesh_protocol_version;
              topic = topic;
              msg_id = normalized_msg_id;
              ciphertext = ciphertext;
              hop_limit = Number.int (pos mesh_default_hop_limit);
              expires_at_ms = expires_at_ms;
            })
      ]
    ]

abbrev same_as : Option Text → Text → Bool
same_as none t = false
same_as (some s) t = same s t

-- `envelope.v === MESH_PROTOCOL_VERSION`
unfoldable pub is_current_version : Number → Bool
is_current_version v = at_most v mesh_protocol_version && at_least v mesh_protocol_version

unfoldable pub validate_blind_mesh_envelope : BlindMeshEnvelope → ℤ → Bool
unfolding is_current_version
validate_blind_mesh_envelope envelope now_ms =
    is_current_version envelope.v
    && is_valid_mesh_topic envelope.topic
    && same_as (normalize_mesh_message_id envelope.msg_id) envelope.msg_id
    && nonempty (trim envelope.ciphertext)
    && leb (length envelope.ciphertext) mesh_max_ciphertext_len
    && is_integer envelope.hop_limit
    && at_least envelope.hop_limit (pos 0)
    && at_most envelope.hop_limit (pos mesh_max_hop_limit)
    && is_finite envelope.expires_at_ms
    && above envelope.expires_at_ms now_ms

abbrev pred_ℤ : ℤ → ℤ
pred_ℤ (pos zero) = negsuc 0
pred_ℤ (pos (suc n)) = pos n
pred_ℤ (negsuc n) = negsuc (suc n)

-- x - 1
unfoldable pub less_one : Number → Number
less_one (Number.int z) = Number.int (pred_ℤ z)
less_one (Number.between z) = Number.between (pred_ℤ z)
less_one x = x

unfoldable pub next_mesh_hop : BlindMeshEnvelope → Option BlindMeshEnvelope
next_mesh_hop envelope =
    if at_most envelope.hop_limit (pos 0)
    then none
    else some (record envelope { hop_limit = less_one envelope.hop_limit })

-- `${topic}:${msgId}`
unfoldable pub mesh_dedupe_key : Text → Text → Text
mesh_dedupe_key topic msg_id = topic ++ b':' ∷ msg_id
