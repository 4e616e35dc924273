-- ===== src/Mesh/Tests.antt =====
-- Runs of the mesh functions, and instances of the mesh theorems at concrete inputs.
use messk.Prelude.{
  ◌≢◌, starts_with, ◌≡◌, refl, true, false, some, ◌∷◌, ◌++◌, Text, codes, ◌≤◌, ◌↔◌, trim,
}
use messk.Prelude.Int.{pos}
use messk.Prelude.Number.{Number}
use messk.Mesh.{
  direct, channel, mesh_topic, is_valid_mesh_topic, normalize_mesh_topic_segment,
  normalize_mesh_message_id, is_segment_char, is_message_id_char, to_lower, topic_text, kind_text,
  split_slash, part_at, BlindMeshEnvelope, create_blind_mesh_envelope, mesh_default_hop_limit,
  mesh_dedupe_key,
}
use messk.Mesh.Topic.{mesh_topic_inj}
use messk.Mesh.Envelope.{Hops, create-Hops}
use messk.Mesh.Loose.{mesh_topic-extra-valid, mesh_dedupe_key-collides}

abbrev topic : Text
topic = codes "messk/v1/direct/direct_abcd-1234"

topic_test : mesh_topic direct (codes " Direct_ABCD-1234 ") ≡ some topic
unfolding mesh_topic trim normalize_mesh_topic_segment is_segment_char to_lower topic_text kind_text
topic_test = refl

channel_test : mesh_topic channel (codes "chan_a") ≡ some (codes "messk/v1/channel/chan_a")
unfolding mesh_topic trim normalize_mesh_topic_segment is_segment_char to_lower topic_text kind_text
channel_test = refl

bad_topic_test : is_valid_mesh_topic (codes "messk/v1/channel/bad/thread") ≡ false
unfolding is_valid_mesh_topic starts_with split_slash part_at
bad_topic_test = refl

abbrev envelope : BlindMeshEnvelope
envelope = record {
  v = Number.int (pos 1);
  topic = topic;
  msg_id = codes "msg-1";
  ciphertext = codes "ciphertext";
  hop_limit = Number.int (pos 3);
  expires_at_ms = Number.int (pos 10000);
}

created :
    create_blind_mesh_envelope direct
      (codes " Direct_ABCD-1234 ")
      (codes "msg-1")
      (codes "ciphertext")
      (Number.int (pos 10000))
    ≡ some envelope
unfolding create_blind_mesh_envelope normalize_mesh_message_id is_message_id_char trim mesh_topic
    normalize_mesh_topic_segment is_segment_char to_lower topic_text kind_text
created = refl

mesh_topic_inj_example :
    (direct ≡ direct)
    × (normalize_mesh_topic_segment (codes " Direct_ABCD-1234 ")
        ≡ normalize_mesh_topic_segment (codes " Direct_ABCD-1234 "))
mesh_topic_inj_example = mesh_topic_inj direct direct _ _ topic_test topic_test refl

mesh_topic-extra-valid_example : is_valid_mesh_topic (topic ++ b'/' ∷ (b'/' ∷ codes "x")) ≡ true
mesh_topic-extra-valid_example = mesh_topic-extra-valid direct _ topic_test (codes "x")

create-Hops_example : ((f : BlindMeshEnvelope) × Hops 2 envelope f) ↔ (2 ≤ mesh_default_hop_limit)
create-Hops_example = create-Hops direct _ _ _ _ 2 created

mesh_dedupe_key-collides_example :
    (topic ++ b'/' ∷ (b'/' ∷ codes "x") ≢ topic ++ b'/' ∷ (b'/' ∷ (codes "x" ++ b':' ∷ codes "a")))
    × (codes "a" ++ b':' ∷ codes "b" ≢ codes "b")
    × (is_valid_mesh_topic (topic ++ b'/' ∷ (b'/' ∷ codes "x")) ≡ true)
    × (is_valid_mesh_topic (topic ++ b'/' ∷ (b'/' ∷ (codes "x" ++ b':' ∷ codes "a"))) ≡ true)
    × (mesh_dedupe_key (topic ++ b'/' ∷ (b'/' ∷ codes "x")) (codes "a" ++ b':' ∷ codes "b")
        ≡ mesh_dedupe_key (topic ++ b'/' ∷ (b'/' ∷ (codes "x" ++ b':' ∷ codes "a"))) (codes "b"))
mesh_dedupe_key-collides_example =
    mesh_dedupe_key-collides direct _ topic_test (codes "x") (codes "a") (codes "b")
