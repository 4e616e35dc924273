-- ===== src/Mesh/Loose.antt =====
-- What the topic test lets through besides `prefix/kind/thread`: `split` gives an empty fifth part
-- for a doubled slash, and the test only asks that the fifth part be falsy.
use messk.Prelude.{
  ◌≢◌, ◌<◌, sym, length, length-append, arith, ◌≡◌, refl, true, some, [], ◌∷◌, ◌++◌, Text, ◌∙◌, ap,
}
use mathlib.Core.List.{append_assoc}
use messk.Mesh.{
  MeshThreadKind, direct, group, channel, kind_text, topic_text, mesh_topic, is_valid_mesh_topic,
  part_at, split_slash, mesh_dedupe_key,
}
use messk.Mesh.Split.{segment_chars-NoSlash, split_slash-append}
use messk.Mesh.Topic.{mesh_topic-parts, topic_text-valid}

longer_differs : (s t t' : Text) → length t < length t' → ¬ (s ++ t ≡ s ++ t')
longer_differs s t t' more e =
    absurd (omega (arith, length-append s t, length-append s t', ap (λ u. length u) e))

topic_text-append : (k : MeshThreadKind) (s y : Text) → topic_text k s ++ y ≡ topic_text k (s ++ y)
unfolding topic_text kind_text
topic_text-append direct s y = refl
topic_text-append group s y = refl
topic_text-append channel s y = refl

module _ (k : MeshThreadKind) (thread_id : Text) {topic : Text}
    (built : mesh_topic k thread_id ≡ some topic) where
  -- Behind a built topic, a doubled slash and any further text is a valid topic too.
  pub mesh_topic-extra-valid : (x : Text) → is_valid_mesh_topic (topic ++ b'/' ∷ (b'/' ∷ x)) ≡ true
  unfolding part_at
  mesh_topic-extra-valid x =
      let (s, e, _, seg) = mesh_topic-parts k thread_id built in
      let parts : split_slash (s ++ b'/' ∷ (b'/' ∷ x)) ≡ s ∷ ([] ∷ split_slash x) =
        split_slash-append s (b'/' ∷ x) (segment_chars-NoSlash s seg.chars)
        ∙ ap (λ l. s ∷ l) (split_slash-append [] x refl) in
      rw (e, topic_text-append) (topic_text-valid k _ s _ parts seg refl)

  -- The dedupe key does not tell all valid topics apart: behind any built topic there are, for any
  -- texts, two valid topics that differ, with two message ids that differ, and one key.
  pub mesh_dedupe_key-collides :
      (x a b : Text)
      → (topic ++ b'/' ∷ (b'/' ∷ x) ≢ topic ++ b'/' ∷ (b'/' ∷ (x ++ b':' ∷ a)))
        × (a ++ b':' ∷ b ≢ b)
        × (is_valid_mesh_topic (topic ++ b'/' ∷ (b'/' ∷ x)) ≡ true)
        × (is_valid_mesh_topic (topic ++ b'/' ∷ (b'/' ∷ (x ++ b':' ∷ a))) ≡ true)
        × (mesh_dedupe_key (topic ++ b'/' ∷ (b'/' ∷ x)) (a ++ b':' ∷ b)
            ≡ mesh_dedupe_key (topic ++ b'/' ∷ (b'/' ∷ (x ++ b':' ∷ a))) b)
  unfolding mesh_dedupe_key
  mesh_dedupe_key-collides x a b = (
    (λ e.
        longer_differs topic (b'/' ∷ (b'/' ∷ x)) (b'/' ∷ (b'/' ∷ (x ++ b':' ∷ a)))
          (omega (arith, length-append x (b':' ∷ a))) e),
    (λ e. longer_differs [] b (a ++ b':' ∷ b) (omega (arith, length-append a (b':' ∷ b))) (sym e)),
    mesh_topic-extra-valid x,
    mesh_topic-extra-valid (x ++ b':' ∷ a),
    simp append_assoc,
  )
