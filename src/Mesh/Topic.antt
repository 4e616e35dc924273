-- ===== src/Mesh/Topic.antt =====
-- Topics: what `meshTopic` builds, against `isValidMeshTopic` and the dedupe keys.
use messk.Prelude.{
  starts_with, ℕ, true, false, ◌≡◌, refl, ap, ◌∙◌, Option, some, List, [], ◌∷◌, ◌++◌, Text, codes,
  same, Lacks, Lacks-append, append-inj_of_first, all, ◌≢◌, nonempty, arith, truthy, Option-cases,
  inl, inr,
}
use messk.Mesh.{
  is_segment_char, mesh_dedupe_key, MeshThreadKind, direct, group, channel, kind_text, topic_text,
  mesh_topic, mesh_topic_prefix, split_slash, part_at, is_valid_route, is_valid_mesh_topic,
  is_mesh_thread_kind, normalize_mesh_topic_segment,
}
use messk.Mesh.Segment.{IsSegment, normalize_topic-IsSegment, normalize_segment-of_IsSegment}
use messk.Mesh.Split.{
  segment_chars-NoSlash, kind_text-NoSlash, split_slash-last, split_slash-append,
}

pub kind_text-is_kind : (k : MeshThreadKind) → is_mesh_thread_kind (kind_text k) ≡ true
unfolding is_mesh_thread_kind kind_text same
kind_text-is_kind direct = refl
kind_text-is_kind group = refl
kind_text-is_kind channel = refl

pub kind_text-nonempty : (k : MeshThreadKind) → nonempty (kind_text k) ≡ true
unfolding kind_text
kind_text-nonempty direct = refl
kind_text-nonempty group = refl
kind_text-nonempty channel = refl

starts_with-topic :
    (k : MeshThreadKind) (rest : Text)
    → starts_with (topic_text k rest) (mesh_topic_prefix ++ b'/' ∷ []) ≡ true
unfolding starts_with topic_text
starts_with-topic k rest = refl

-- The parts of a topic, with whatever follows the kind.
pub split_slash-topic :
    (k : MeshThreadKind) (rest : Text)
    → split_slash (topic_text k rest)
      ≡ codes "messk" ∷ (codes "v1" ∷ (kind_text k ∷ split_slash rest))
unfolding topic_text
split_slash-topic k rest =
    split_slash-append (codes "messk") _ refl
    ∙ ap (λ l. codes "messk" ∷ l)
        (split_slash-append (codes "v1") _ refl
          ∙ ap (λ l. codes "v1" ∷ l) (split_slash-append (kind_text k) rest (kind_text-NoSlash k)))

valid_route :
    (k : MeshThreadKind) (s : Text) (extra : Option Text)
    → IsSegment s
    → truthy extra ≡ false
    → is_valid_route (some (kind_text k)) (some s) extra ≡ true
unfolding is_valid_route
valid_route k s extra h e =
    rw (
      kind_text-is_kind k,
      kind_text-nonempty k,
      e,
      normalize_segment-of_IsSegment s h,
      h.some_char,
    )

-- A topic is valid when what follows its kind splits into a segment and an empty part, or nothing.
pub topic_text-valid :
    (k : MeshThreadKind) (rest s : Text) (parts : List Text)
    → split_slash rest ≡ s ∷ parts
    → IsSegment s
    → truthy (part_at parts 0) ≡ false
    → is_valid_mesh_topic (topic_text k rest) ≡ true
unfolding is_valid_mesh_topic part_at
topic_text-valid k rest s parts e h t =
    rw (split_slash-topic k rest, e, starts_with-topic) (valid_route k s (part_at parts 0) h t)

module _ (k : MeshThreadKind) (thread_id : Text) {topic : Text}
    (built : mesh_topic k thread_id ≡ some topic) where
  pub mesh_topic-parts :
      (s : Text) × (topic ≡ topic_text k s)
      × (normalize_mesh_topic_segment thread_id ≡ some s)
      × IsSegment s
  unfolding mesh_topic
  mesh_topic-parts = elim (Option-cases (normalize_mesh_topic_segment thread_id)) [
    | inl missing ↦ absurd (ground arith)
    | inr (s, found) ↦ (s, ground arith, found, normalize_topic-IsSegment thread_id s found)
  ]

  -- A topic that the client builds is a valid topic.
  pub mesh_topic-valid : is_valid_mesh_topic topic ≡ true
  unfolding part_at
  mesh_topic-valid =
      let (s, e, _, seg) = mesh_topic-parts in
      rw e (
        topic_text-valid k s s [] (split_slash-last s (segment_chars-NoSlash s seg.chars)) seg refl)

kind_text-colon : (k : MeshThreadKind) → Lacks b':' (kind_text k)
unfolding kind_text
kind_text-colon direct = refl
kind_text-colon group = refl
kind_text-colon channel = refl

segment_char-ne-colon : (c : ℕ) → is_segment_char c ≡ true → c ≢ b':'
unfolding is_segment_char
segment_char-ne-colon c h = ground arith

segment_chars-colon : (s : Text) → all is_segment_char s ≡ true → Lacks b':' s
segment_chars-colon [] h = refl
segment_chars-colon (c ∷ s) h = ground (arith, segment_char-ne-colon c, segment_chars-colon s)

mesh_topic-colon : (k : MeshThreadKind) (s : Text) → IsSegment s → Lacks b':' (topic_text k s)
unfolding topic_text
mesh_topic-colon k s h =
    Lacks-append b':' (kind_text k) (b'/' ∷ s) (kind_text-colon k) (segment_chars-colon s h.chars)

kind_text-inj : (k k' : MeshThreadKind) → kind_text k ≡ kind_text k' → k ≡ k'
unfolding kind_text
kind_text-inj direct direct e = refl
kind_text-inj group group e = refl
kind_text-inj channel channel e = refl
kind_text-inj _ _ e = cc

module _ (k k' : MeshThreadKind) (thread_id thread_id' : Text) {topic topic' : Text}
    (built : mesh_topic k thread_id ≡ some topic)
    (built' : mesh_topic k' thread_id' ≡ some topic') where
  -- Two threads get one topic only if they have one kind and their ids one normal form.
  pub mesh_topic_inj :
      topic ≡ topic'
      → (k ≡ k')
        × (normalize_mesh_topic_segment thread_id ≡ normalize_mesh_topic_segment thread_id')
  unfolding topic_text
  mesh_topic_inj same_topic =
      let (s, e, n, _) = mesh_topic-parts k thread_id built in
      let (s', e', n', _) = mesh_topic-parts k' thread_id' built' in
      let parts =
        append-inj_of_first b'/' (kind_text k) (kind_text k') s s' (kind_text-NoSlash k)
          (kind_text-NoSlash k') (ground arith) in
      (kind_text-inj k k' parts.0, cc (parts.1, n, n'))

  -- On topics that clients build, the dedupe key tells apart both the topic and the message.
  pub mesh_dedupe_key_inj :
      (msg_id msg_id' : Text)
      → mesh_dedupe_key topic msg_id ≡ mesh_dedupe_key topic' msg_id'
      → (topic ≡ topic') × (msg_id ≡ msg_id')
  unfolding mesh_dedupe_key
  mesh_dedupe_key_inj msg_id msg_id' h =
      let (s, e, _, seg) = mesh_topic-parts k thread_id built in
      let (s', e', _, seg') = mesh_topic-parts k' thread_id' built' in
      append-inj_of_first b':' topic topic' msg_id msg_id' (rw e (mesh_topic-colon k s seg))
        (rw e' (mesh_topic-colon k' s' seg')) h
