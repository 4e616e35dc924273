-- ===== src/Mesh/Segment.antt =====
-- Normalised topic segments and message ids: what they hold, and that normalising again changes
-- nothing.
use messk.Prelude.{
  ℕ, suc, ◌∙◌, ◌≤◌, Bool, true, false, ◌≡◌, refl, ap, some, [], ◌∷◌, map, Text, nonempty, trim,
  trim_start, trim_end, is_space, length, all, ◌≢◌, arith,
}
use messk.Mesh.{
  is_segment_char, is_message_id_char, to_lower, normalize_mesh_topic_segment,
  normalize_mesh_message_id,
}

segment_char-not-space : (c : ℕ) → is_segment_char c ≡ true → is_space c ≡ false
unfolding is_segment_char is_space
segment_char-not-space c h = ground arith

message_id_char-not-space : (c : ℕ) → is_message_id_char c ≡ true → is_space c ≡ false
unfolding is_message_id_char is_space
message_id_char-not-space c h = ground arith

pub segment_char-ne-slash : (c : ℕ) → is_segment_char c ≡ true → c ≢ b'/'
unfolding is_segment_char
segment_char-ne-slash c h = ground arith

segment_char-lower : (c : ℕ) → is_segment_char c ≡ true → is_segment_char (to_lower c) ≡ true
unfolding is_segment_char to_lower
segment_char-lower c h = ground arith

pub lower_idem : (c : ℕ) → to_lower (to_lower c) ≡ to_lower c
unfolding to_lower
lower_idem c = ground arith

module _ (p : ℕ → Bool) (clear : (c : ℕ) → p c ≡ true → is_space c ≡ false) where
  trim_start-clear : (s : Text) → all p s ≡ true → trim_start s ≡ s
  unfolding trim_start
  trim_start-clear [] h = refl
  trim_start-clear (c ∷ s) h = ground (arith, clear c)

  trim_end-clear : (s : Text) → all p s ≡ true → trim_end s ≡ s
  unfolding trim_end
  trim_end-clear [] h = refl
  trim_end-clear (c ∷ s) h = ground (arith, clear c, trim_end-clear s)

  trim-clear : (s : Text) → all p s ≡ true → trim s ≡ s
  unfolding trim
  trim-clear s h = rw (trim_start-clear s h) (trim_end-clear s h)

-- What a normalised segment is.
pub record IsSegment (s : Text) : Type 0 where
  pub chars : all is_segment_char s ≡ true
  pub some_char : nonempty s ≡ true
  pub short : length s ≤ 160
  pub lower : map to_lower s ≡ s

all-lower : (s : Text) → all is_segment_char s ≡ true → all is_segment_char (map to_lower s) ≡ true
all-lower [] h = refl
all-lower (c ∷ s) h = ground (arith, segment_char-lower c, all-lower s)

map-lower_idem : (s : Text) → map to_lower (map to_lower s) ≡ map to_lower s
map-lower_idem [] = refl
map-lower_idem (c ∷ s) = cc (lower_idem c, map-lower_idem s)

length-lower : (s : Text) → length (map to_lower s) ≡ length s
length-lower [] = refl
length-lower (c ∷ s) = ap suc (length-lower s)

nonempty-lower : (s : Text) → nonempty (map to_lower s) ≡ nonempty s
nonempty-lower [] = refl
nonempty-lower (c ∷ s) = refl

pub normalize_topic-IsSegment :
    (value s : Text) → normalize_mesh_topic_segment value ≡ some s → IsSegment s
unfolding normalize_mesh_topic_segment
normalize_topic-IsSegment value s h =
    let t = trim value in
    let e : map to_lower t ≡ s = ground arith in
    rw (← e) (record {
      chars = all-lower t (ground arith);
      some_char = nonempty-lower t ∙ ground arith;
      short = rw length-lower (ground arith);
      lower = map-lower_idem t;
    })

pub normalize_segment-of_IsSegment :
    (s : Text) → IsSegment s → normalize_mesh_topic_segment s ≡ some s
unfolding normalize_mesh_topic_segment
normalize_segment-of_IsSegment s h =
    rw (trim-clear is_segment_char segment_char-not-space s h.chars) (ground arith)

-- What a normalised message id is.
pub record IsMessageId (s : Text) : Type 0 where
  pub chars : all is_message_id_char s ≡ true
  pub some_char : nonempty s ≡ true
  pub short : length s ≤ 128

pub normalize_id-IsMessageId :
    (value s : Text) → normalize_mesh_message_id value ≡ some s → IsMessageId s
unfolding normalize_mesh_message_id
normalize_id-IsMessageId value s h =
    let t = trim value in
    let e : t ≡ s = ground arith in
    rw (← e) (record { chars = ground arith; some_char = ground arith; short = ground arith })

pub normalize_message_id-of_IsMessageId :
    (s : Text) → IsMessageId s → normalize_mesh_message_id s ≡ some s
unfolding normalize_mesh_message_id
normalize_message_id-of_IsMessageId s h =
    rw (trim-clear is_message_id_char message_id_char-not-space s h.chars) (ground arith)
