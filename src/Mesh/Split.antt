-- ===== src/Mesh/Split.antt =====
-- `split('/')` on texts joined by slashes.
use messk.Prelude.{
  true, ◌≡◌, refl, [], ◌∷◌, ◌++◌, Text, all, Lacks, split-last, split-append, arith,
}
use messk.Mesh.{split_slash, is_segment_char, kind_text, MeshThreadKind, direct, group, channel}
use messk.Mesh.Segment.{segment_char-ne-slash}

abbrev pub NoSlash : Text → Type 0
NoSlash s = Lacks b'/' s

pub segment_chars-NoSlash : (s : Text) → all is_segment_char s ≡ true → NoSlash s
segment_chars-NoSlash [] h = refl
segment_chars-NoSlash (c ∷ s) h = ground (arith, segment_char-ne-slash c, segment_chars-NoSlash s)

pub kind_text-NoSlash : (k : MeshThreadKind) → NoSlash (kind_text k)
unfolding kind_text
kind_text-NoSlash direct = refl
kind_text-NoSlash group = refl
kind_text-NoSlash channel = refl

pub split_slash-last : (s : Text) → NoSlash s → split_slash s ≡ s ∷ []
unfolding split_slash
split_slash-last s h = split-last b'/' s h

-- A part that ends at a slash is cut off whole.
pub split_slash-append : (s t : Text) → NoSlash s → split_slash (s ++ b'/' ∷ t) ≡ s ∷ split_slash t
unfolding split_slash
split_slash-append s t h = split-append b'/' s t h
