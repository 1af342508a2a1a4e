-- ===== src/Rules/Globs.antt =====
-- internal/gateway/rules.go: the grammar of a path glob that validPathGlob accepts.
use Prim.Native.String.{[], ◌∷◌}
use pangolin_gateway.Prelude.{
  both, negated_false, ==_false, ==_sound, Bool-cases, Char, List, String, [], code, inl, inr, not,
  true, ◌&&◌, ◌==◌, ◌∷◌, ◌≡◌, ◌≢◌, string_eq, nat_eq, arith, nat_beq,
}
use pangolin_gateway.Network.{is_hex}
use pangolin_gateway.Rules.{is_path_char, segment_valid, segments_valid, valid_path_glob}
use pangolin_gateway.Text.{split, trim_prefix_char}

-- A segment: characters of a path, and escapes of two hexadecimal digits behind a percent sign.
pub data IsSegment : String → Type 0 where
  end : IsSegment []
  char : {c : Char} {s : String} → is_path_char c ≡ true → IsSegment s → IsSegment (c ∷ s)
  escape :
      {p a b : Char} {s : String}
      → code p ≡ b'%'
      → is_hex a ≡ true
      → is_hex b ≡ true
      → IsSegment s
      → IsSegment (p ∷ a ∷ b ∷ s)

-- Only the last segment may be empty.
abbrev pub IsSegments : List String → Type 0
IsSegments List.[] = Unit
IsSegments (List.◌∷◌ s List.[]) = IsSegment s
IsSegments (List.◌∷◌ s (List.◌∷◌ t ts)) = (s ≢ "") × IsSegment s × IsSegments (List.◌∷◌ t ts)

pub data IsGlob (pattern : String) : Type 0 where
  root : pattern ≡ "/" → IsGlob pattern
  path :
      trim_prefix_char pattern b'/' ≢ ""
      → IsSegments (split (trim_prefix_char pattern b'/') b'/')
      → IsGlob pattern

segment_valid-IsSegment : (s : String) → segment_valid s ≡ true → IsSegment s
unfolding segment_valid
segment_valid-IsSegment [] h = IsSegment.end
segment_valid-IsSegment (c ∷ []) h = IsSegment.char h IsSegment.end
segment_valid-IsSegment (c ∷ a ∷ []) h =
    let (first, second) = both _ _ h in IsSegment.char first (IsSegment.char second IsSegment.end)
segment_valid-IsSegment (c ∷ a ∷ b ∷ s) h = elim (Bool-cases (nat_beq (code c) b'%')) [
  | inl percent ↦
      let escaped = rw percent at h in
      let (digits, rest) = both (is_hex a && is_hex b) _ escaped in
      let (first, second) = both (is_hex a) _ digits in
      IsSegment.escape (ground arith) first second (segment_valid-IsSegment s rest)
  | inr other ↦
      let plain = rw other at h in
      let (first, rest) = both (is_path_char c) _ plain in
      IsSegment.char first (segment_valid-IsSegment (a ∷ b ∷ s) rest)
]

segments_valid-IsSegments : (ss : List String) → segments_valid ss ≡ true → IsSegments ss
unfolding segments_valid
segments_valid-IsSegments List.[] h = tt
segments_valid-IsSegments (List.◌∷◌ s List.[]) h = segment_valid-IsSegment s h
segments_valid-IsSegments (List.◌∷◌ s (List.◌∷◌ t ts)) h =
    let (front, later) = both (not (s == "") && segment_valid s) _ h in
    let (named, valid) = both (not (s == "")) _ front in
    (
      ==_false s "" (negated_false _ named),
      segment_valid-IsSegment s valid,
      segments_valid-IsSegments (List.◌∷◌ t ts) later,
    )

pub valid_path_glob-IsGlob : (pattern : String) → valid_path_glob pattern ≡ true → IsGlob pattern
unfolding valid_path_glob
valid_path_glob-IsGlob pattern h = elim (Bool-cases (pattern == "/")) [
  | inl slash ↦ IsGlob.root (==_sound pattern "/" slash)
  | inr other ↦ elim (Bool-cases (trim_prefix_char pattern b'/' == "")) [
    | inl blank ↦ absurd (let q = rw (other, blank) at h in cc)
    | inr filled ↦
        IsGlob.path (==_false (trim_prefix_char pattern b'/') "" filled)
          (segments_valid-IsSegments _ (rw (other, filled) at h))
  ]
]
