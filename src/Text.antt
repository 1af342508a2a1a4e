-- ===== src/Text.antt =====
-- Go's strings, with the functions of the packages `strings` and `strconv` that the source calls.
-- A string is a native text: its characters stand for the runes of valid UTF-8. Case mapping is
-- that of ASCII, which the names of Kubernetes and DNS stay within.
mod Quote
mod Atoi
mod Escape
pub mod Digits
pub mod Laws
unfoldable pub use Quote.{quote}
unfoldable pub use Escape.{path_escape}
unfoldable pub use Atoi.{atoi, itoa, itoa_ℤ, is_digit, digits_value}
use Prim.Native.String
use Prim.Native.String.{[], ◌∷◌, compare, char_at}
use Prim.Native.Nat.{Ordering}
use pangolin_gateway.Prelude.{
  ℕ, zero, suc, ◌+◌, ◌-◌, Bool, true, false, ◌&&◌, ◌||◌, List, [], ◌∷◌, String, Char, code, leb,
  nat_beq, if◌then◌else◌, ◌==◌, string_eq,
}

-- s < t: by bytes, which is the order by characters.
abbrev pub str_lt : String → String → Bool
str_lt s t = elim (compare s t) [ Ordering.lt ↦ true | _ ↦ false ]

-- strings.HasPrefix
unfoldable pub has_prefix : String → String → Bool
has_prefix s [] = true
has_prefix [] (p ∷ ps) = false
has_prefix (c ∷ s) (p ∷ ps) = nat_beq (code c) (code p) && has_prefix s ps

-- strings.Contains
unfoldable pub contains_str : String → String → Bool
unfolding has_prefix
contains_str [] t = t == ""
contains_str (c ∷ s) t = has_prefix (c ∷ s) t || contains_str s t

-- strings.ContainsRune
unfoldable pub contains_char : String → Char → Bool
contains_char [] c = false
contains_char (d ∷ s) c = nat_beq (code d) (code c) || contains_char s c

-- strings.TrimPrefix for a text of one character.
unfoldable pub trim_prefix_char : String → ℕ → String
trim_prefix_char [] c = []
trim_prefix_char (d ∷ s) c = if nat_beq (code d) c then s else d ∷ s

-- strings.TrimSuffix for a text of one character.
unfoldable pub trim_suffix_char : String → ℕ → String
trim_suffix_char [] c = []
trim_suffix_char (d ∷ []) c = if nat_beq (code d) c then [] else d ∷ []
trim_suffix_char (d ∷ e ∷ s) c = d ∷ trim_suffix_char (e ∷ s) c

-- unicode.IsSpace
unfoldable pub is_space : Char → Bool
is_space c =
    let n = code c in
    (leb 9 n && leb n 13)
    || nat_beq n 32
    || nat_beq n 0x85
    || nat_beq n 0xa0
    || nat_beq n 0x1680
    || (leb 0x2000 n && leb n 0x200a)
    || nat_beq n 0x2028
    || nat_beq n 0x2029
    || nat_beq n 0x202f
    || nat_beq n 0x205f
    || nat_beq n 0x3000

unfoldable pub trim_left : String → String
unfolding is_space
trim_left [] = []
trim_left (c ∷ s) = if is_space c then trim_left s else c ∷ s

-- A space is dropped where only spaces follow.
abbrev trim_cons : Char → String → String
unfolding is_space
trim_cons c [] = if is_space c then [] else c ∷ []
trim_cons c (d ∷ s) = c ∷ d ∷ s

unfoldable pub trim_right : String → String
unfolding is_space
trim_right [] = []
trim_right (c ∷ s) = trim_cons c (trim_right s)

-- strings.TrimSpace
unfoldable pub trim_space : String → String
unfolding trim_left trim_right
trim_space s = trim_right (trim_left s)

abbrev lower_letters : String
lower_letters = "abcdefghijklmnopqrstuvwxyz"

abbrev upper_letters : String
upper_letters = "ABCDEFGHIJKLMNOPQRSTUVWXYZ"

unfoldable pub lower : Char → Char
lower c =
    if leb b'A' (code c) && leb (code c) b'Z' then char_at lower_letters (code c - b'A') else c

unfoldable pub upper : Char → Char
upper c =
    if leb b'a' (code c) && leb (code c) b'z' then char_at upper_letters (code c - b'a') else c

-- strings.ToLower
unfoldable pub to_lower : String → String
unfolding lower
to_lower [] = []
to_lower (c ∷ s) = lower c ∷ to_lower s

-- strings.ToUpper
unfoldable pub to_upper : String → String
unfolding upper
to_upper [] = []
to_upper (c ∷ s) = upper c ∷ to_upper s

abbrev push_first : Char → List String → List String
push_first c [] = (c ∷ []) ∷ []
push_first c (part ∷ parts) = (c ∷ part) ∷ parts

-- strings.Split with a separator of one character.
unfoldable pub split : String → ℕ → List String
split [] sep = "" ∷ []
split (c ∷ s) sep =
    let rest = split s sep in if nat_beq (code c) sep then "" ∷ rest else push_first c rest

-- strings.Cut with a separator of one character: the text before it, the text behind it, and
-- whether it was found.
unfoldable pub cut : String → ℕ → String × String × Bool
cut [] sep = ("", "", false)
cut (c ∷ s) sep =
    let (before, after, found) = cut s sep in
    if nat_beq (code c) sep then ("", s, true) else (c ∷ before, after, found)

-- strings.Join
unfoldable pub join : List String → String → String
join [] sep = ""
join (s ∷ []) sep = s
join (s ∷ t ∷ ts) sep = String.◌++◌ s (String.◌++◌ sep (join (t ∷ ts) sep))

-- The parts of a message that fmt.Sprintf puts together.
unfoldable pub concat : List String → String
concat [] = ""
concat (s ∷ ss) = String.◌++◌ s (concat ss)
