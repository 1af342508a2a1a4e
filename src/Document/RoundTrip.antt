-- ===== src/Document/RoundTrip.antt =====
-- internal/pangolin/blueprint.go: no two blueprints share a document.
use pangolin_gateway.Blueprint
use pangolin_gateway.Blueprint.{Blueprint}
use pangolin_gateway.Prelude.{Bool, List, Option, String, ◌≡◌, refl, ℕ}
use pangolin_gateway.Document.Reading.{flag_of, number_of, text_of}
use pangolin_gateway.Json.{Json, by_key, nonempty_arr, pointer}
use pangolin_gateway.Json.Members.{
  first_of-none, member-opt, read_arr, read_arr-nonempty, read_bool, read_num, read_num-nonempty,
  read_pointer, read_pointer-pointer, read_str, read_str-nonempty,
}

-- A text, a number and a flag are read back.
text_back : (s : String) → text_of (Json.str s) ≡ s
unfolding read_str
text_back s = refl

number_back : (n : ℕ) → number_of (Json.num n) ≡ n
unfolding read_num
number_back n = refl

flag_back : (b : Bool) → flag_of (Json.bool b) ≡ b
unfolding read_bool
flag_back b = refl

texts_back : (xs : List String) → read_arr text_of (nonempty_arr Json.str xs) ≡ xs
texts_back = read_arr-nonempty text_of Json.str text_back

numbers_back : (o : Option ℕ) → read_pointer number_of (pointer Json.num o) ≡ o
numbers_back = read_pointer-pointer number_of Json.num number_back

flags_back : (o : Option Bool) → read_pointer flag_of (pointer Json.bool o) ≡ o
flags_back = read_pointer-pointer flag_of Json.bool flag_back

text_pointers_back : (o : Option String) → read_pointer text_of (pointer Json.str o) ≡ o
text_pointers_back = read_pointer-pointer text_of Json.str text_back

ruleset back = (
  member-opt, first_of-none, read_str-nonempty, read_num-nonempty, texts_back, numbers_back,
  flags_back, text_pointers_back,
)

-- What the document says of a blueprint: all of it but the order of its maps.
abbrev pub sorted : Blueprint → Blueprint
sorted bp = record {
  public_resources = by_key bp.public_resources;
  private_resources = by_key bp.private_resources;
  public_policies = by_key bp.public_policies;
}
