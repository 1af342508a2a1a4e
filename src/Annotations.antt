-- ===== src/Annotations.antt =====
-- The annotations of a route: their names (internal/gateway/render.go, visibility.go, policy.go,
-- mtls.go, basicauth.go, rules.go, pincode.go, emailwhitelist.go, healthcheck.go), and the readers
-- of visibility.go and render.go. An error is its message.
use pangolin_gateway.Annotation
use pangolin_gateway.Prelude.{
  Bool, List, Result, String, [], err, false, if◌then◌else◌, none, ok, some, true, ℕ, ◌+◌, ◌==◌,
  ◌>>=◌, ◌∷◌, string_eq, nat_eq,
}
use pangolin_gateway.Map.{Map, has_key, lookup}
use pangolin_gateway.Text.{concat, itoa, quote, split, to_lower, trim_space}

abbrev pub mtls_annotations : List String
mtls_annotations =
    Annotation.mtls_ca ∷ Annotation.mtls_ca_secret ∷ Annotation.mtls_ca_config_map ∷ []

abbrev pub Annotations : Type 0
Annotations = Map String String

-- `m[k]` of a map of strings: "" where the key is missing.
unfoldable pub value_of : Annotations → String → String
value_of m k = elim (lookup k m) [ none ↦ "" | some v ↦ v ]

-- boolAnnotation
unfoldable pub bool_annotation : Annotations → String → Bool → Result String Bool
bool_annotation m annotation fallback = elim (lookup annotation m) [
  | none ↦ ok fallback
  | some v ↦
      if v == ""
      then ok fallback
      else if to_lower v == "true"
      then ok true
      else if to_lower v == "false"
      then ok false
      else err (
          concat
            ("annotation " ∷ annotation ∷ " must be \"true\" or \"false\", got " ∷ quote v ∷ []))
]

-- ssoFor
unfoldable pub sso_for : Annotations → Result String Bool
unfolding bool_annotation
sso_for m = bool_annotation m Annotation.sso true

pub data Visibility : Type 0 where
  public_route private_route : Visibility

-- visibilityFor
unfoldable pub visibility_for : Annotations → Result String Visibility
visibility_for m = elim (lookup Annotation.visibility m) [
  | none ↦ ok public_route
  | some v ↦
      if v == ""
      then ok public_route
      else if v == "public"
      then ok public_route
      else if v == "private"
      then ok private_route
      else err (
          concat (
            "annotation "
            ∷ Annotation.visibility
            ∷ " must be \"public\" or \"private\", got "
            ∷ quote v
            ∷ []))
]

-- The loop of grantList over the parts of `raw`, from position `i`.
unfoldable pub grant_entries : String → String → ℕ → List String → Result String (List String)
grant_entries annotation raw i [] = ok []
grant_entries annotation raw i (part ∷ parts) =
    let rest = grant_entries annotation raw (i + 1) parts in
    if trim_space part == ""
    then err (
        concat (
          "annotation "
          ∷ annotation
          ∷ " has an empty entry at position "
          ∷ itoa (i + 1)
          ∷ ": "
          ∷ quote raw
          ∷ []))
    else (rest >>= λ entries. ok (trim_space part ∷ entries))

-- grantList: no list is as good as an empty one to all that read it.
unfoldable pub grant_list : Annotations → String → Result String (List String)
unfolding grant_entries
grant_list m annotation = elim (lookup annotation m) [
  | none ↦ ok []
  | some raw ↦
      if trim_space raw == ""
      then err (
          concat
            ("annotation " ∷ annotation ∷ " is empty; remove it rather than leaving it blank" ∷ []))
      else grant_entries annotation raw 0 (split raw b',')
]

-- refuseAnnotations
unfoldable pub refuse_annotations :
    Annotations → String → String → List String → Result String (Unit {0})
refuse_annotations m subject remedy [] = ok tt
refuse_annotations m subject remedy (a ∷ rest) =
    let later = refuse_annotations m subject remedy rest in
    if has_key a m
    then err (concat ("annotation " ∷ a ∷ " has no meaning on " ∷ subject ∷ "; " ∷ remedy ∷ []))
    else later
