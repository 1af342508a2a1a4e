-- ===== src/PrivateGrants.antt =====
-- internal/gateway/privateresource.go: checkPrivateGrants, what Pangolin rejects a whole document
-- for in the grants of a private resource.
use Prim.Native.String
use pangolin_gateway.Prelude.{
  Bool, List, Option, Result, String, [], contains, err, false, if◌then◌else◌, length, nat_eq, none,
  ok, some, true, ◌++◌, ◌==◌, ◌>>=◌, ◌∷◌, string_eq,
}
use pangolin_gateway.Inputs.{Inputs, member}
use pangolin_gateway.Map.{Map}
use pangolin_gateway.Text.{concat, join, quote, trim_space}

pub record GrantError : Type 0 where
  pub reason : String
  pub msg : String

abbrev pub grant_error : {A : Type 0} → String → String → Result GrantError A
grant_error reason msg = err (record { reason = reason; msg = msg })

-- Whether some entry is blank.
unfoldable pub has_blank : List String → Bool
has_blank [] = false
has_blank (e ∷ es) = let later = has_blank es in if trim_space e == "" then true else later

-- The entries that are not known, in their order.
unfoldable pub unknown_names : Map String Bool → List String → List String
unknown_names known [] = []
unknown_names known (e ∷ es) =
    let later = unknown_names known es in if member e known then later else e ∷ later

abbrev pub quoted : List String → List String
quoted [] = []
quoted (e ∷ es) = quote e ∷ quoted es

-- One round of the last loop: the notes that a list adds.
unfoldable pub check_known :
    String → String → List String → Option (Map String Bool) → Result GrantError (List String)
unfolding unknown_names
check_known name reason entries none = ok []
check_known name reason [] (some known) = ok []
check_known name reason (e ∷ es) (some known) =
    let unknown = unknown_names known (e ∷ es) in
    if length unknown == length (e ∷ es)
    then grant_error reason (
        concat (
          "none of the "
          ∷ name
          ∷ " exist in this organisation ("
          ∷ join (quoted unknown) ", "
          ∷ "), which fails Pangolin's whole apply"
          ∷ []))
    else if length unknown == 0
    then ok []
    else ok (
        concat (
          name
          ∷ " "
          ∷ join (quoted unknown) ", "
          ∷ " do not exist and are ignored by Pangolin"
          ∷ [])
        ∷ [])

abbrev pub blank_error : String → Result GrantError (List String)
blank_error name = grant_error "InvalidSpec" (String.◌++◌ name " has an empty entry")

-- checkPrivateGrants
unfoldable pub check_private_grants :
    (roles users machines : List String) → Inputs → Result GrantError (List String)
unfolding has_blank check_known
check_private_grants roles users machines inputs =
    if has_blank roles
    then blank_error "roles"
    else if has_blank users
    then blank_error "users"
    else if has_blank machines
    then blank_error "machines"
    else if contains roles "Admin"
    then grant_error "InvalidSpec"
        "roles must not name Admin; the admin role reaches every private resource anyway"
    else check_known "users" "UnknownUser" users inputs.known_users >>= λ notes.
        check_known "machines" "UnknownMachine" machines inputs.known_machines >>= λ more.
        ok (notes ++ more)
