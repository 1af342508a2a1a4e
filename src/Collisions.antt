-- ===== src/Collisions.antt =====
-- internal/gateway/render.go: resolveCollisions, which awards each key and each hostname to its
-- oldest claimant. The three maps of owners, the two sections of the blueprint and the outcomes are
-- the fields of `Award`; one round of the loop is `award`.
pub mod Reference
pub mod Owners
pub mod Refinement
pub mod Outcomes
pub mod Winners
pub mod Rivals
pub mod Awards
pub mod Permuted
pub mod Backed
use Prim.Native.Nat.{Ordering, compare}
use Prim.Native.String.{compare as compare_str}
use pangolin_gateway.Prelude.{
  ℕ, ◌≡◌, Bool, true, false, ◌&&◌, Option, none, some, List, [], ◌∷◌, map, String, Eq, ◌==◌,
  ==_sound, ==_refl, string_eq, if◌then◌else◌, ◌↔◌,
}
use mathlib.Core.Bool.{and-eq-true_iff}
use pangolin_gateway.Text.{to_lower, quote, concat}
use pangolin_gateway.Map.{Map, lookup, insert}
use pangolin_gateway.Order.{lexicographic, stable_sort}
use pangolin_gateway.Api.{NamespacedName, name_eq}
use pangolin_gateway.Blueprint.{PublicResource, PrivateResource}
use pangolin_gateway.Verdict.{ConditionResult, rejected}

-- An HTTPRoute and a PrivateResource may share a namespace and a name.
pub record Claimant : Type 0 where
  pub kind : String
  pub name : NamespacedName

unfoldable pub same_claimant : Claimant → Claimant → Bool
same_claimant a b = a.kind == b.kind && a.name == b.name

pub same_claimant_iff : (a b : Claimant) → (same_claimant a b ≡ true) ↔ (a ≡ b)
unfolding same_claimant
same_claimant_iff a b = (
  λ h.
      let (p, q) = (and-eq-true_iff _ _).0 h in
      let p' = ==_sound a.kind b.kind p in
      let q' = ==_sound a.name b.name q in λ i. record { kind = p' i; name = q' i },
  λ h. rw h (rw (==_refl b.kind) (==_refl b.name)),
)

instance abbrev pub claimant_eq : Eq Claimant
claimant_eq = record { same = same_claimant; same_iff = same_claimant_iff }

-- One blueprint entry. Exactly one of `public` and `private` is set.
pub record Rendered : Type 0 where
  pub key : String
  pub hostnames : List String
  pub notes : List String
  pub public : Option PublicResource
  pub private : Option PrivateResource

pub record Candidate : Type 0 where
  pub claimant : Claimant
  pub created_at : ℕ
  pub entry : Rendered

pub record Outcome : Type 0 where
  pub key : String
  pub rejected : Option ConditionResult

-- Claimant.String: types.NamespacedName prints as "namespace/name".
unfoldable pub show : Claimant → String
show c = concat (c.kind ∷ " " ∷ c.name.namespace ∷ "/" ∷ c.name.name ∷ [])

-- The order of the sort: creation time, namespace, name, kind.
pub by_name : Candidate → Candidate → Ordering
by_name =
    lexicographic (λ a b. compare_str a.claimant.name.namespace b.claimant.name.namespace)
      (lexicographic (λ a b. compare_str a.claimant.name.name b.claimant.name.name)
        (λ a b. compare_str a.claimant.kind b.claimant.kind))

pub by_age : Candidate → Candidate → Ordering
unfolding by_name
by_age = lexicographic (λ a b. compare a.created_at b.created_at) by_name

pub record Award : Type 0 where
  pub key_owner : Map String Claimant
  pub public_hosts : Map String Claimant
  pub private_hosts : Map String Claimant
  pub public_resources : Map String PublicResource
  pub private_resources : Map String PrivateResource
  pub outcomes : Map Claimant Outcome

abbrev pub nothing_awarded : Award
nothing_awarded = record {
  key_owner = [];
  public_hosts = [];
  private_hosts = [];
  public_resources = [];
  private_resources = [];
  outcomes = [];
}

abbrev pub is_public : Rendered → Bool
is_public e = elim (e.public) [ none ↦ false | some r ↦ true ]

pub first_claimed : List String → Map String Claimant → Option (String × Claimant)
first_claimed [] owners = none
first_claimed (h ∷ hs) owners = elim (lookup (to_lower h) owners) [
  | none ↦ first_claimed hs owners
  | some owner ↦ some (h, owner)
]

-- The host owners of the section that an entry belongs to.
abbrev pub host_owner : Bool → Award → Map String Claimant
host_owner true s = s.public_hosts
host_owner false s = s.private_hosts

pub claim_hosts : Claimant → List String → Map String Claimant → Map String Claimant
claim_hosts c [] owners = owners
claim_hosts c (h ∷ hs) owners = claim_hosts c hs (insert (to_lower h) c owners)

abbrev pub duplicate_key : String → Claimant → Outcome
duplicate_key key owner = record {
  key = "";
  rejected = some (
      rejected "DuplicateResourceKey"
        (concat ("resource key " ∷ quote key ∷ " is already claimed by " ∷ show owner ∷ [])));
}

abbrev pub duplicate_hostname : String → Claimant → Outcome
duplicate_hostname host owner = record {
  key = "";
  rejected = some (
      rejected "DuplicateHostname"
        (concat ("hostname " ∷ quote host ∷ " is already claimed by " ∷ show owner ∷ [])));
}

abbrev pub won : String → Outcome
won key = record { key = key; rejected = none }

-- The entry goes into its section.
pub publish : Rendered → Award → Award
publish e s = elim (e.public) [
  | some r ↦ record s { public_resources = insert e.key r s.public_resources }
  | none ↦ elim (e.private) [
    | some r ↦ record s { private_resources = insert e.key r s.private_resources }
    | none ↦ s
  ]
]

pub claim : Candidate → Award → Award
unfolding claim_hosts
claim c s =
    let hosts = claim_hosts c.claimant c.entry.hostnames (host_owner (is_public c.entry) s) in
    let owned = record s { key_owner = insert c.entry.key c.claimant s.key_owner } in
    if is_public c.entry
    then record owned { public_hosts = hosts }
    else record owned { private_hosts = hosts }

abbrev pub conclude : Candidate → Outcome → Award → Award
conclude c o s = record s { outcomes = insert c.claimant o s.outcomes }

-- The outcome of one candidate, judged by the owners so far.
pub judge : Candidate → Award → Outcome
unfolding first_claimed
judge c s = elim (lookup c.entry.key s.key_owner) [
  | some owner ↦ duplicate_key c.entry.key owner
  | none ↦ elim (first_claimed c.entry.hostnames (host_owner (is_public c.entry) s)) [
    | some (host, owner) ↦ duplicate_hostname host owner
    | none ↦ won c.entry.key
  ]
]

abbrev pub settle : Candidate → Outcome → Award → Award
settle c o s = elim (o.rejected) [
  | some reason ↦ conclude c o s
  | none ↦ conclude c o (publish c.entry (claim c s))
]

-- One round of the loop.
pub award : Award → Candidate → Award
unfolding judge claim publish
award s c = settle c (judge c s) s

pub award_all : Award → List Candidate → Award
unfolding award
award_all s [] = s
award_all s (c ∷ cs) = award_all (award s c) cs

unfoldable pub resolve_collisions : List Candidate → Award
unfolding award_all by_age
resolve_collisions candidates = award_all nothing_awarded (stable_sort by_age candidates)
