-- ===== src/Collisions/Reference.antt =====
-- An independent description of the awards: no maps of owners, only the list of the winners so far,
-- oldest first. A candidate is compared with each of them.
use pangolin_gateway.Prelude.{
  ◌≢◌, Bool, true, false, not, ◌&&◌, Option, none, some, List, [], ◌∷◌, ◌++◌, map, String, ◌==◌,
  string_eq, if◌then◌else◌, contains, All,
}
use pangolin_gateway.Text.{to_lower}
use pangolin_gateway.Blueprint.{PublicResource, PrivateResource}
use pangolin_gateway.Collisions.{
  Claimant, Candidate, Rendered, Outcome, is_public, duplicate_key, duplicate_hostname, won,
}

abbrev pub lowered : Rendered → List String
lowered e = map to_lower e.hostnames

abbrev pub in_section : Bool → Rendered → Bool
in_section true e = is_public e
in_section false e = not (is_public e)

-- The oldest winner that holds the key.
unfoldable pub owner_of_key : String → List Candidate → Option Claimant
owner_of_key k [] = none
owner_of_key k (w ∷ ws) = if w.entry.key == k then some w.claimant else owner_of_key k ws

-- The oldest winner of the section that holds the lowercase hostname.
unfoldable pub owner_of_host : Bool → String → List Candidate → Option Claimant
owner_of_host b h [] = none
owner_of_host b h (w ∷ ws) =
    if in_section b w.entry && contains (lowered w.entry) h
    then some w.claimant
    else owner_of_host b h ws

unfoldable pub first_owned : Bool → List String → List Candidate → Option (String × Claimant)
first_owned b [] ws = none
first_owned b (h ∷ hs) ws = elim (owner_of_host b (to_lower h) ws) [
  | none ↦ first_owned b hs ws
  | some owner ↦ some (h, owner)
]

-- The outcome of a candidate against the winners before it.
unfoldable pub verdict_against : List Candidate → Candidate → Outcome
verdict_against ws c = elim (owner_of_key c.entry.key ws) [
  | some owner ↦ duplicate_key c.entry.key owner
  | none ↦ elim (first_owned (is_public c.entry) c.entry.hostnames ws) [
    | some (host, owner) ↦ duplicate_hostname host owner
    | none ↦ won c.entry.key
  ]
]

-- The winners once the candidate is judged.
unfoldable pub joined : List Candidate → Candidate → List Candidate
unfolding verdict_against
joined ws c = elim ((verdict_against ws c).rejected) [ none ↦ ws ++ (c ∷ []) | some reason ↦ ws ]

unfoldable pub winners : List Candidate → List Candidate → List Candidate
winners ws [] = ws
winners ws (c ∷ cs) = winners (joined ws c) cs

unfoldable pub verdicts : List Candidate → List Candidate → List (Claimant × Outcome)
verdicts ws [] = []
verdicts ws (c ∷ cs) = (c.claimant, verdict_against ws c) ∷ verdicts (joined ws c) cs

-- What the sections of the blueprint hold for a key.
unfoldable pub public_of : String → List Candidate → Option PublicResource
public_of k [] = none
public_of k (w ∷ ws) = if w.entry.key == k then w.entry.public else public_of k ws

abbrev pub private_part : Rendered → Option PrivateResource
private_part e = elim (e.public) [ some r ↦ none | none ↦ e.private ]

unfoldable pub private_of : String → List Candidate → Option PrivateResource
private_of k [] = none
private_of k (w ∷ ws) = if w.entry.key == k then private_part w.entry else private_of k ws

-- No two candidates are the same object.
abbrev pub DistinctClaimants : List Candidate → Type 0
DistinctClaimants [] = Unit
DistinctClaimants (c ∷ cs) = All (λ d. c.claimant ≢ d.claimant) cs × DistinctClaimants cs
