-- ===== src/Collisions/Owners.antt =====
-- The owners among a list of winners that grows at its end, and the owners of claimed hostnames.
use text.Mathlib.TextEquality.{eq_iff}
use pangolin_gateway.Prelude.{
  ◌≡◌, refl, Bool, true, ◌&&◌, Option, none, some, List, [], ◌∷◌, ◌++◌, map, String, ◌==◌,
  if◌then◌else◌, contains, arith, string_eq,
}
use pangolin_gateway.Collisions.{Claimant, Candidate, claim_hosts, claimant_eq}
use pangolin_gateway.Collisions.Reference.{
  lowered, in_section, owner_of_key, owner_of_host, first_owned, public_of, private_of,
  private_part,
}
use pangolin_gateway.Map.{Map, lookup, insert, lookup-insert}
use pangolin_gateway.Text.{to_lower}

abbrev pub or_else {ℓ} : {A : Type ℓ} → Option A → Option A → Option A
or_else none o = o
or_else (some a) o = some a

-- A new winner stands behind the older ones.
pub owner_of_key-append :
    (k : String) (ws : List Candidate) (c : Candidate)
    → owner_of_key k (ws ++ (c ∷ []))
      ≡ or_else (owner_of_key k ws) (if c.entry.key == k then some c.claimant else none)
unfolding owner_of_key
owner_of_key-append k [] c = refl
owner_of_key-append k (w ∷ ws) c = ground (arith, owner_of_key-append k ws c)

pub owner_of_host-append :
    (b : Bool) (h : String) (ws : List Candidate) (c : Candidate)
    → owner_of_host b h (ws ++ (c ∷ []))
      ≡ or_else
          (owner_of_host b h ws)
          (if in_section b c.entry && contains (lowered c.entry) h then some c.claimant else none)
unfolding owner_of_host
owner_of_host-append b h [] c = refl
owner_of_host-append b h (w ∷ ws) c = ground (arith, owner_of_host-append b h ws c)

pub public_of_free :
    (k : String) (ws : List Candidate) → owner_of_key k ws ≡ none → public_of k ws ≡ none
unfolding public_of owner_of_key
public_of_free k [] h = refl
public_of_free k (w ∷ ws) h = ground (arith, public_of_free k ws)

pub private_of_free :
    (k : String) (ws : List Candidate) → owner_of_key k ws ≡ none → private_of k ws ≡ none
unfolding private_of owner_of_key
private_of_free k [] h = refl
private_of_free k (w ∷ ws) h = ground (arith, private_of_free k ws)

pub public_of-append :
    (k : String) (ws : List Candidate) (c : Candidate)
    → public_of k (ws ++ (c ∷ [])) ≡ elim (owner_of_key k ws) [
      | some owner ↦ public_of k ws
      | none ↦ if c.entry.key == k then c.entry.public else none
    ]
unfolding public_of owner_of_key
public_of-append k [] c = refl
public_of-append k (w ∷ ws) c = ground (arith, public_of-append k ws c)

pub private_of-append :
    (k : String) (ws : List Candidate) (c : Candidate)
    → private_of k (ws ++ (c ∷ [])) ≡ elim (owner_of_key k ws) [
      | some owner ↦ private_of k ws
      | none ↦ if c.entry.key == k then private_part c.entry else none
    ]
unfolding private_of owner_of_key
private_of-append k [] c = refl
private_of-append k (w ∷ ws) c = ground (arith, private_of-append k ws c)

-- The owners of hostnames after a claim.
pub lookup-claim_hosts :
    (c : Claimant) (hs : List String) (m : Map String Claimant) (h : String)
    → lookup h (claim_hosts c hs m) ≡ (if contains (map to_lower hs) h then some c else lookup h m)
unfolding claim_hosts contains
lookup-claim_hosts c [] m h = refl
lookup-claim_hosts c (x ∷ hs) m h =
    ground
      (arith, lookup-claim_hosts c hs (insert (to_lower x) c m) h, lookup-insert (to_lower x) h c m)

-- Where no hostname of a candidate is owned, none that it claims has an owner.
pub first_owned-none :
    (b : Bool) (hs : List String) (ws : List Candidate) (h : String)
    → first_owned b hs ws ≡ none
    → contains (map to_lower hs) h ≡ true
    → owner_of_host b h ws ≡ none
unfolding first_owned contains
first_owned-none b [] ws h p q = cc
first_owned-none b (x ∷ hs) ws h p q =
    ground (arith, first_owned-none b hs ws h, eq_iff (to_lower x) h)
