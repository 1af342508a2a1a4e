-- ===== src/Examples/Collisions.antt =====
-- Tests and instances for the awards of keys and hostnames.
use Prim.Native.Nat.{Ordering}
use mathlib.Core.List.{Memᴰ, Permᴰ}
use pangolin_gateway.Prelude.{
  List, String, [], none, refl, some, ℕ, ◌∷◌, ◌≡◌, ==_false, contains, false, true, ◌==◌, ◌≢◌,
  string_eq,
}
use pangolin_gateway.Api.{same_name}
use pangolin_gateway.Blueprint.{PublicResource}
use pangolin_gateway.Collisions.{
  Candidate, by_age, duplicate_hostname, duplicate_key, resolve_collisions, show, won,
  same_claimant, claimant_eq,
}
use pangolin_gateway.Collisions.Awards.{
  IsPublished, aged, published_hostname_unique, published_key_unique, rejected_has_older_rival,
  resolve_collisions-eq-reference,
}
use pangolin_gateway.Collisions.Permuted.{resolve_collisions-Permᴰ}
use pangolin_gateway.Collisions.Reference.{
  DistinctClaimants, lowered, private_of, public_of, verdicts, winners,
}
use pangolin_gateway.Collisions.Rivals.{Clash}
use pangolin_gateway.Map.{insert, lookup}
use pangolin_gateway.Order.{stable_sort}
use pangolin_gateway.Text.{concat, quote, to_lower}

abbrev page : String → PublicResource
page host = record {
  name = host;
  mode = "http";
  full_domain = host;
  auth = none;
  policy = "";
  targets = [];
  rules = [];
}

abbrev route : String → String → ℕ → String → String → Candidate
route namespace name created key host = record {
  claimant = record { kind = "HTTPRoute"; name = record { namespace = namespace; name = name } };
  created_at = created;
  entry = record {
    key = key;
    hostnames = host ∷ [];
    notes = [];
    public = some (page host);
    private = none;
  };
}

-- "a-b"/"c" and "a"/"b-c" share the key gw-a-b-c, and the last route claims the hostname of the
-- second in another case.
abbrev first : Candidate
first = route "a-b" "c" 5 "gw-a-b-c" "one.example.com"

abbrev second : Candidate
second = route "a" "b-c" 3 "gw-a-b-c" "two.example.com"

abbrev third : Candidate
third = route "z" "web" 9 "gw-z-web" "TWO.example.com"

abbrev contenders : List Candidate
contenders = first ∷ second ∷ third ∷ []

run : Unit {0}
unfolding resolve_collisions stable_sort quote concat to_lower lookup insert show same_claimant
    same_name
run = tt

-- The older of the two wins the key, and then keeps its hostname.
contenders_outcomes :
    (lookup first.claimant (resolve_collisions contenders).outcomes
      ≡ some (duplicate_key "gw-a-b-c" second.claimant))
    × (lookup second.claimant (resolve_collisions contenders).outcomes ≡ some (won "gw-a-b-c"))
    × (lookup third.claimant (resolve_collisions contenders).outcomes
        ≡ some (duplicate_hostname "TWO.example.com" second.claimant))
unfolding run
contenders_outcomes = (refl, refl, refl)

apart : (c d : Candidate) → (c.claimant == d.claimant) ≡ false → c.claimant ≢ d.claimant
apart c d = ==_false c.claimant d.claimant

contenders_distinct : DistinctClaimants contenders
unfolding run
contenders_distinct = (
  (apart first second refl, (apart first third refl, tt)),
  ((apart second third refl, tt), (tt, tt)),
)

resolve_collisions-eq-reference_example :
    ((resolve_collisions contenders).outcomes ≡ verdicts [] (aged contenders))
    × ((k : String)
        → lookup k (resolve_collisions contenders).public_resources
          ≡ public_of k (winners [] (aged contenders)))
    × ((k : String)
        → lookup k (resolve_collisions contenders).private_resources
          ≡ private_of k (winners [] (aged contenders)))
resolve_collisions-eq-reference_example =
    resolve_collisions-eq-reference contenders contenders_distinct

resolve_collisions-Permᴰ_example :
    resolve_collisions contenders ≡ resolve_collisions (second ∷ first ∷ third ∷ [])
resolve_collisions-Permᴰ_example =
    resolve_collisions-Permᴰ {ds = second ∷ first ∷ third ∷ []} (Permᴰ.swap refl refl)
      contenders_distinct

second-IsPublished : IsPublished contenders second
second-IsPublished = (Memᴰ.tail (Memᴰ.head refl), contenders_outcomes.1)

second_claims : contains (lowered second.entry) "two.example.com" ≡ true
unfolding run contains
second_claims = refl

published_key_unique_example : second.claimant ≡ second.claimant
published_key_unique_example =
    published_key_unique contenders contenders_distinct second second second-IsPublished
      second-IsPublished refl

published_hostname_unique_example : second.claimant ≡ second.claimant
published_hostname_unique_example =
    published_hostname_unique contenders contenders_distinct second second "two.example.com"
      second-IsPublished second-IsPublished refl second_claims second_claims

rejected_has_older_rival_example :
    (w : Candidate) × IsPublished contenders w × (by_age w third ≡ Ordering.lt) × Clash w third
rejected_has_older_rival_example =
    rejected_has_older_rival contenders contenders_distinct third
      (duplicate_hostname "TWO.example.com" second.claimant)
      (Memᴰ.tail (Memᴰ.tail (Memᴰ.head refl))) contenders_outcomes.2 refl
