-- ===== src/Publisher/Wanted.antt =====
-- internal/controller/mtls.go: the routes whose trusted CAs verifyMTLS confirms.
use mathlib.Core.List.{Memᴰ}
use pangolin_gateway.Prelude.{
  ==_sound, Bool-cases, List, String, [], inl, inr, refl, some, subst, sym, true, ◌==◌, ◌∷◌, ◌≡◌,
  string_eq,
}
use pangolin_gateway.Api.{NamespacedName, name_eq}
use pangolin_gateway.Inputs.{MtlsResult}
use pangolin_gateway.Map.{Map, lookup}
use pangolin_gateway.Publisher.Verify.{ca_set_of, fingerprints, wanted_sets}
use pangolin_gateway.Verdict.{Verdict, published}

-- The first loop of verifyMTLS finds every published route with a CA set.
wanted_sets-tail :
    (fingerprint_of : String → String) (mtls : Map NamespacedName MtlsResult) (n : NamespacedName)
    (u : Verdict) (vs : Map NamespacedName Verdict) {x : NamespacedName × String × List String}
    → Memᴰ x (wanted_sets fingerprint_of mtls vs)
    → Memᴰ x (wanted_sets fingerprint_of mtls ((n, u) ∷ vs))
unfolding wanted_sets
wanted_sets-tail fingerprint_of mtls n u vs {x} m = elim (Bool-cases (published u.key)) [
  | inr hidden ↦ rw hidden m
  | inl shown ↦ go shown (ca_set_of fingerprint_of (lookup n mtls)) refl
]
  where
    go :
        published u.key ≡ true
        → (cas : List String) → ca_set_of fingerprint_of (lookup n mtls) ≡ cas
        → Memᴰ x (wanted_sets fingerprint_of mtls ((n, u) ∷ vs))
    go shown [] q = rw (shown, q, wanted_sets) m
    go shown (c ∷ cs) q = rw (shown, q, wanted_sets) (Memᴰ.tail m)

wanted_sets-head :
    (fingerprint_of : String → String) (mtls : Map NamespacedName MtlsResult)
    (name : NamespacedName) (v : Verdict) (vs : Map NamespacedName Verdict) (c : String)
    (cs : List String)
    → published v.key ≡ true
    → ca_set_of fingerprint_of (lookup name mtls) ≡ c ∷ cs
    → Memᴰ
        (name, v.key, fingerprints fingerprint_of (c ∷ cs))
        (wanted_sets fingerprint_of mtls ((name, v) ∷ vs))
unfolding wanted_sets
wanted_sets-head fingerprint_of mtls name v vs c cs shown set =
    rw (shown, set, wanted_sets) (Memᴰ.head refl)

pub wanted_sets-Memᴰ :
    (fingerprint_of : String → String) (mtls : Map NamespacedName MtlsResult)
    (vs : Map NamespacedName Verdict) (name : NamespacedName) (v : Verdict) (c : String)
    (cs : List String)
    → lookup name vs ≡ some v
    → published v.key ≡ true
    → ca_set_of fingerprint_of (lookup name mtls) ≡ c ∷ cs
    → Memᴰ (name, v.key, fingerprints fingerprint_of (c ∷ cs)) (wanted_sets fingerprint_of mtls vs)
unfolding lookup
wanted_sets-Memᴰ fingerprint_of mtls [] name v c cs q shown set = cc
wanted_sets-Memᴰ fingerprint_of mtls ((n, u) ∷ vs) name v c cs q shown set =
    elim (Bool-cases (n == name)) [
      | inr other ↦
          wanted_sets-tail fingerprint_of mtls n u vs (
            wanted_sets-Memᴰ fingerprint_of mtls vs name v c cs (rw (other, lookup) at q) shown set)
      | inl same ↦
          let found : u ≡ v = (let p = rw (same, lookup) at q in cc) in
          let name_same : n ≡ name = ==_sound n name same in
          subst
            (λ (x : NamespacedName × Verdict).
              Memᴰ (name, v.key, fingerprints fingerprint_of (c ∷ cs))
                (wanted_sets fingerprint_of mtls (x ∷ vs)))
            (λ i. (sym name_same i, sym found i))
            (wanted_sets-head fingerprint_of mtls name v vs c cs shown set)
    ]
