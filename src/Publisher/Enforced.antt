-- ===== src/Publisher/Enforced.antt =====
-- internal/controller/mtls.go: a route whose trusted CAs are not confirmed is marked by verifyMTLS.
use mathlib.Core.List.{Memᴰ}
use pangolin_gateway.Prelude.{
  ==_refl, Bool-cases, List, Option-cases, Result, String, [], ap, contains, contains_sound, err,
  inl, inr, ok, refl, some, subst, sym, true, ℕ, ◌∙◌, ◌∷◌, ◌≡◌, ◌⊎◌, string_eq,
}
use pangolin_gateway.Api.{NamespacedName, name_eq}
use pangolin_gateway.Blueprint.{Resource}
use pangolin_gateway.Certificates.{all_in, covers_fingerprints, normalized}
use pangolin_gateway.Inputs.{MtlsResult}
use pangolin_gateway.Map.{Map, lookup, lookup-insert}
use pangolin_gateway.Publisher.{PangolinApi}
use pangolin_gateway.Publisher.Confirm.{
  AllMarked, Marked, mark_trans, mark_mtls_not_applied-AllMarked, marks_refl, unconfirmed,
  verify_sets-Confirms,
}
use pangolin_gateway.Publisher.Verify.{
  ca_set_of, confirmed, fingerprints, mark_mtls_not_applied, not_effective, not_listed,
  resource_ids, verify_mtls, verify_resource, verify_sets, wanted_sets,
}
use pangolin_gateway.Verdict.{Verdict, published}
use pangolin_gateway.Publisher.Wanted.{wanted_sets-Memᴰ}

all_in_sound :
    (have want : List String) → all_in have want ≡ true → (f : String) → Memᴰ f want → Memᴰ f have
unfolding all_in
all_in_sound have [] h f m = elim m [ ]
all_in_sound have (g ∷ gs) h f m = elim (Bool-cases (contains have g)) [
  | inl there ↦ elim m [
    | Memᴰ.head e ↦ rw e (contains_sound have g there)
    | Memᴰ.tail n ↦ all_in_sound have gs (rw (there, all_in) at h) f n
  ]
  | inr missing ↦ absurd (let q = rw (missing, all_in) at h in cc)
]

module _ (view : ℕ → Result String (List String)) where
  -- The listing has the resource with this key, and the certificates of the resource are listed with
  -- every fingerprint that is wanted.
  abbrev pub Covered : Result String (List Resource) → String → List String → Type 0
  Covered listed key want =
      (rows : List Resource) × (listed ≡ ok rows)
      × (id : ℕ) × (lookup key (resource_ids [] rows) ≡ some id)
      × (got : List String) × (view id ≡ ok got)
      × ((f : String) → Memᴰ f want → Memᴰ f (normalized got))

  confirmed-Covered :
      (rows : List Resource) (key : String) (id : ℕ) (want : List String)
      (answer : Result String (List String))
      → lookup key (resource_ids [] rows) ≡ some id
      → view id ≡ answer
      → confirmed answer want ≡ true
      → Covered (ok rows) key want
  unfolding covers_fingerprints
  confirmed-Covered rows key id want (ok got) q p h =
      (rows, refl, id, q, got, p, all_in_sound (normalized got) want h)
  confirmed-Covered rows key id want (err e) q p h = cc

mark_mtls_not_applied-lookup :
    (vs : Map NamespacedName Verdict) (name : NamespacedName) (message : String) (v : Verdict)
    → lookup name vs ≡ some v
    → published v.key ≡ true
    → lookup name (mark_mtls_not_applied vs name message) ≡ some (unconfirmed v message)
unfolding mark_mtls_not_applied
mark_mtls_not_applied-lookup vs name message v q shown =
    rw (q, mark_mtls_not_applied)
      (rw shown (lookup-insert name name (unconfirmed v message) vs ∙ rw (==_refl name) refl))

Marked-unconfirmed :
    {v u : Verdict}
    → Marked v u
    → published v.key ≡ true
    → (published u.key ≡ true)
      × ((message : String) → unconfirmed u message ≡ unconfirmed v message)
Marked-unconfirmed (inl q) shown = (rw q shown, λ message. ap (λ x. unconfirmed x message) q)
Marked-unconfirmed (inr (_, first, q)) shown =
    (rw q shown, λ message. ap (λ x. unconfirmed x message) q)

module _ {W : Type 0} (pangolin : PangolinApi W) (view : ℕ → Result String (List String))
    (steady : (id : ℕ) (w : W) → (pangolin.list_certificates id w).0 ≡ view id) where
  -- A round confirms its route or marks it.
  round :
      (listed : Result String (List Resource)) (name : NamespacedName) (key : String)
      (want : List String) (sets : List (NamespacedName × String × List String))
      (vs : Map NamespacedName Verdict) (w : W)
      → (us : Map NamespacedName Verdict) × (w' : W) × (verify_sets pangolin listed
            ((name, key, want) ∷ sets)
            vs
            w
          ≡ verify_sets pangolin listed sets us w')
        × ((Covered view listed key want × (us ≡ vs))
            ⊎ ((message : String) × (us ≡ mark_mtls_not_applied vs name message)))
  unfolding verify_sets verify_resource
  round (err e) name key want sets vs w =
      (mark_mtls_not_applied vs name not_listed, w, refl, inr (not_listed, refl))
  round (ok rows) name key want sets vs w =
      elim (Option-cases (lookup key (resource_ids [] rows))) [
        | inl q ↦ (
          mark_mtls_not_applied vs name not_listed,
          w,
          rw (q, verify_sets) refl,
          inr (not_listed, refl),
        )
        | inr (id, q) ↦
            let w' = (pangolin.list_certificates id w).1 in
            elim (Bool-cases (confirmed ((pangolin.list_certificates id w).0) want)) [
              | inl sure ↦ (
                vs,
                w',
                rw (q, verify_sets) (rw sure refl),
                inl (
                  confirmed-Covered view rows key id want ((pangolin.list_certificates id w).0) q
                      (sym (steady id w)) sure,
                  refl,
                ),
              )
              | inr unsure ↦ (
                mark_mtls_not_applied vs name not_effective,
                w',
                rw (q, verify_sets) (rw unsure refl),
                inr (not_effective, refl),
              )
            ]
      ]

  round-AllMarked :
      (name : NamespacedName) {C : Type 0} (vs us : Map NamespacedName Verdict)
      → (C × (us ≡ vs)) ⊎ ((message : String) × (us ≡ mark_mtls_not_applied vs name message))
      → AllMarked vs us
  round-AllMarked name vs us (inl (_, q)) = subst (AllMarked vs) (sym q) (marks_refl vs)
  round-AllMarked name vs us (inr (message, q)) =
      subst (AllMarked vs) (sym q) (mark_mtls_not_applied-AllMarked vs name message)

  -- The verdict of a route is confirmed, or it is marked in the end.
  abbrev Enforced :
      Result String (List Resource)
      → String
      → List String
      → NamespacedName
      → Verdict
      → Result String (Map NamespacedName Verdict) × W
      → Type 0
  Enforced listed key want name v made =
      (ws : Map NamespacedName Verdict) × (made.0 ≡ ok ws)
      × (Covered view listed key want
          ⊎ ((message : String) × (lookup name ws ≡ some (unconfirmed v message))))

  -- A mark is not taken back.
  mark_persists :
      (listed : Result String (List Resource)) (key : String) (want : List String)
      (sets : List (NamespacedName × String × List String)) (vs : Map NamespacedName Verdict)
      (w : W) (name : NamespacedName) (v : Verdict) (message : String)
      → lookup name vs ≡ some (unconfirmed v message)
      → Enforced listed key want name v (verify_sets pangolin listed sets vs w)
  mark_persists listed key want sets vs w name v message q =
      let (ws, p, all) = verify_sets-Confirms pangolin listed sets vs w in
      let (u, found, marked) = all name (unconfirmed v message) q in
      elim marked [
        | inl same ↦ (ws, p, inr (message, found ∙ ap some same))
        | inr (_, later, same) ↦ (ws, p, inr (later, found ∙ ap some same))
      ]

  -- After the round of a route, whatever follows.
  Enforced-round :
      (listed : Result String (List Resource)) (name : NamespacedName) (key : String)
      (want : List String) (v u : Verdict) (sets : List (NamespacedName × String × List String))
      (vs us : Map NamespacedName Verdict) (w : W)
      → published v.key ≡ true
      → lookup name vs ≡ some u
      → Marked v u
      → (Covered view listed key want × (us ≡ vs))
        ⊎ ((message : String) × (us ≡ mark_mtls_not_applied vs name message))
      → Enforced listed key want name v (verify_sets pangolin listed sets us w)
  Enforced-round listed name key want v u sets vs us w shown q marked (inl (covered, _)) =
      let (ws, p, _) = verify_sets-Confirms pangolin listed sets us w in (ws, p, inl covered)
  Enforced-round listed name key want v u sets vs us w shown q marked (inr (message, made)) =
      let (shown', same) = Marked-unconfirmed marked shown in
      mark_persists listed key want sets us w name v message (
        ap (lookup name) made
        ∙ mark_mtls_not_applied-lookup vs name message u q shown'
        ∙ ap some (same message))

  verify_sets-Enforced :
      (listed : Result String (List Resource)) (name : NamespacedName) (key : String)
      (want : List String) (v u : Verdict) (sets : List (NamespacedName × String × List String))
      (vs : Map NamespacedName Verdict) (w : W)
      → Memᴰ (name, key, want) sets
      → published v.key ≡ true
      → lookup name vs ≡ some u
      → Marked v u
      → Enforced listed key want name v (verify_sets pangolin listed sets vs w)
  verify_sets-Enforced listed name key want v u [] vs w m shown q marked = elim m [ ]
  verify_sets-Enforced listed name key want v u (set ∷ sets) vs w (Memᴰ.head e) shown q marked =
      let (us, w', step, outcome) = round listed name key want sets vs w in
      subst (λ x. Enforced listed key want name v (verify_sets pangolin listed (x ∷ sets) vs w)) e
        (subst (Enforced listed key want name v) (sym step)
          (Enforced-round listed name key want v u sets vs us w' shown q marked outcome))
  verify_sets-Enforced listed name key want v u ((n, k, wt) ∷ sets) vs w (Memᴰ.tail m) shown q
        marked =
      let (us, w', step, outcome) = round listed n k wt sets vs w in
      let (u', found, later) = round-AllMarked n vs us outcome name u q in
      subst (Enforced listed key want name v) (sym step) (
        verify_sets-Enforced listed name key want v u' sets us w' m shown found
          (mark_trans marked later))

  -- Where the certificates that Pangolin lists do not change meanwhile: a published route with a CA
  -- set keeps its verdict only if the listing has its resource, and the certificates listed for that
  -- resource cover every fingerprint of the set. Otherwise it ends with MtlsNotApplied.
  pub verify_mtls_enforces :
      (fingerprint_of : String → String) (mtls : Map NamespacedName MtlsResult)
      (vs : Map NamespacedName Verdict) (name : NamespacedName) (v : Verdict) (c : String)
      (cs : List String) (w : W)
      → lookup name vs ≡ some v
      → published v.key ≡ true
      → ca_set_of fingerprint_of (lookup name mtls) ≡ c ∷ cs
      → (ws : Map NamespacedName Verdict) × ((verify_mtls pangolin fingerprint_of mtls vs w).0
          ≡ ok ws)
        × (Covered view
              ((pangolin.public_section.list w).0)
              v.key
              (fingerprints fingerprint_of (c ∷ cs))
            ⊎ ((message : String) × (lookup name ws ≡ some (unconfirmed v message))))
  unfolding verify_mtls
  verify_mtls_enforces fingerprint_of mtls vs name v c cs w q shown set =
      go (wanted_sets fingerprint_of mtls vs) refl
    where
      go :
          (sets : List (NamespacedName × String × List String))
          → wanted_sets fingerprint_of mtls vs ≡ sets
          → Enforced
              ((pangolin.public_section.list w).0)
              v.key
              (fingerprints fingerprint_of (c ∷ cs))
              name
              v
              (verify_mtls pangolin fingerprint_of mtls vs w)
      go [] p = absurd (
          elim (subst (Memᴰ _) p
            (wanted_sets-Memᴰ fingerprint_of mtls vs name v c cs q shown set)) [ ])
      go (x ∷ sets) p =
          rw (p, verify_mtls)
            (verify_sets-Enforced ((pangolin.public_section.list w).0) name v.key
              (fingerprints fingerprint_of (c ∷ cs)) v v (x ∷ sets) vs
              ((pangolin.public_section.list w).1)
              (subst (Memᴰ _) p (wanted_sets-Memᴰ fingerprint_of mtls vs name v c cs q shown set))
              shown q (inl refl))
