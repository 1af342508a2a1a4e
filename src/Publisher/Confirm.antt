-- ===== src/Publisher/Confirm.antt =====
-- internal/controller/mtls.go: what verifyMTLS makes of the verdicts.
use pangolin_gateway.Prelude.{
  Bool-cases, List, Option, Option-cases, Result, String, [], err, inl, inr, none, ok, ==_sound,
  refl, some, true, ◌==◌, ◌∷◌, ◌≡◌, ◌⊎◌, string_eq, ◌∙◌,
}
use pangolin_gateway.Api.{NamespacedName, name_eq}
use pangolin_gateway.Blueprint.{Resource}
use pangolin_gateway.Inputs.{MtlsResult}
use pangolin_gateway.Map.{Map, lookup, lookup-insert}
use pangolin_gateway.Publisher.{PangolinApi}
use pangolin_gateway.Publisher.Verify.{
  confirmed, mark_mtls_not_applied, not_effective, not_listed, resource_ids, verify_mtls,
  verify_resource, verify_sets, wanted_sets,
}
use pangolin_gateway.Verdict.{Verdict, published, rejected}

abbrev pub unconfirmed : Verdict → String → Verdict
unconfirmed v message = record v { accepted = rejected "MtlsNotApplied" message }

-- What the confirmation may make of one verdict.
abbrev pub Marked : Verdict → Verdict → Type 0
Marked v w = (w ≡ v) ⊎ ((published v.key ≡ true) × (message : String) × (w ≡ unconfirmed v message))

-- What it may make of all of them.
abbrev pub AllMarked : Map NamespacedName Verdict → Map NamespacedName Verdict → Type 0
AllMarked vs ws =
    (name : NamespacedName) (v : Verdict)
    → lookup name vs ≡ some v
    → (w : Verdict) × (lookup name ws ≡ some w) × Marked v w

pub mark_trans : {u v w : Verdict} → Marked u v → Marked v w → Marked u w
mark_trans a (inl q) = rw q a
mark_trans (inl p) (inr (shown, message, q)) = inr (rw (← p) shown, message, rw q (rw p refl))
mark_trans (inr (shown, first, p)) (inr (_, message, q)) = inr (shown, message, rw q (rw p refl))

pub marks_refl : (vs : Map NamespacedName Verdict) → AllMarked vs vs
marks_refl vs name v h = (v, h, inl refl)

marks_trans :
    (us vs ws : Map NamespacedName Verdict) → AllMarked us vs → AllMarked vs ws → AllMarked us ws
marks_trans us vs ws a b name u h =
    let (v, p, m) = a name u h in let (w, q, n) = b name v p in (w, q, mark_trans m n)

pub mark_mtls_not_applied-AllMarked :
    (vs : Map NamespacedName Verdict) (name : NamespacedName) (message : String)
    → AllMarked vs (mark_mtls_not_applied vs name message)
unfolding mark_mtls_not_applied
mark_mtls_not_applied-AllMarked vs name message other v h = go (lookup name vs) refl
  where
    go :
        (found : Option Verdict)
        → lookup name vs ≡ found
        → (w : Verdict) × (lookup other (mark_mtls_not_applied vs name message) ≡ some w)
          × Marked v w
    go none q = rw (q, mark_mtls_not_applied) (v, h, inl refl)
    go (some u) q = elim (Bool-cases (published u.key)) [
      | inr hidden ↦ rw (q, mark_mtls_not_applied) (rw hidden (v, h, inl refl))
      | inl shown ↦
          rw (q, mark_mtls_not_applied)
            (rw shown (elim (Bool-cases (name == other)) [
              | inr apart ↦
                  (v, lookup-insert name other (unconfirmed u message) vs ∙ rw apart h, inl refl)
              | inl same ↦
                  let e : u ≡ v = (let p = ==_sound name other same in cc) in
                  (
                    unconfirmed u message,
                    lookup-insert name other (unconfirmed u message) vs ∙ rw same refl,
                    inr (rw (← e) shown, message, rw e refl),
                  )
            ]))
    ]

-- A call that succeeds, with such verdicts.
abbrev pub Confirms :
    {W : Type 0}
    → Map NamespacedName Verdict
    → Result String (Map NamespacedName Verdict) × W
    → Type 0
Confirms vs made = (ws : Map NamespacedName Verdict) × (made.0 ≡ ok ws) × AllMarked vs ws

module _ {W : Type 0} (pangolin : PangolinApi W) where
  pub verify_sets-Confirms :
      (listed : Result String (List Resource)) (sets : List (NamespacedName × String × List String))
      (vs : Map NamespacedName Verdict) (w : W)
      → Confirms vs (verify_sets pangolin listed sets vs w)
  unfolding verify_sets verify_resource
  verify_sets-Confirms listed [] vs w = (vs, refl, marks_refl vs)
  verify_sets-Confirms (err e) ((name, key, want) ∷ sets) vs w =
      let (ws, p, m) =
        verify_sets-Confirms (err e) sets (mark_mtls_not_applied vs name not_listed) w in
      (ws, p, marks_trans vs _ ws (mark_mtls_not_applied-AllMarked vs name not_listed) m)
  verify_sets-Confirms (ok rows) ((name, key, want) ∷ sets) vs w =
      elim (Option-cases (lookup key (resource_ids [] rows))) [
        | inl q ↦
            let (ws, p, m) =
              verify_sets-Confirms (ok rows) sets (mark_mtls_not_applied vs name not_listed) w in
            rw (q, verify_sets)
              (ws, p, marks_trans vs _ ws (mark_mtls_not_applied-AllMarked vs name not_listed) m)
        | inr (id, q) ↦ elim (Bool-cases (confirmed ((pangolin.list_certificates id w).0) want)) [
          | inl sure ↦
              let (ws, p, m) =
                verify_sets-Confirms (ok rows) sets vs ((pangolin.list_certificates id w).1) in
              rw (q, verify_sets) (rw sure (ws, p, m))
          | inr unsure ↦
              let (ws, p, m) =
                verify_sets-Confirms (ok rows) sets (mark_mtls_not_applied vs name not_effective)
                  ((pangolin.list_certificates id w).1) in
              rw (q, verify_sets)
                (rw unsure (
                  ws,
                  p,
                  marks_trans vs _ ws (mark_mtls_not_applied-AllMarked vs name not_effective) m,
                ))
        ]
      ]

  verify_mtls-Confirms :
      (fingerprint_of : String → String) (mtls : Map NamespacedName MtlsResult)
      (vs : Map NamespacedName Verdict) (w : W)
      → Confirms vs (verify_mtls pangolin fingerprint_of mtls vs w)
  unfolding verify_mtls
  verify_mtls-Confirms fingerprint_of mtls vs w = go (wanted_sets fingerprint_of mtls vs) refl
    where
      go :
          (sets : List (NamespacedName × String × List String))
          → wanted_sets fingerprint_of mtls vs ≡ sets
          → Confirms vs (verify_mtls pangolin fingerprint_of mtls vs w)
      go [] q = rw (q, verify_mtls) (vs, refl, marks_refl vs)
      go (set ∷ sets) q =
          rw (q, verify_mtls)
            (verify_sets-Confirms ((pangolin.public_section.list w).0) (set ∷ sets) vs
              ((pangolin.public_section.list w).1))

  -- The confirmation of the trusted CAs succeeds, whatever Pangolin answers. A route with a verdict
  -- keeps it or, if it is published, has its Accepted condition replaced by MtlsNotApplied.
  pub verify_mtls-Marked :
      (fingerprint_of : String → String) (mtls : Map NamespacedName MtlsResult)
      (vs : Map NamespacedName Verdict) (name : NamespacedName) (v : Verdict) (w : W)
      → lookup name vs ≡ some v
      → (ws : Map NamespacedName Verdict) × ((verify_mtls pangolin fingerprint_of mtls vs w).0
          ≡ ok ws)
        × (u : Verdict) × (lookup name ws ≡ some u)
        × Marked v u
  verify_mtls-Marked fingerprint_of mtls vs name v w h =
      let (ws, p, m) = verify_mtls-Confirms fingerprint_of mtls vs w in
      let (u, q, marked) = m name v h in (ws, p, u, q, marked)
