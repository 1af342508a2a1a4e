-- ===== src/Status/Settled.antt =====
-- internal/gateway/status.go: what the loops of SetRouteStatus leave behind, and that they change
-- nothing of it when they run once more.
use pangolin_gateway.Prelude.{
  ==_refl, All, Bool, Bool-cases, List, String, [], contains, false, inl, inr, not, refl, true,
  ◌&&◌, ◌==◌, ◌||◌, ◌∷◌, ◌≡◌, ◌≢◌, string_eq,
}
use pangolin_gateway.Api.{Condition, ParentReference, RouteParentStatus}
use pangolin_gateway.Order.{First}
use pangolin_gateway.Status.{
  is_ours, ref_key, retained, set_conditions, settle_parent, settle_parents, verdict_conditions,
}
use pangolin_gateway.Verdict.{Verdict}

-- What the code relies on of meta.SetStatusCondition: setting a condition that is set changes
-- nothing, nor does setting it after a condition of another type was set.
pub record Idempotent (set_condition : List Condition → Condition → List Condition × Bool)
    : Type 0 where
  pub again :
      (cs : List Condition) (c : Condition)
      → set_condition (set_condition cs c).0 c ≡ ((set_condition cs c).0, false)
  pub apart :
      (cs : List Condition) (c d : Condition)
      → c.typ ≢ d.typ
      → set_condition cs c ≡ (cs, false)
      → set_condition (set_condition cs d).0 c ≡ ((set_condition cs d).0, false)

module _ (set_condition : List Condition → Condition → List Condition × Bool)
    (law : Idempotent set_condition) where
  pub set_one_again :
      (cs : List Condition) (c : Condition)
      → set_conditions set_condition (set_conditions set_condition cs (c ∷ [])).0 (c ∷ [])
        ≡ ((set_conditions set_condition cs (c ∷ [])).0, false)
  unfolding set_conditions
  set_one_again cs c = rw (law.again cs c) refl

  -- Two conditions of different types that are set are not set again.
  pub set_pair_again :
      (cs : List Condition) (c d : Condition)
      → c.typ ≢ d.typ
      → set_conditions set_condition (set_conditions set_condition cs (c ∷ d ∷ [])).0 (c ∷ d ∷ [])
        ≡ ((set_conditions set_condition cs (c ∷ d ∷ [])).0, false)
  unfolding set_conditions
  set_pair_again cs c d h =
      let once = (set_condition cs c).0 in
      rw (law.apart once c d h (law.again cs c)) (rw (law.again once d) refl)

module _ (controller namespace : String) where
  -- The test of the first loop: another controller's entry, or one of a wanted parent.
  abbrev pub stays : List String → RouteParentStatus → Bool
  stays wanted ps =
      not (is_ours controller namespace ps) || contains wanted (ref_key ps.parent_ref namespace)

  pub retained-All :
      (wanted : List String) (parents : List RouteParentStatus)
      → All (λ ps. stays wanted ps ≡ true) (retained controller namespace wanted parents).0
  unfolding retained
  retained-All wanted [] = tt
  retained-All wanted (ps ∷ rest) = elim (Bool-cases (stays wanted ps)) [
    | inl kept ↦ rw kept (kept, retained-All wanted rest)
    | inr gone ↦ rw gone (retained-All wanted rest)
  ]

  pub retained_lem :
      (wanted : List String) (parents : List RouteParentStatus)
      → All (λ ps. stays wanted ps ≡ true) parents
      → retained controller namespace wanted parents ≡ (parents, false)
  unfolding retained
  retained_lem wanted [] h = refl
  retained_lem wanted (ps ∷ rest) (kept, h) = rw (kept, retained_lem wanted rest h) refl

  -- Our entry of the parent with this key.
  abbrev pub is_entry : String → RouteParentStatus → Bool
  is_entry key ps = is_ours controller namespace ps && ref_key ps.parent_ref namespace == key

module _ (set_condition : List Condition → Condition → List Condition × Bool)
    (controller namespace : String) (v : Verdict) where
  -- The verdict's conditions are set: to set them again changes nothing.
  abbrev pub Told : List Condition → Type 0
  Told conditions =
      set_conditions set_condition conditions (verdict_conditions set_condition v)
      ≡ (conditions, false)

  -- The first entry of ours for this parent has the verdict's conditions.
  abbrev pub Reports : String → List RouteParentStatus → Type 0
  Reports key = First (is_entry controller namespace key) (λ ps. Told ps.conditions)

module _ (set_condition : List Condition → Condition → List Condition × Bool)
    (law : Idempotent set_condition) (controller namespace : String) (v : Verdict) where
  set_conditions-Told :
      (cs : List Condition)
      → Told set_condition controller namespace v
          (set_conditions set_condition cs (verdict_conditions set_condition v)).0
  set_conditions-Told cs = set_pair_again set_condition law cs _ _ (λ e. cc)

  settle_parent-Reports :
      (ref : ParentReference) (l : List RouteParentStatus)
      → Reports set_condition controller namespace v
          (ref_key ref namespace)
          (settle_parent set_condition controller namespace v ref l).0
  unfolding settle_parent
  settle_parent-Reports ref [] =
      First.here (rw (==_refl controller, ==_refl (ref_key ref namespace)) refl)
        (set_conditions-Told [])
  settle_parent-Reports ref (ps ∷ rest) =
      elim (Bool-cases (is_entry controller namespace (ref_key ref namespace) ps)) [
        | inl found ↦ rw found (First.here found (set_conditions-Told ps.conditions))
        | inr other ↦ rw other (First.there other (settle_parent-Reports ref rest))
      ]

  Reports-settle_parent :
      (ref : ParentReference) (key : String) (l : List RouteParentStatus)
      → Reports set_condition controller namespace v key l
      → Reports set_condition controller namespace v key
          (settle_parent set_condition controller namespace v ref l).0
  unfolding settle_parent
  Reports-settle_parent ref key [] w = elim w [ ]
  Reports-settle_parent ref key (ps ∷ rest) (First.here e h) =
      elim (Bool-cases (is_entry controller namespace (ref_key ref namespace) ps)) [
        | inl found ↦ rw found (First.here e (set_conditions-Told ps.conditions))
        | inr other ↦ rw other (First.here e h)
      ]
  Reports-settle_parent ref key (ps ∷ rest) (First.there e w) =
      elim (Bool-cases (is_entry controller namespace (ref_key ref namespace) ps)) [
        | inl found ↦ rw found (First.there e w)
        | inr other ↦ rw other (First.there e (Reports-settle_parent ref key rest w))
      ]

  settle_parent_lem :
      (ref : ParentReference) (l : List RouteParentStatus)
      → Reports set_condition controller namespace v (ref_key ref namespace) l
      → settle_parent set_condition controller namespace v ref l ≡ (l, false)
  unfolding settle_parent
  settle_parent_lem ref [] w = elim w [ ]
  settle_parent_lem ref (ps ∷ rest) (First.here e h) =
      rw e (λ i. (record ps { conditions = (h i).0 } ∷ rest, (h i).1))
  settle_parent_lem ref (ps ∷ rest) (First.there e w) = rw (e, settle_parent_lem ref rest w) refl

  -- Each wanted parent has its entry after the second loop.
  Reports-settle_parents :
      (key : String) (refs : List ParentReference) (l : List RouteParentStatus)
      → Reports set_condition controller namespace v key l
      → Reports set_condition controller namespace v key
          (settle_parents set_condition controller namespace v refs l).0
  unfolding settle_parents
  Reports-settle_parents key [] l w = w
  Reports-settle_parents key (ref ∷ refs) l w =
      Reports-settle_parents key refs _ (Reports-settle_parent ref key l w)

  pub settle_parents-Reports :
      (refs : List ParentReference) (l : List RouteParentStatus)
      → All
          (λ ref.
            Reports set_condition controller namespace v
              (ref_key ref namespace)
              (settle_parents set_condition controller namespace v refs l).0)
          refs
  unfolding settle_parents
  settle_parents-Reports [] l = tt
  settle_parents-Reports (ref ∷ refs) l = (
    Reports-settle_parents (ref_key ref namespace) refs _ (settle_parent-Reports ref l),
    settle_parents-Reports refs _,
  )

  pub settle_parents_lem :
      (refs : List ParentReference) (l : List RouteParentStatus)
      → All (λ ref. Reports set_condition controller namespace v (ref_key ref namespace) l) refs
      → settle_parents set_condition controller namespace v refs l ≡ (l, false)
  unfolding settle_parents
  settle_parents_lem [] l h = refl
  settle_parents_lem (ref ∷ refs) l (w, h) =
      rw (settle_parent_lem ref l w, settle_parents_lem refs l h) refl

  -- The second loop makes no entry that the first one would drop.
  settle_parent-stays :
      (wanted : List String) (ref : ParentReference) (l : List RouteParentStatus)
      → contains wanted (ref_key ref namespace) ≡ true
      → All (λ ps. stays controller namespace wanted ps ≡ true) l
      → All
          (λ ps. stays controller namespace wanted ps ≡ true)
          (settle_parent set_condition controller namespace v ref l).0
  unfolding settle_parent
  settle_parent-stays wanted ref [] named h = (rw (==_refl controller, named) refl, tt)
  settle_parent-stays wanted ref (ps ∷ rest) named (kept, h) =
      elim (Bool-cases (is_entry controller namespace (ref_key ref namespace) ps)) [
        | inl found ↦ rw found (kept, h)
        | inr other ↦ rw other (kept, settle_parent-stays wanted ref rest named h)
      ]

  pub settle_parents-stays :
      (wanted : List String) (refs : List ParentReference) (l : List RouteParentStatus)
      → All (λ ref. contains wanted (ref_key ref namespace) ≡ true) refs
      → All (λ ps. stays controller namespace wanted ps ≡ true) l
      → All
          (λ ps. stays controller namespace wanted ps ≡ true)
          (settle_parents set_condition controller namespace v refs l).0
  unfolding settle_parents
  settle_parents-stays wanted [] l _ h = h
  settle_parents-stays wanted (ref ∷ refs) l (named, others) h =
      settle_parents-stays wanted refs _ others (settle_parent-stays wanted ref l named h)
