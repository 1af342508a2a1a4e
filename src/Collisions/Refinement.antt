-- ===== src/Collisions/Refinement.antt =====
-- The maps of owners answer as the list of winners does, so the loop refines the reference.
use text.Mathlib.TextEquality.{eq_iff}
use pangolin_gateway.Prelude.{
  ◌≡◌, refl, ap, ◌∙◌, Bool, true, false, none, some, List, [], ◌∷◌, ◌++◌, String, Option-cases, inl,
  inr, arith, string_eq,
}
use pangolin_gateway.Collisions.{
  Candidate, Outcome, Award, is_public, won, first_claimed, host_owner, publish, claim, judge,
  settle, award, award_all, conclude, claimant_eq,
}
use pangolin_gateway.Collisions.Owners.{
  first_owned-none, lookup-claim_hosts, owner_of_host-append, owner_of_key-append,
  private_of-append, private_of_free, public_of-append, public_of_free,
}
use pangolin_gateway.Collisions.Reference.{
  owner_of_key, owner_of_host, first_owned, verdict_against, joined, winners, public_of, private_of,
  private_part,
}
use pangolin_gateway.Map.{lookup, lookup-insert}
use pangolin_gateway.Text.{to_lower}
use pangolin_gateway.Verdict.{ConditionResult}

-- The maps of owners of a state answer as the winners do.
pub record Tracks (s : Award) (ws : List Candidate) : Type 0 where
  pub keys : (k : String) → lookup k s.key_owner ≡ owner_of_key k ws
  pub hosts : (b : Bool) (h : String) → lookup h (host_owner b s) ≡ owner_of_host b h ws
  pub publics : (k : String) → lookup k s.public_resources ≡ public_of k ws
  pub privates : (k : String) → lookup k s.private_resources ≡ private_of k ws

pub first_claimed-eq-first_owned :
    (b : Bool) (hs : List String) (s : Award) (ws : List Candidate)
    → Tracks s ws
    → first_claimed hs (host_owner b s) ≡ first_owned b hs ws
unfolding first_claimed first_owned
first_claimed-eq-first_owned b [] s ws t = refl
first_claimed-eq-first_owned b (h ∷ hs) s ws t =
    ground (arith, t.hosts b (to_lower h), first_claimed-eq-first_owned b hs s ws t)

pub judge-eq-verdict_against :
    (c : Candidate) (s : Award) (ws : List Candidate)
    → Tracks s ws
    → judge c s ≡ verdict_against ws c
unfolding judge verdict_against
judge-eq-verdict_against c s ws t = ground (
  arith,
  t.keys c.entry.key,
  first_claimed-eq-first_owned (is_public c.entry) c.entry.hostnames s ws t,
)

module _ (c : Candidate) (s : Award) (ws : List Candidate) (t : Tracks s ws)
    (free_key : owner_of_key c.entry.key ws ≡ none)
    (free_hosts : first_owned (is_public c.entry) c.entry.hostnames ws ≡ none) where
  abbrev pub after : Award
  after = conclude c (won c.entry.key) (publish c.entry (claim c s))

  after-keys : (k : String) → lookup k after.key_owner ≡ owner_of_key k (ws ++ (c ∷ []))
  unfolding publish claim
  after-keys k = ground (
    arith,
    t.keys k,
    owner_of_key-append k ws c,
    lookup-insert c.entry.key k c.claimant s.key_owner,
    eq_iff c.entry.key k,
  )

  after-hosts :
      (b : Bool) (h : String) → lookup h (host_owner b after) ≡ owner_of_host b h (ws ++ (c ∷ []))
  unfolding publish claim
  after-hosts b h = ground (
    arith,
    t.hosts b h,
    owner_of_host-append b h ws c,
    lookup-claim_hosts c.claimant c.entry.hostnames (host_owner (is_public c.entry) s) h,
    first_owned-none (is_public c.entry) c.entry.hostnames ws h,
  )

  after-publics : (k : String) → lookup k after.public_resources ≡ public_of k (ws ++ (c ∷ []))
  unfolding publish claim
  after-publics k = elim (Option-cases c.entry.public) [
    | inl absent ↦
        ground
          (arith, t.publics k, public_of-append k ws c, public_of_free k ws, eq_iff c.entry.key k)
    | inr (r, present) ↦ ground (
      arith,
      t.publics k,
      public_of-append k ws c,
      public_of_free k ws,
      lookup-insert c.entry.key k r s.public_resources,
      eq_iff c.entry.key k,
    )
  ]

  after-privates : (k : String) → lookup k after.private_resources ≡ private_of k (ws ++ (c ∷ []))
  unfolding publish claim
  after-privates k = elim (Option-cases (private_part c.entry)) [
    | inl absent ↦
        ground (
          arith,
          t.privates k,
          private_of-append k ws c,
          private_of_free k ws,
          eq_iff c.entry.key k,
        )
    | inr (r, present) ↦ ground (
      arith,
      t.privates k,
      private_of-append k ws c,
      private_of_free k ws,
      lookup-insert c.entry.key k r s.private_resources,
      eq_iff c.entry.key k,
    )
  ]

  after-Tracks : Tracks after (ws ++ (c ∷ []))
  after-Tracks = record {
    keys = after-keys;
    hosts = after-hosts;
    publics = after-publics;
    privates = after-privates;
  }

-- A candidate without a reason for rejection found its key and its hostnames free.
pub verdict_against-won :
    (ws : List Candidate) (c : Candidate)
    → (verdict_against ws c).rejected ≡ none
    → (owner_of_key c.entry.key ws ≡ none)
      × (first_owned (is_public c.entry) c.entry.hostnames ws ≡ none)
      × (verdict_against ws c ≡ won c.entry.key)
unfolding verdict_against
verdict_against-won ws c h = ground arith

pub joined-won :
    (ws : List Candidate) (c : Candidate)
    → (verdict_against ws c).rejected ≡ none
    → joined ws c ≡ ws ++ (c ∷ [])
unfolding joined
joined-won ws c h = ground arith

pub joined-lost :
    (ws : List Candidate) (c : Candidate) {reason : ConditionResult}
    → (verdict_against ws c).rejected ≡ some reason
    → joined ws c ≡ ws
unfolding joined
joined-lost ws c h = ground arith

pub settle-lost :
    (c : Candidate) (o : Outcome) (s : Award) {reason : ConditionResult}
    → o.rejected ≡ some reason
    → settle c o s ≡ conclude c o s
settle-lost c o s h = ground arith

pub conclude-Tracks :
    (c : Candidate) (o : Outcome) (s : Award) (ws : List Candidate)
    → Tracks s ws
    → Tracks (conclude c o s) ws
conclude-Tracks c o s ws t = record {
  keys = t.keys;
  hosts = elim [ true ↦ t.hosts true | false ↦ t.hosts false ];
  publics = t.publics;
  privates = t.privates;
}

-- One round keeps the maps in step with the winners.
pub award-Tracks :
    (c : Candidate) (s : Award) (ws : List Candidate)
    → Tracks s ws
    → Tracks (award s c) (joined ws c)
unfolding award
award-Tracks c s ws t = elim (Option-cases (verdict_against ws c).rejected) [
  | inl free ↦
      let (free_key, free_hosts, verdict) = verdict_against-won ws c free in
      rw (joined-won ws c free) (
        rw (judge-eq-verdict_against c s ws t ∙ verdict)
          (after-Tracks c s ws t free_key free_hosts))
  | inr (reason, refused) ↦
      let same : judge c s ≡ verdict_against ws c = judge-eq-verdict_against c s ws t in
      let lost : settle c (judge c s) s ≡ conclude c (judge c s) s =
        settle-lost c (judge c s) s (ap (λ (o : Outcome). o.rejected) same ∙ refused) in
      rw (joined-lost ws c refused) (rw lost (conclude-Tracks c (judge c s) s ws t))
]

pub award_all-Tracks :
    (cs : List Candidate) (s : Award) (ws : List Candidate)
    → Tracks s ws
    → Tracks (award_all s cs) (winners ws cs)
unfolding award_all winners
award_all-Tracks [] s ws t = t
award_all-Tracks (c ∷ cs) s ws t =
    award_all-Tracks cs (award s c) (joined ws c) (award-Tracks c s ws t)
