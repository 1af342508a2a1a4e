-- ===== src/Collisions/Winners.antt =====
-- Among the winners each key and, within a section, each hostname has one owner; and a candidate
-- whose verdict names no reason is a winner.
use mathlib.Core.List.Memᴰ
use mathlib.Core.List.{Memᴰ}
use pangolin_gateway.Prelude.{
  ==_of_ne, ==_refl, All-Memᴰ, List, Option-cases, String, [], ap, arith, contains, inl, inr, none,
  refl, some, subst, sym, true, ◌++◌, ◌∙◌, ◌∷◌, ◌≡◌, ◌≢◌, string_eq,
}
use pangolin_gateway.Collisions.{Candidate, Outcome, Rendered, is_public, claimant_eq}
use pangolin_gateway.Collisions.Owners.{first_owned-none, owner_of_host-append, owner_of_key-append}
use pangolin_gateway.Collisions.Reference.{
  DistinctClaimants, first_owned, in_section, joined, lowered, owner_of_host, owner_of_key,
  verdict_against, verdicts, winners,
}
use pangolin_gateway.Collisions.Refinement.{joined-lost, joined-won, verdict_against-won}
use pangolin_gateway.Map.{lookup}

-- Every winner owns its key and its hostnames.
abbrev pub Owned : List Candidate → Type 0
Owned ws =
    (w : Candidate)
    → Memᴰ w ws
    → (owner_of_key w.entry.key ws ≡ some w.claimant)
      × ((h : String)
          → contains (lowered w.entry) h ≡ true
          → owner_of_host (is_public w.entry) h ws ≡ some w.claimant)

in_section_self : (e : Rendered) → in_section (is_public e) e ≡ true
in_section_self e = ground arith

Owned-append :
    (ws : List Candidate) (c : Candidate)
    → Owned ws
    → owner_of_key c.entry.key ws ≡ none
    → first_owned (is_public c.entry) c.entry.hostnames ws ≡ none
    → Owned (ws ++ (c ∷ []))
Owned-append ws c own free_key free_hosts w m = elim (Memᴰ.append_cases ws m) [
  | inl old ↦ (
    ground (arith, owner_of_key-append w.entry.key ws c, (own w old).0),
    λ h q. ground (arith, owner_of_host-append (is_public w.entry) h ws c, (own w old).1 h),
  )
  | inr new ↦
      let e : w ≡ c = Memᴰ.eq_of_singleton new in
      rw e (
        ground (arith, owner_of_key-append c.entry.key ws c, ==_refl c.entry.key),
        λ h q. ground (
          arith,
          owner_of_host-append (is_public c.entry) h ws c,
          first_owned-none (is_public c.entry) c.entry.hostnames ws h,
          in_section_self c.entry,
        ),
      )
]

Owned-joined : (ws : List Candidate) (c : Candidate) → Owned ws → Owned (joined ws c)
Owned-joined ws c own = elim (Option-cases (verdict_against ws c).rejected) [
  | inl free ↦
      let (free_key, free_hosts, _) = verdict_against-won ws c free in
      rw (joined-won ws c free) (Owned-append ws c own free_key free_hosts)
  | inr (reason, refused) ↦ rw (joined-lost ws c refused) own
]

pub Owned-winners : (cs ws : List Candidate) → Owned ws → Owned (winners ws cs)
unfolding winners
Owned-winners [] ws own = own
Owned-winners (c ∷ cs) ws own = Owned-winners cs (joined ws c) (Owned-joined ws c own)

Memᴰ-joined :
    (w : Candidate) (ws : List Candidate) (c : Candidate) → Memᴰ w ws → Memᴰ w (joined ws c)
Memᴰ-joined w ws c m = elim (Option-cases (verdict_against ws c).rejected) [
  | inl free ↦ rw (joined-won ws c free) (Memᴰ.append_left (c ∷ []) m)
  | inr (reason, refused) ↦ rw (joined-lost ws c refused) m
]

pub Memᴰ-winners : (w : Candidate) (cs ws : List Candidate) → Memᴰ w ws → Memᴰ w (winners ws cs)
unfolding winners
Memᴰ-winners w [] ws m = m
Memᴰ-winners w (c ∷ cs) ws m = Memᴰ-winners w cs (joined ws c) (Memᴰ-joined w ws c m)

pub lookup-verdicts_head :
    (c : Candidate) (cs ws : List Candidate)
    → lookup c.claimant (verdicts ws (c ∷ cs)) ≡ some (verdict_against ws c)
unfolding verdicts lookup
lookup-verdicts_head c cs ws = rw (==_refl c.claimant)

pub lookup-verdicts_tail :
    (c d : Candidate) (cs ws : List Candidate)
    → d.claimant ≢ c.claimant
    → lookup c.claimant (verdicts ws (d ∷ cs)) ≡ lookup c.claimant (verdicts (joined ws d) cs)
unfolding verdicts lookup
lookup-verdicts_tail c d cs ws h = rw (==_of_ne d.claimant c.claimant h)

-- A candidate that is not rejected is a winner.
pub winner_of_verdict :
    (c : Candidate) (cs ws : List Candidate) (o : Outcome)
    → DistinctClaimants cs
    → Memᴰ c cs
    → lookup c.claimant (verdicts ws cs) ≡ some o
    → o.rejected ≡ none
    → Memᴰ c (winners ws cs)
unfolding winners
winner_of_verdict c [] ws o d m h free = elim m [ ]
winner_of_verdict c (x ∷ xs) ws o (apart, d) (Memᴰ.head e) h free =
    let found : some (verdict_against ws c) ≡ some o =
      sym (lookup-verdicts_head c xs ws)
      ∙ subst (λ (y : Candidate). lookup c.claimant (verdicts ws (y ∷ xs)) ≡ some o) (sym e) h in
    let same : verdict_against ws c ≡ o = cc in
    let won : (verdict_against ws c).rejected ≡ none =
      ap (λ (v : Outcome). v.rejected) same ∙ free in
    rw (← e) (
      Memᴰ-winners c xs (joined ws c)
        (rw (joined-won ws c won) (Memᴰ.append_right ws (Memᴰ.head refl))))
winner_of_verdict c (x ∷ xs) ws o (apart, d) (Memᴰ.tail m) h free =
    winner_of_verdict c xs (joined ws x) o d m
      (sym (lookup-verdicts_tail c x xs ws (All-Memᴰ _ xs apart c m)) ∙ h) free
