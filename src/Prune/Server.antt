-- ===== src/Prune/Server.antt =====
-- What the prune relies on of Pangolin (a service that is not part of the repository): a section is
-- a table of rows, a listing shows the table, a deletion that succeeds takes out the row with that
-- number, and a call that fails changes nothing.
use mathlib.Core.List.{Memᴰ}
use pangolin_gateway.Prelude.{
  ==_of_ne, Bool-cases, List, String, [], ap, arith, false, if◌then◌else◌, inl, inr, none, ok, some,
  ℕ, ◌==◌, ◌∙◌, ◌∷◌, ◌≡◌, ◌≢◌, All, All-Memᴰ, sym, nat_eq,
}
use pangolin_gateway.Blueprint.{Resource}
use pangolin_gateway.Prune.{SectionApi}

unfoldable pub without : ℕ → List Resource → List Resource
without id [] = []
without id (r ∷ rs) = let rest = without id rs in if r.resource_id == id then rest else r ∷ rest

pub Memᴰ-without :
    (id : ℕ) (r : Resource) (rs : List Resource)
    → Memᴰ r (without id rs)
    → Memᴰ r rs × (r.resource_id ≢ id)
unfolding without
Memᴰ-without id r [] m = elim m [ ]
Memᴰ-without id r (x ∷ rs) m = elim (Bool-cases (x.resource_id == id)) [
  | inl gone ↦ let (n, h) = Memᴰ-without id r rs (rw (gone, without) at m) in (Memᴰ.tail n, h)
  | inr kept ↦ go (rw (kept, without) at m) kept (Memᴰ-without id r rs)
]
  where
    go :
        Memᴰ r (x ∷ without id rs)
        → (x.resource_id == id) ≡ false
        → (Memᴰ r (without id rs) → Memᴰ r rs × (r.resource_id ≢ id))
        → Memᴰ r (x ∷ rs) × (r.resource_id ≢ id)
    go (Memᴰ.head e) kept rest =
        (Memᴰ.head e, λ h. ground (arith, ap (λ (y : Resource). y.resource_id) e))
    go (Memᴰ.tail n) kept rest = let (k, h) = rest n in (Memᴰ.tail k, h)

pub without-Memᴰ :
    (id : ℕ) (r : Resource) (rs : List Resource)
    → Memᴰ r rs
    → r.resource_id ≢ id
    → Memᴰ r (without id rs)
unfolding without
without-Memᴰ id r [] m h = elim m [ ]
without-Memᴰ id r (x ∷ rs) (Memᴰ.head e) h =
    rw (==_of_ne x.resource_id id (λ q. h (ap (λ (y : Resource). y.resource_id) e ∙ q)))
      (Memᴰ.head e)
without-Memᴰ id r (x ∷ rs) (Memᴰ.tail m) h = elim (Bool-cases (x.resource_id == id)) [
  | inl gone ↦ rw gone (without-Memᴰ id r rs m h)
  | inr kept ↦ rw kept (Memᴰ.tail (without-Memᴰ id r rs m h))
]

module _ {W : Type 0} where
  pub record Server (api : SectionApi W) : Type 0 where
    pub rows : W → List Resource
    pub list_shows : (w : W) (live : List Resource) → (api.list w).0 ≡ ok live → live ≡ rows w
    pub list_reads : (w : W) → rows (api.list w).1 ≡ rows w
    pub deletes :
        (id : ℕ) (w : W) → (api.del id w).0 ≡ none → rows (api.del id w).1 ≡ without id (rows w)
    pub refuses :
        (id : ℕ) (w : W) (e : String) → (api.del id w).0 ≡ some e → rows (api.del id w).1 ≡ rows w

-- A number names one row.
abbrev pub UniqueIds : List Resource → Type 0
UniqueIds [] = Unit
UniqueIds (r ∷ rs) = All (λ s. r.resource_id ≢ s.resource_id) rs × UniqueIds rs

pub unique_row :
    (rs : List Resource) (a b : Resource)
    → UniqueIds rs
    → Memᴰ a rs
    → Memᴰ b rs
    → a.resource_id ≡ b.resource_id
    → a ≡ b
unique_row [] a b u m n e = elim m [ ]
unique_row (x ∷ xs) a b u (Memᴰ.head p) (Memᴰ.head q) e = p ∙ sym q
unique_row (x ∷ xs) a b (h, u) (Memᴰ.head p) (Memᴰ.tail n) e =
    absurd (All-Memᴰ _ xs h b n (sym (ap (λ (r : Resource). r.resource_id) p) ∙ e))
unique_row (x ∷ xs) a b (h, u) (Memᴰ.tail m) (Memᴰ.head q) e =
    absurd (All-Memᴰ _ xs h a m (sym (ap (λ (r : Resource). r.resource_id) q) ∙ sym e))
unique_row (x ∷ xs) a b (h, u) (Memᴰ.tail m) (Memᴰ.tail n) e = unique_row xs a b u m n e
