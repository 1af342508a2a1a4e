-- ===== src/Regex/Language.antt =====
-- The matcher decides the language that a pattern stands for.
use Prim.Native.String.{◌∷◌}
use Prim.Native.String
use Prim.Native.String.append
use pangolin_gateway.Prelude.{Bool, Char, String, code, true, ℕ, ◌≡◌, if◌then◌else◌}
use pangolin_gateway.Regex.{Regex, alt, class, empty, seq, star, deriv}

-- `s` belongs to the language of `r`.
pub data Matches : Regex → String → Type 0 where
  m_empty : {s : String} → s ≡ "" → Matches empty s
  m_class :
      {p : ℕ → Bool} {s : String} (c : Char)
      → p (code c) ≡ true
      → s ≡ (c ∷ "")
      → Matches (class p) s
  m_seq :
      {r t : Regex} {s : String} (u v : String)
      → Matches r u
      → Matches t v
      → s ≡ String.◌++◌ u v
      → Matches (seq r t) s
  m_left : {r t : Regex} {s : String} → Matches r s → Matches (alt r t) s
  m_right : {r t : Regex} {s : String} → Matches t s → Matches (alt r t) s
  m_done : {r : Regex} {s : String} → s ≡ "" → Matches (star r) s
  m_more :
      {r : Regex} {s : String} (u v : String)
      → Matches r u
      → Matches (star r) v
      → s ≡ String.◌++◌ u v
      → Matches (star r) s

module _ (r t : Regex) (c : Char) where
  abbrev seq_deriv : Bool → Regex
  seq_deriv b =
      if b then alt (seq (deriv (code c) r) t) (deriv (code c) t) else seq (deriv (code c) r) t
