-- ===== src/Examples/Prune.antt =====
-- Tests and instances for the prune, over a server that is a table and never fails.
use mathlib.Core.List.{Memᴰ}
use pangolin_gateway.Prelude.{
  Bool, List, String, [], arith, err, false, none, ok, refl, subst, sym, true, ℕ, ◌∷◌, ◌≡◌, ◌≢◌,
  some, Option, Result, inl, string_eq, nat_eq,
}
use pangolin_gateway.Blueprint.{Resource}
use pangolin_gateway.Map.{Map, has_key}
use pangolin_gateway.Prune.{Pass, SectionApi, join_errors, prune_section, prune_skipped_total}
use pangolin_gateway.Prune.Guarantees.{
  IsKept, prune_section_complete, prune_section-keeps, prune_section-list_failed,
}
use pangolin_gateway.Prune.Server.{Server, UniqueIds, without}
use pangolin_gateway.Text.{has_prefix}

ok-injective : (v w : List Resource) → ◌≡◌ {A = Result String (List Resource)} (ok v) (ok w) → w ≡ v
ok-injective v w e = cc

err-ne-ok :
    {m : String} {w : List Resource} → ◌≡◌ {A = Result String (List Resource)} (err m) (ok w) → ⊥
err-ne-ok e = cc

none-ne-some : {m : String} → ◌≡◌ {A = Option String} none (some m) → ⊥
none-ne-some e = cc

abbrev table_api : SectionApi (List Resource)
table_api = record { list = λ w. (ok w, w); del = λ id w. (none, without id w) }

abbrev table_server : Server table_api
table_server = record {
  rows = λ w. w;
  list_shows = λ w live e. ok-injective w live e;
  list_reads = λ w. refl;
  deletes = λ id w e. refl;
  refuses = λ id w message e. absurd (none-ne-some e);
}

abbrev broken_api : SectionApi (List Resource)
broken_api = record { list = λ w. (err "timeout", w); del = λ id w. (none, without id w) }

abbrev broken_server : Server broken_api
broken_server = record {
  rows = λ w. w;
  list_shows = λ w live e. absurd (err-ne-ok e);
  list_reads = λ w. refl;
  deletes = λ id w e. refl;
  refuses = λ id w message e. absurd (none-ne-some e);
}

abbrev row : ℕ → String → Resource
row id key = record { resource_id = id; nice_id = key }

abbrev live : List Resource
live = row 1 "gw-demo-web" ∷ row 2 "gw-demo-old" ∷ row 3 "by-hand" ∷ []

abbrev start : Pass (List Resource)
start = record { world = live; metrics = [] }

abbrev wanted : Map String Bool
wanted = ("gw-demo-web", true) ∷ []

-- The orphan goes; the wanted row and the foreign row stay.
pruned_rows :
    (prune_section "public" wanted table_api false start).0.world
    ≡ row 1 "gw-demo-web" ∷ row 3 "by-hand" ∷ []
unfolding prune_section without has_prefix has_key
pruned_rows = refl

clean : (prune_section "public" wanted table_api false start).1 ≡ none
unfolding prune_section without has_prefix has_key join_errors
clean = refl

by_hand : IsKept wanted (row 3 "by-hand")
unfolding has_prefix
by_hand = inl refl

live_unique : UniqueIds live
live_unique = omega arith

prune_section-keeps_example :
    Memᴰ (row 3 "by-hand") (prune_section "public" wanted table_api false start).0.world
prune_section-keeps_example =
    prune_section-keeps table_api table_server "public" wanted start false (row 3 "by-hand")
      live_unique (Memᴰ.tail (Memᴰ.tail (Memᴰ.head refl))) by_hand

prune_section_complete_example :
    Memᴰ (row 1 "gw-demo-web") live × IsKept wanted (row 1 "gw-demo-web")
prune_section_complete_example =
    prune_section_complete table_api table_server "public" wanted start (row 1 "gw-demo-web") clean
      (subst (Memᴰ (row 1 "gw-demo-web")) (sym pruned_rows) (Memᴰ.head refl))

failed_listing :
    ((prune_section "public" wanted broken_api false start).0.world ≡ live)
    × ((prune_section "public" wanted broken_api false start).1 ≢ none)
    × ((prune_section "public" wanted broken_api false start).0.metrics
        ≡ prune_skipped_total "list_failed" "public" ∷ [])
failed_listing =
    prune_section-list_failed broken_api broken_server "public" wanted start false "timeout" refl
