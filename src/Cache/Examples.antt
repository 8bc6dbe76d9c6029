-- ===== src/Cache/Examples.antt =====
-- A small cache: two entries of at most 40 bytes each, 60 bytes in all, idle for 100 ticks.
use wyoming_vietnamese.Common.{
  All, pos, negsuc, ok, ℕ, ◌≡◌, refl, Bool, true, some, List, [], ◌∷◌, arith, ℕ_discrete,
}
use wyoming_vietnamese.Cache.Entries.{Entry, sizes, pop, assign}
use wyoming_vietnamese.Cache.{Cache, init, get, put, prune, evict, is_live, prune_loop}
use wyoming_vietnamese.Cache.Eviction.{LongestFit, evict_lem}
use wyoming_vietnamese.Cache.Accounting.{IsValid}
use wyoming_vietnamese.Cache.Lookup.{put-IsValid}
use wyoming_vietnamese.Cache.Expiry.{IsOrdered, prune-live}
use wyoming_vietnamese.Cache.History.{Call, gets, puts, prunes, run, IsSound, run-init-IsSound}
use wyoming_vietnamese.Cache.RoundTrip.{get-put}

abbrev first : ℕ × Entry ℕ
first = (1, record { value = 10; size_bytes = 30; expires_at = some 105 })

abbrev second : ℕ × Entry ℕ
second = (2, record { value = 20; size_bytes = 20; expires_at = some 107 })

abbrev small : Cache ℕ ℕ
small = record {
  max_entries = 2;
  max_bytes = 60;
  max_item_bytes = 40;
  max_idle_seconds = 100;
  entries = first ∷ second ∷ [];
  total_bytes = 50;
}

small-IsValid : IsValid small
small-IsValid = record {
  counted = refl;
  few = omega arith;
  small = omega arith;
  fit = omega arith;
  distinct = omega arith;
}

small-IsOrdered : IsOrdered small 7
small-IsOrdered = record { sorted = omega arith; bounded = omega arith }

-- The oldest entry makes room for a third one.
third_evicts_first :
    put ℕ_discrete small 3 30 (pos 25) 8
    ≡ ok (
      record small {
        entries = second ∷ (3, record { value = 30; size_bytes = 25; expires_at = some 108 }) ∷ [];
        total_bytes = 45;
      },
      true,
    )
unfolding put prune prune_loop evict pop assign ℕ_discrete
third_evicts_first = refl

evict_lem_example :
    (d' : List (ℕ × Entry ℕ)) × (evict 1 60 (first ∷ second ∷ []) 50 ≡ ok (d', sizes d'))
    × LongestFit 1 60 (first ∷ second ∷ []) d'
evict_lem_example = evict_lem 1 60 (first ∷ second ∷ []) 50 refl

put-IsValid_example :
    (c' : Cache ℕ ℕ) × (stored : Bool) × (put ℕ_discrete small 3 30 (pos 25) 8 ≡ ok (c', stored))
    × IsValid c'
put-IsValid_example = put-IsValid ℕ_discrete small 3 30 25 8 small-IsValid

prune-live_example :
    All (λ (i : ℕ × Entry ℕ). is_live 106 i.1.expires_at ≡ true) (prune small 106).0.entries
prune-live_example = prune-live small 106 small-IsValid small-IsOrdered.sorted (omega arith)

get-put_example :
    (c' : Cache ℕ ℕ) × (put ℕ_discrete small 3 30 (pos 25) 8 ≡ ok (c', true))
    × ((get ℕ_discrete c' 3 50).1 ≡ some 30)
get-put_example =
    get-put ℕ_discrete small 3 30 25 8 50 small-IsValid refl (omega arith) (omega arith) refl

abbrev session : List (ℕ × Call ℕ ℕ)
session = (1, puts 1 10 (pos 30)) ∷ (4, gets 1) ∷ (4, puts 2 20 (negsuc 0)) ∷ (200, prunes) ∷ []

abbrev fresh : Cache ℕ ℕ
fresh = record small { entries = []; total_bytes = 0 }

run-init-IsSound_example : IsSound ℕ_discrete (run ℕ_discrete fresh session) 200
unfolding init
run-init-IsSound_example =
    run-init-IsSound ℕ_discrete (pos 2) (pos 60) (pos 40) (pos 100) 0 session refl (omega arith)
