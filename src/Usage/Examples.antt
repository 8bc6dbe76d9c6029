-- ===== src/Usage/Examples.antt =====
-- Names that are numbers, with zero for the empty one.
use wyoming_vietnamese.Common.{take, ℕ, ◌≡◌, refl, Bool, true, false, List, [], ◌∷◌, ℕ_discrete}
use wyoming_vietnamese.Usage.{
  max_recent_voices, unique, without, names_of, get_recent, record_voice, record_all,
}
use wyoming_vietnamese.Usage.History.{written_names, get_recent-record_all}

-- From the last one to the first; the record of 3 fails.
abbrev some_history : List (Bool × ℕ)
some_history = (true, 1) ∷ (true, 0) ∷ (false, 3) ∷ (true, 2) ∷ (true, 1) ∷ []

run_history : get_recent ℕ_discrete 0 (record_all ℕ_discrete 0 some_history) ≡ 1 ∷ 2 ∷ []
unfolding get_recent record_all record_voice unique without names_of ℕ_discrete
run_history = refl

get_recent-record_all_example :
    get_recent ℕ_discrete 0 (record_all ℕ_discrete 0 some_history)
    ≡ take max_recent_voices (unique ℕ_discrete (written_names ℕ_discrete 0 some_history))
get_recent-record_all_example = get_recent-record_all ℕ_discrete 0 some_history
