-- ===== src/Voices/Examples.antt =====
-- Two engines of at most two, and voices that are numbers.
use wyoming_vietnamese.Common.{
  ℕ, ◌+◌, ◌≡◌, refl, false, Option, none, some, List, [], ◌∷◌, arith, ℕ_discrete,
}
use wyoming_vietnamese.Voices.{
  Voices, take_engine, is_known, make_room, Outside, engine_for, requests,
}
use wyoming_vietnamese.Voices.Capacity.{IsSound, IsGiven, requests-IsSound}

abbrev two_loaded : Voices ℕ ℕ
two_loaded = record {
  engines = (1, 10) ∷ (2, 20) ∷ [];
  all_voices = 1 ∷ 2 ∷ 3 ∷ [];
  default_voice_name = 1;
  max_loaded = 2;
  min_replacement_interval = 1000;
  last_replacement = 0;
  closed = [];
  acquired = 2;
}

abbrev at : ℕ → Outside ℕ
at time = record { busy = false; now = time; later = time + 5; loaded = some 30 }

-- The default voice is used, and then the third one is loaded in place of the second.
abbrev some_requests : List (Option ℕ × Outside ℕ)
some_requests = (none, at 7) ∷ (some 3, at 9) ∷ []

run_requests : (requests ℕ_discrete two_loaded some_requests).engines ≡ (1, 10) ∷ (3, 30) ∷ []
unfolding requests engine_for take_engine is_known make_room ℕ_discrete
run_requests = refl

two_loaded-IsSound : IsSound ℕ_discrete two_loaded
two_loaded-IsSound = record { positive = omega arith; few = omega arith; accounted = omega arith }

requests-IsSound_example :
    IsSound ℕ_discrete (requests ℕ_discrete two_loaded some_requests)
    × ((requests ℕ_discrete two_loaded some_requests).max_loaded ≡ 2)
    × IsGiven ℕ_discrete
        (requests ℕ_discrete two_loaded some_requests)
        (some 2)
        (engine_for ℕ_discrete (requests ℕ_discrete two_loaded some_requests) (some 2) (at 20))
requests-IsSound_example =
    requests-IsSound ℕ_discrete two_loaded some_requests (some 2) (at 20) two_loaded-IsSound
