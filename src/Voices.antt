-- ===== src/Voices.antt =====
-- `LazyMultiVoiceTTSEngine` of wyoming_vietnamese/tts.py: the voices that it keeps loaded. An
-- `OrderedDict` is the list of its items, the least recently used first. Times are whole milliseconds
-- of the monotonic clock. `initialize_tts` is a parameter, with `none` for an exception; the engines
-- that were closed and the number of engines that were given or loaded are kept.
pub mod Capacity
mod Examples
use wyoming_vietnamese.Common.{
  ltb, leb, if◌then◌else◌, length, Result, value_error, runtime_error, ok, raise, ℕ, ◌+◌, ite, Bool,
  true, false, not, ◌&&◌, Option, none, some, List, [], ◌∷◌, ◌++◌,
}

pub record Voices (K E : Type 0) : Type 0 where
  pub engines : List (K × E)
  pub all_voices : List K
  pub default_voice_name : K
  pub max_loaded : ℕ
  pub min_replacement_interval : ℕ
  pub last_replacement : ℕ
  pub closed : List E
  pub acquired : ℕ

-- What one call meets: whether a worker is still running, the clock before and after the loading,
-- and what `initialize_tts` returns.
pub record Outside (E : Type 0) : Type 0 where
  pub busy : Bool
  pub now : ℕ
  pub later : ℕ
  pub loaded : Option E

unfoldable pub is_known : {K : Type 0} → Discrete K → List K → K → Bool
is_known dec [] name = false
is_known dec (k ∷ voices) name = ite (dec k name) true (is_known dec voices name)

abbrev pub put_back : {K E : Type 0} → K × E → Option (E × List (K × E)) → Option (E × List (K × E))
put_back item none = none
put_back item (some (found, rest)) = some (found, item ∷ rest)

module _ {K E : Type 0} (dec : Discrete K) where
  -- `self._engines[name]`, and the items without it.
  unfoldable pub take_engine : K → List (K × E) → Option (E × List (K × E))
  take_engine name [] = none
  take_engine name ((k, e) ∷ engines) =
      ite (dec k name) (some (e, engines)) (put_back (k, e) (take_engine name engines))

  -- `while len(self._engines) >= self._max_loaded`: what is kept, and what is evicted.
  unfoldable pub make_room : ℕ → List (K × E) → List (K × E) × List E
  make_room max_loaded [] = ([], [])
  make_room max_loaded ((k, e) ∷ engines) = elim (leb max_loaded (length ((k, e) ∷ engines))) [
    | true ↦ ((make_room max_loaded engines).0, e ∷ (make_room max_loaded engines).1)
    | false ↦ ((k, e) ∷ engines, [])
  ]

  abbrev pub too_soon : Voices K E → ℕ → Bool
  too_soon v now =
      leb v.max_loaded (length v.engines)
      && ltb 0 v.last_replacement
      && ltb now (v.last_replacement + v.min_replacement_interval)

  -- From the loop that unloads on.
  abbrev pub add_engine : Voices K E → K → E → ℕ → Voices K E
  add_engine v name e later =
      let room = make_room v.max_loaded v.engines in
      record v {
        engines = room.0 ++ ((name, e) ∷ []);
        closed = v.closed ++ room.1;
        last_replacement = later;
        acquired = v.acquired + 1;
      }

  abbrev pub loaded_or_error : Voices K E → K → ℕ → Option E → Result (E × Voices K E)
  loaded_or_error v name later none = raise runtime_error
  loaded_or_error v name later (some e) = ok (e, add_engine v name e later)

  abbrev pub find_or_load :
      Voices K E → K → Outside E → Option (E × List (K × E)) → Result (E × Voices K E)
  find_or_load v name o (some (e, rest)) = ok (e, record v { engines = rest ++ ((name, e) ∷ []) })
  find_or_load v name o none =
      if not (is_known dec v.all_voices name)
      then raise value_error
      else if o.busy
      then raise runtime_error
      else if too_soon v o.now
      then raise runtime_error
      else loaded_or_error v name o.later o.loaded

  abbrev pub name_or_default : Voices K E → Option K → K
  name_or_default v none = v.default_voice_name
  name_or_default v (some name) = name

  -- `_engine`
  unfoldable pub engine_for : Voices K E → Option K → Outside E → Result (E × Voices K E)
  engine_for v voice o =
      let name = name_or_default v voice in find_or_load v name o (take_engine name v.engines)

  -- The state after a call: an exception leaves it as it was.
  abbrev pub state_after : Voices K E → Result (E × Voices K E) → Voices K E
  state_after v (raise e) = v
  state_after v (ok (e, v')) = v'

  unfoldable pub requests : Voices K E → List (Option K × Outside E) → Voices K E
  requests v [] = v
  requests v ((voice, o) ∷ rest) = requests (state_after v (engine_for v voice o)) rest

-- `close`
abbrev pub engines_of : {K E : Type 0} → List (K × E) → List E
engines_of [] = []
engines_of ((k, e) ∷ engines) = e ∷ engines_of engines

unfoldable pub close : {K E : Type 0} → Voices K E → Voices K E
close v = record v { engines = []; closed = v.closed ++ engines_of v.engines }
