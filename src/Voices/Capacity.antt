-- ===== src/Voices/Capacity.antt =====
-- How many engines are loaded, and what becomes of them.
use wyoming_vietnamese.Common.{
  leb, if◌then◌else◌, Bool-cases, length, length-append, Result, ok, raise, ℕ, suc, ◌+◌, ◌≤◌, ◌<◌,
  ◌≡◌, refl, sym, ap, ◌∙◌, ◌⊎◌, inl, inr, Bool, true, false, not, Option, none, some, List, [], ◌∷◌,
  ◌++◌, arith,
}
use wyoming_vietnamese.Voices.{
  engines_of, put_back, Voices, take_engine, is_known, make_room, Outside, too_soon, add_engine,
  loaded_or_error, find_or_load, name_or_default, engine_for, state_after, requests,
}

put_back_lem :
    {K E : Type 0} (item : K × E) (o : Option (E × List (K × E))) (rest : List (K × E)) (e : E)
    → put_back item o ≡ some (e, rest)
    → (r : List (K × E)) × (o ≡ some (e, r)) × (rest ≡ item ∷ r)
put_back_lem item none rest e h = cc
put_back_lem item (some (f, r)) rest e h = (r, cc, cc)

-- What is kept of as many as are allowed.
one_less :
    {A : Type 0} (max_loaded loaded : ℕ) (kept evicted : List A)
    → leb max_loaded (suc loaded) ≡ true
    → length kept < max_loaded
    → (evicted ≡ []) ⊎ (length kept + 1 ≡ max_loaded)
    → loaded ≡ length (evicted ++ kept)
    → length kept + 1 ≡ max_loaded
one_less max_loaded loaded kept evicted full less (inr h) split = h
one_less max_loaded loaded kept evicted full less (inl none_of_them) split =
    let same = split ∙ ap (λ u. length (u ++ kept)) none_of_them in ground arith

module _ {K E : Type 0} (dec : Discrete K) where
  -- At most `max_loaded` engines are loaded, and the engines that are loaded and those that were
  -- closed are as many as those that were given or loaded.
  pub record IsSound (v : Voices K E) : Type 0 where
    pub positive : 1 ≤ v.max_loaded
    pub few : length v.engines ≤ v.max_loaded
    pub accounted : length v.engines + length v.closed ≡ v.acquired

  length-take_engine :
      (name : K) (engines rest : List (K × E)) (e : E)
      → take_engine dec name engines ≡ some (e, rest)
      → length engines ≡ suc (length rest)
  unfolding take_engine
  length-take_engine name [] rest e h = cc
  length-take_engine name ((k, e') ∷ engines) rest e h = elim (dec k name) [
    | yes same ↦
        let all : engines ≡ rest = ground arith in omega (arith, ap (length {A = K × E}) all)
    | no other ↦
        let split : put_back (k, e') (take_engine dec name engines) ≡ some (e, rest) =
          ground arith in
        let (r, found, all) = put_back_lem (k, e') (take_engine dec name engines) rest e split in
        omega (arith, length-take_engine name engines r e found, ap (length {A = K × E}) all)
  ]

  length-make_room :
      (max_loaded : ℕ) (engines : List (K × E))
      → 1 ≤ max_loaded
      → (length (make_room dec max_loaded engines).0 < max_loaded)
        × (length (make_room dec max_loaded engines).0 + length (make_room dec max_loaded engines).1
            ≡ length engines)
  unfolding make_room
  length-make_room max_loaded [] h = (omega arith, omega arith)
  length-make_room max_loaded ((k, e) ∷ engines) h =
      elim (Bool-cases (leb max_loaded (length ((k, e) ∷ engines)))) [
        | inl full ↦
            rw (make_room, full)
              (let (less, same) = length-make_room max_loaded engines h in (less, omega arith))
        | inr free ↦ rw (make_room, free) (ground arith, omega arith)
      ]

  add_engine-IsSound :
      (v : Voices K E) (name : K) (e : E) (later : ℕ)
      → IsSound v
      → IsSound (add_engine dec v name e later)
  add_engine-IsSound v name e later s =
      let (less, same) = length-make_room v.max_loaded v.engines s.positive in
      record {
        positive = s.positive;
        few =
            omega (arith, length-append (make_room dec v.max_loaded v.engines).0 ((name, e) ∷ []));
        accounted = omega (
          arith,
          s.accounted,
          length-append (make_room dec v.max_loaded v.engines).0 ((name, e) ∷ []),
          length-append v.closed (make_room dec v.max_loaded v.engines).1,
        );
      }

  -- A loaded engine is used: it becomes the most recently used one.
  abbrev pub IsUsed : Voices K E → K → E → Voices K E → Type 0
  IsUsed v name e v' =
      (before : List (K × E)) × (after : List (K × E)) × (v.engines ≡ before ++ ((name, e) ∷ after))
      × (v'.engines ≡ (before ++ after) ++ ((name, e) ∷ []))
      × (v'.closed ≡ v.closed)

  -- An engine is loaded: the least recently used ones are closed, no more of them than makes a place.
  abbrev pub IsLoaded : Voices K E → K → E → Voices K E → Type 0
  IsLoaded v name e v' =
      (evicted : List (K × E)) × (kept : List (K × E)) × (v.engines ≡ evicted ++ kept)
      × (v'.engines ≡ kept ++ ((name, e) ∷ []))
      × (v'.closed ≡ v.closed ++ engines_of evicted)
      × ((evicted ≡ []) ⊎ (length kept + 1 ≡ v.max_loaded))

  -- What a call does: it raises, or uses or loads an engine for the name, in a state that is sound with
  -- the same limit.
  abbrev pub IsGiven : Voices K E → Option K → Result (E × Voices K E) → Type 0
  IsGiven v voice (raise error) = Unit {0}
  IsGiven v voice (ok (e, v')) =
      IsSound v'
      × (v'.max_loaded ≡ v.max_loaded)
      × (IsUsed v (name_or_default dec v voice) e v'
          ⊎ IsLoaded v (name_or_default dec v voice) e v')

  take_engine_lem :
      (name : K) (engines rest : List (K × E)) (e : E)
      → take_engine dec name engines ≡ some (e, rest)
      → (before : List (K × E)) × (after : List (K × E)) × (engines ≡ before ++ ((name, e) ∷ after))
        × (rest ≡ before ++ after)
  unfolding take_engine
  take_engine_lem name [] rest e h = cc
  take_engine_lem name ((k, e') ∷ engines) rest e h = elim (dec k name) [
    | yes same ↦
        let all : engines ≡ rest = ground arith in
        let this : e' ≡ e = ground arith in ([], engines, rw (same, this) refl, sym all)
    | no other ↦
        let split : put_back (k, e') (take_engine dec name engines) ≡ some (e, rest) =
          ground arith in
        let (r, found, all) = put_back_lem (k, e') (take_engine dec name engines) rest e split in
        let (before, after, parts, others) = take_engine_lem name engines r e found in
        ((k, e') ∷ before, after, ap (◌∷◌ (k, e')) parts, all ∙ ap (◌∷◌ (k, e')) others)
  ]

  make_room_lem :
      (max_loaded : ℕ) (engines : List (K × E))
      → 1 ≤ max_loaded
      → (evicted : List (K × E)) × (engines ≡ evicted ++ (make_room dec max_loaded engines).0)
        × ((make_room dec max_loaded engines).1 ≡ engines_of evicted)
        × ((evicted ≡ []) ⊎ (length (make_room dec max_loaded engines).0 + 1 ≡ max_loaded))
  unfolding make_room
  make_room_lem max_loaded [] h = ([], refl, refl, inl refl)
  make_room_lem max_loaded ((k, e) ∷ engines) h =
      elim (Bool-cases (leb max_loaded (length ((k, e) ∷ engines)))) [
        | inl full ↦
            rw (make_room, full)
              (let (evicted, split, closed, few) = make_room_lem max_loaded engines h in
                (
                  (k, e) ∷ evicted,
                  ap (◌∷◌ (k, e)) split,
                  ap (◌∷◌ e) closed,
                  inr (
                      one_less max_loaded (length engines) (make_room dec max_loaded engines).0
                        evicted full (length-make_room max_loaded engines h).0 few
                        (ap length split)),
                ))
        | inr free ↦ rw (make_room, free) ([], refl, refl, inl refl)
      ]

  load-IsGiven :
      (v : Voices K E) (voice : Option K) (later : ℕ) (loaded : Option E)
      → IsSound v
      → IsGiven v voice (loaded_or_error dec v (name_or_default dec v voice) later loaded)
  load-IsGiven v voice later none s = tt
  load-IsGiven v voice later (some e) s = (
    add_engine-IsSound v (name_or_default dec v voice) e later s,
    refl,
    (let (evicted, split, closed, few) = make_room_lem v.max_loaded v.engines s.positive in
        inr (
          evicted,
          (make_room dec v.max_loaded v.engines).0,
          split,
          refl,
          ap (◌++◌ v.closed) closed,
          few,
        )),
  )

  if-IsGiven :
      (v : Voices K E) (voice : Option K) (test : Bool) (r r' : Result (E × Voices K E))
      → IsGiven v voice r
      → IsGiven v voice r'
      → IsGiven v voice (if test then r else r')
  if-IsGiven v voice true r r' h h' = h
  if-IsGiven v voice false r r' h h' = h'

  find_or_load-IsGiven :
      (v : Voices K E) (voice : Option K) (o : Outside E) (found : Option (E × List (K × E)))
      → take_engine dec (name_or_default dec v voice) v.engines ≡ found
      → IsSound v
      → IsGiven v voice (find_or_load dec v (name_or_default dec v voice) o found)
  find_or_load-IsGiven v voice o (some (e, rest)) h s =
      let same = length-take_engine (name_or_default dec v voice) v.engines rest e h in
      let longer = length-append rest ((name_or_default dec v voice, e) ∷ []) in
      (
        record {
          positive = s.positive;
          few = omega (arith, s.few);
          accounted = omega (arith, s.accounted);
        },
        refl,
        (let (before, after, parts, others) =
              take_engine_lem (name_or_default dec v voice) v.engines rest e h in
            inl (
              before,
              after,
              parts,
              ap (λ (u : List (K × E)). u ++ ((name_or_default dec v voice, e) ∷ [])) others,
              refl,
            )),
      )
  find_or_load-IsGiven v voice o none h s =
      if-IsGiven v voice (not (is_known dec v.all_voices (name_or_default dec v voice))) _ _ tt (
        if-IsGiven v voice o.busy _ _ tt (
          if-IsGiven v voice (too_soon dec v o.now) _ _ tt
            (load-IsGiven v voice o.later o.loaded s)))

  engine_for-IsGiven :
      (v : Voices K E) (voice : Option K) (o : Outside E)
      → IsSound v
      → IsGiven v voice (engine_for dec v voice o)
  unfolding engine_for
  engine_for-IsGiven v voice o s =
      find_or_load-IsGiven v voice o (take_engine dec (name_or_default dec v voice) v.engines) refl
        s

  after-IsSound :
      (v : Voices K E) (voice : Option K) (r : Result (E × Voices K E))
      → IsSound v
      → IsGiven v voice r
      → IsSound (state_after dec v r) × ((state_after dec v r).max_loaded ≡ v.max_loaded)
  after-IsSound v voice (raise error) s h = (s, refl)
  after-IsSound v voice (ok (e, v')) s (s', same, newest) = (s', same)

  -- If at most `max_loaded` engines, and one is allowed, are loaded at the start, and those that are
  -- loaded and those that were closed are as many as those that were given or loaded, then that is so
  -- after any sequence of requests, whichever voices they are for and whatever loading, the clock and
  -- the workers do. The next request then raises, or gives an engine for its voice: one that was loaded,
  -- which becomes the most recently used and closes none, or a new one, which becomes the most recently
  -- used and for which the least recently used engines are closed, no more of them than makes a place.
  pub requests-IsSound :
      (v : Voices K E) (history : List (Option K × Outside E)) (voice : Option K) (o : Outside E)
      → IsSound v
      → IsSound (requests dec v history)
        × ((requests dec v history).max_loaded ≡ v.max_loaded)
        × IsGiven (requests dec v history) voice (engine_for dec (requests dec v history) voice o)
  unfolding requests
  requests-IsSound v [] voice o s = (s, refl, engine_for-IsGiven v voice o s)
  requests-IsSound v ((voice', o') ∷ rest) voice o s =
      let (s', same) =
        after-IsSound v voice' (engine_for dec v voice' o') s (engine_for-IsGiven v voice' o' s) in
      let (s'', same', given) =
        requests-IsSound (state_after dec v (engine_for dec v voice' o')) rest voice o s' in
      (s'', same' ∙ same, given)
