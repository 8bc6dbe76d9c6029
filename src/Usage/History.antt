-- ===== src/Usage/History.antt =====
-- The recent voices after any history.
use wyoming_vietnamese.Common.{
  if◌then◌else◌, Bool-cases, take, All, ℕ, zero, suc, ◌≡◌, refl, sym, ap, subst, ◌∙◌, ◌≢◌, inl, inr,
  ite, if_pos, if_neg, Bool, true, false, Option, some, List, [], ◌∷◌,
}
use wyoming_vietnamese.Usage.{
  Item, max_recent_voices, names_of, without, unique, get_recent, items_of, starts_with,
  record_voice, record_all,
}

module _ {K : Type 0} (dec : Discrete K) where
  abbrev Absent : K → List K → Type 0
  Absent k = All (λ v. v ≢ k)

  abbrev Distinct : List K → Type 0
  Distinct [] = Unit {0}
  Distinct (v ∷ voices) = Absent v voices × Distinct voices

  without-Absent : (k : K) (voices : List K) → Absent k voices → without dec k voices ≡ voices
  unfolding without
  without-Absent k [] h = refl
  without-Absent k (v ∷ voices) (h, hs) =
      rw (if_neg (dec v k) h) (ap (◌∷◌ v) (without-Absent k voices hs))

  Absent-without : (k : K) (voices : List K) → Absent k (without dec k voices)
  unfolding without
  Absent-without k [] = tt
  Absent-without k (v ∷ voices) = elim (dec v k) [
    | yes same ↦ rw (if_pos (dec v k) same) (Absent-without k voices)
    | no other ↦ rw (if_neg (dec v k) other) (other, Absent-without k voices)
  ]

  All-without :
      (P : K → Type 0) (k : K) (voices : List K) → All P voices → All P (without dec k voices)
  unfolding without
  All-without P k [] h = tt
  All-without P k (v ∷ voices) (h, hs) = elim (dec v k) [
    | yes same ↦ rw (if_pos (dec v k) same) (All-without P k voices hs)
    | no other ↦ rw (if_neg (dec v k) other) (h, All-without P k voices hs)
  ]

  Distinct-without : (k : K) (voices : List K) → Distinct voices → Distinct (without dec k voices)
  unfolding without
  Distinct-without k [] h = tt
  Distinct-without k (v ∷ voices) (h, hs) = elim (dec v k) [
    | yes same ↦ rw (if_pos (dec v k) same) (Distinct-without k voices hs)
    | no other ↦
        rw (if_neg (dec v k) other)
          (All-without (λ u. u ≢ v) k voices h, Distinct-without k voices hs)
  ]

  Distinct-unique : (voices : List K) → Distinct (unique dec voices)
  unfolding unique
  Distinct-unique [] = tt
  Distinct-unique (v ∷ voices) = (
    Absent-without v (unique dec voices),
    Distinct-without v (unique dec voices) (Distinct-unique voices),
  )

  All-unique : (P : K → Type 0) (voices : List K) → All P voices → All P (unique dec voices)
  unfolding unique
  All-unique P [] h = tt
  All-unique P (v ∷ voices) (h, hs) =
      (h, All-without P v (unique dec voices) (All-unique P voices hs))

  unique-Distinct : (voices : List K) → Distinct voices → unique dec voices ≡ voices
  unfolding unique
  unique-Distinct [] h = refl
  unique-Distinct (v ∷ voices) (h, hs) =
      ap (λ (u : List K). v ∷ without dec v u) (unique-Distinct voices hs)
      ∙ ap (◌∷◌ v) (without-Absent v voices h)

  All-take : (P : K → Type 0) (n : ℕ) (voices : List K) → All P voices → All P (take n voices)
  All-take P zero voices h = tt
  All-take P (suc n) [] h = tt
  All-take P (suc n) (v ∷ voices) (h, hs) = (h, All-take P n voices hs)

  Distinct-take : (n : ℕ) (voices : List K) → Distinct voices → Distinct (take n voices)
  Distinct-take zero voices h = tt
  Distinct-take (suc n) [] h = tt
  Distinct-take (suc n) (v ∷ voices) (h, hs) =
      (All-take (λ u. u ≢ v) n voices h, Distinct-take n voices hs)

  take-take : (n : ℕ) (voices : List K) → take n (take n voices) ≡ take n voices
  take-take zero voices = refl
  take-take (suc n) [] = refl
  take-take (suc n) (v ∷ voices) = ap (◌∷◌ v) (take-take n voices)

  without_same :
      (k v : K) (voices : List K) → v ≡ k → without dec k (v ∷ voices) ≡ without dec k voices
  unfolding without
  without_same k v voices same = if_pos (dec v k) same _ _

  without_other :
      (k v : K) (voices : List K) → v ≢ k → without dec k (v ∷ voices) ≡ v ∷ without dec k voices
  unfolding without
  without_other k v voices other = if_neg (dec v k) other _ _

  -- Taking one more before a name is left out changes nothing of what is taken after.
  take-without :
      (n : ℕ) (k : K) (voices : List K)
      → Distinct voices
      → take n (without dec k (take (suc n) voices)) ≡ take n (without dec k voices)
  take-without zero k voices h = refl
  take-without (suc n) k [] h = refl
  take-without (suc n) k (v ∷ voices) (h, hs) = elim (dec v k) [
    | yes same ↦
        let gone : Absent k voices = subst (λ (u : K). Absent u voices) same h in
        ap (take (suc n)) (without_same k v (take (suc n) voices) same)
        ∙ ap (take (suc n))
            (without-Absent k (take (suc n) voices) (All-take (λ u. u ≢ k) (suc n) voices gone))
        ∙ take-take (suc n) voices
        ∙ ap (take (suc n)) (sym (without_same k v voices same ∙ without-Absent k voices gone))
    | no other ↦
        ap (take (suc n)) (without_other k v (take (suc n) voices) other)
        ∙ ap (◌∷◌ v) (take-without n k voices hs)
        ∙ ap (take (suc n)) (sym (without_other k v voices other))
  ]

  -- A name that is the first one already.
  starts_with_lem :
      (n : ℕ) (k : K) (voices : List K)
      → Distinct voices
      → starts_with dec k (take (suc n) voices) ≡ true
      → k ∷ without dec k voices ≡ voices
  starts_with_lem n k [] h first = cc
  starts_with_lem n k (v ∷ voices) (h, hs) first = elim (dec v k) [
    | yes same ↦
        ap (◌∷◌ k) (
          without_same k v voices same
          ∙ without-Absent k voices (subst (λ (u : K). Absent u voices) same h))
        ∙ ap (λ (u : K). u ∷ voices) (sym same)
    | no other ↦ let wrong : false ≡ true = sym (if_neg (dec v k) other true false) ∙ first in cc
  ]

  module _ (blank : K) where
    -- The names of a history that are not empty and could be written, the last one first.
    unfoldable pub written_names : List (Bool × K) → List K
    written_names [] = []
    written_names ((writes, k) ∷ older) =
        if ite (dec k blank) true false
        then written_names older
        else if writes
        then k ∷ written_names older
        else written_names older

    names_of-items_of :
        (voices : List K) → Absent blank voices → names_of dec blank (items_of voices) ≡ voices
    unfolding names_of
    names_of-items_of [] h = refl
    names_of-items_of (v ∷ voices) (h, hs) =
        rw (if_neg (dec v blank) h) (ap (◌∷◌ v) (names_of-items_of voices hs))

    written_names-Absent : (history : List (Bool × K)) → Absent blank (written_names history)
    unfolding written_names
    written_names-Absent [] = tt
    written_names-Absent ((true, k) ∷ older) = elim (dec k blank) [
      | yes empty ↦ rw (if_pos (dec k blank) empty) (written_names-Absent older)
      | no named ↦ rw (if_neg (dec k blank) named) (named, written_names-Absent older)
    ]
    written_names-Absent ((false, k) ∷ older) = elim (dec k blank) [
      | yes empty ↦ rw (if_pos (dec k blank) empty) (written_names-Absent older)
      | no named ↦ rw (if_neg (dec k blank) named) (written_names-Absent older)
    ]

    -- What is written is read back.
    get_recent-items_of :
        (voices : List K)
        → Distinct voices
        → Absent blank voices
        → get_recent dec blank (some (items_of voices)) ≡ voices
    unfolding get_recent
    get_recent-items_of voices d b =
        ap (unique dec) (names_of-items_of voices b) ∙ unique-Distinct voices d

    -- One record of a name on top of the names so far.
    record_voice_lem :
        (k : K) (file : Option (List (Item K))) (voices : List K)
        → k ≢ blank
        → Distinct voices
        → Absent blank voices
        → get_recent dec blank file ≡ take max_recent_voices voices
        → get_recent dec blank (record_voice dec blank true k file)
          ≡ take max_recent_voices (k ∷ without dec k voices)
    unfolding record_voice
    record_voice_lem k file voices named d b h =
        elim (Bool-cases (starts_with dec k (get_recent dec blank file))) [
          | inl first ↦
              rw (if_neg (dec k blank) named, first)
                (h
                  ∙ ap (take max_recent_voices) (
                      sym (
                        starts_with_lem 31 k voices d
                          (subst (λ (u : List K). starts_with dec k u ≡ true) h first))))
          | inr other ↦
              let distinct =
                Distinct-take max_recent_voices (k ∷ without dec k voices)
                  (Absent-without k voices, Distinct-without k voices d) in
              let present =
                All-take (λ u. u ≢ blank) max_recent_voices (k ∷ without dec k voices)
                  (named, All-without (λ u. u ≢ blank) k voices b) in
              let same : take max_recent_voices (k ∷ without dec k (get_recent dec blank file))
                  ≡ take max_recent_voices (k ∷ without dec k voices) =
                ap (λ (u : List K). take max_recent_voices (k ∷ without dec k u)) h
                ∙ ap (◌∷◌ k) (take-without 31 k voices d) in
              rw (if_neg (dec k blank) named, other)
                (ap (λ (u : List K). get_recent dec blank (some (items_of u))) same
                  ∙ get_recent-items_of (take max_recent_voices (k ∷ without dec k voices)) distinct
                      present)
        ]

    record_voice_blank :
        (writes : Bool) (k : K) (file : Option (List (Item K)))
        → k ≡ blank
        → record_voice dec blank writes k file ≡ file
    unfolding record_voice
    record_voice_blank writes k file empty = rw (if_pos (dec k blank) empty) refl

    record_voice_same :
        (k : K) (file : Option (List (Item K))) → record_voice dec blank false k file ≡ file
    unfolding record_voice
    record_voice_same k file =
        chosen (ite (dec k blank) true false) (starts_with dec k (get_recent dec blank file))
      where
        chosen :
            (a b : Bool)
            → (if a
                then file
                else if b
                then file
                else if false
                then some (
                    items_of
                      (take max_recent_voices (k ∷ without dec k (get_recent dec blank file))))
                else file)
              ≡ file
        chosen true b = refl
        chosen false true = refl
        chosen false false = refl

    -- On a new store, after any history of records, of which some could not be written, the recent
    -- voices are the last 32 different names of those that are not empty and could be written, from
    -- the last one to the first.
    pub get_recent-record_all :
        (history : List (Bool × K))
        → get_recent dec blank (record_all dec blank history)
          ≡ take max_recent_voices (unique dec (written_names history))
    unfolding record_all written_names get_recent unique
    get_recent-record_all [] = refl
    get_recent-record_all ((true, k) ∷ older) = elim (dec k blank) [
      | yes empty ↦ rw (if_pos (dec k blank) empty) (
          ap (get_recent dec blank) (record_voice_blank true k (record_all dec blank older) empty)
          ∙ get_recent-record_all older)
      | no named ↦ rw (if_neg (dec k blank) named) (
          record_voice_lem k (record_all dec blank older) (unique dec (written_names older)) named
            (Distinct-unique (written_names older))
            (All-unique (λ u. u ≢ blank) (written_names older) (written_names-Absent older))
            (get_recent-record_all older))
    ]
    get_recent-record_all ((false, k) ∷ older) =
        let kept =
          ap (get_recent dec blank) (record_voice_same k (record_all dec blank older))
          ∙ get_recent-record_all older in
        elim (dec k blank) [
          | yes empty ↦ rw (if_pos (dec k blank) empty) kept
          | no named ↦ rw (if_neg (dec k blank) named) kept
        ]
