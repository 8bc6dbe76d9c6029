-- ===== src/Usage.antt =====
-- `RecentVoiceStore` of wyoming_vietnamese/voice_usage.py. The lock makes each method atomic, and the
-- file is replaced as a whole or stays as it is. A name is of a type with decidable equality, and
-- `blank` is the empty name.
pub mod History
mod Examples
use wyoming_vietnamese.Common.{
  if◌then◌else◌, take, ℕ, ite, Bool, true, false, Option, none, some, List, [], ◌∷◌,
}

-- An item of the JSON list: a string, or something else.
pub data Item (K : Type 0) : Type 0 where
  a_name : K → Item K
  other_item : Item K

abbrev pub max_recent_voices : ℕ
max_recent_voices = 32

abbrev pub items_of : {K : Type 0} → List K → List (Item K)
items_of [] = []
items_of (k ∷ voices) = a_name k ∷ items_of voices

module _ {K : Type 0} (dec : Discrete K) where
  -- `[voice for voice in current if voice != voice_name]`
  unfoldable pub without : K → List K → List K
  without k [] = []
  without k (v ∷ voices) = ite (dec v k) (without k voices) (v ∷ without k voices)

  -- `dict.fromkeys`: the first of equal names stays.
  unfoldable pub unique : List K → List K
  unique [] = []
  unique (v ∷ voices) = v ∷ without v (unique voices)

  -- `current[:1] == (voice_name,)`
  abbrev pub starts_with : K → List K → Bool
  starts_with k [] = false
  starts_with k (v ∷ voices) = ite (dec v k) true false

  module _ (blank : K) where
    -- `[voice for voice in data if isinstance(voice, str) and voice]`
    unfoldable pub names_of : List (Item K) → List K
    names_of [] = []
    names_of (a_name k ∷ items) = ite (dec k blank) (names_of items) (k ∷ names_of items)
    names_of (other_item ∷ items) = names_of items

    -- `get_recent`. `none` is a file that is missing, that cannot be read, or that is no list.
    unfoldable pub get_recent : Option (List (Item K)) → List K
    get_recent none = []
    get_recent (some items) = unique (names_of items)

    -- `record`; `writes` says whether the file can be written.
    unfoldable pub record_voice : Bool → K → Option (List (Item K)) → Option (List (Item K))
    record_voice writes k file =
        let current = get_recent file in
        let recent = take max_recent_voices (k ∷ without k current) in
        if ite (dec k blank) true false
        then file
        else if starts_with k current
        then file
        else if writes
        then some (items_of recent)
        else file

    -- The file after a history of records, the last one first, each with whether it could be written.
    unfoldable pub record_all : List (Bool × K) → Option (List (Item K))
    record_all [] = none
    record_all ((writes, k) ∷ older) = record_voice writes k (record_all older)
