-- ===== src/Stt/Safe/Append.antt =====
-- `_append_audio`: what is buffered and what is reserved grow by the same bytes, or not at all.
use wyoming_vietnamese.Common.{
  ltb, if◌then◌else◌, length, length-append, Result, ◌>>=◌, ok, raise, ℕ, ◌+◌, ◌≤◌, ◌≡◌, refl, Bool,
  true, false, Option, none, some, List, ◌++◌, arith, dec_lt,
}
use Prim.Native.String.{String}
use wyoming_vietnamese.Protocol.Budget.{Budget, try_reserve}
use wyoming_vietnamese.Stt.{Session, Answer}
use wyoming_vietnamese.Stt.Buffer.{Appended, appended, refused, reserve, append_audio}
use wyoming_vietnamese.Stt.Safe.{Holds, IsValid, IsSafe}

-- A reservation that is asked for returns, and the budget counts it if it is granted.
reserve-Holds :
    (others : ℕ) (budget : Option Budget) (reserved size : ℕ)
    → Holds others budget reserved
    → (budget' : Option Budget) × (granted : Bool) × (reserve budget size ≡ ok (budget', granted))
      × Holds others budget' (if granted then reserved + size else reserved)
unfolding try_reserve
reserve-Holds others none reserved size h = (none, true, refl, tt)
reserve-Holds others (some b) reserved size h = elim (dec_lt b.maximum (b.used + size)) [
  | yes over ↦ (some b, false, ground arith, h)
  | no fits ↦ (some (record b { used = b.used + size }), true, ground arith, omega arith)
]

module _ {K : Type 0} (max_bytes others : ℕ) where
  -- What `_append_audio` leaves, in both its outcomes.
  abbrev pub IsAppended : Session K → Result (Appended K) → Type 0
  IsAppended s (raise e) = ⊥
  IsAppended s (ok (appended s')) = IsValid max_bytes others s'
  IsAppended s (ok (refused detail code)) = Unit {0}

  if-IsAppended :
      (s : Session K) (test : Bool) (r r' : Result (Appended K))
      → IsAppended s r
      → (test ≡ false → IsAppended s r')
      → IsAppended s (if test then r else r')
  if-IsAppended s true r r' h h' = h
  if-IsAppended s false r r' h h' = h' refl

  granted-IsAppended :
      (s : Session K) (part : List ℕ) (budget : Option Budget) (granted : Bool)
      → IsValid max_bytes others s
      → length s.audio_bytes + length part ≤ max_bytes
      → Holds others budget
          (if granted then s.reserved_audio_bytes + length part else s.reserved_audio_bytes)
      → IsAppended s (
          ok (
            if granted
            then appended (record s {
              buffer_budget = budget;
              reserved_audio_bytes = s.reserved_audio_bytes + length part;
              audio_bytes = s.audio_bytes ++ part;
            })
            else refused "STT buffer capacity is busy" "server-busy"))
  granted-IsAppended s part budget true v fits h =
      let total = length-append s.audio_bytes part in
      (omega (arith, total, v.0), omega (arith, total), h)
  granted-IsAppended s part budget false v fits h = tt

  pub append_audio-IsAppended :
      (s : Session K) (part : List ℕ)
      → IsValid max_bytes others s
      → IsAppended s (append_audio max_bytes s part)
  unfolding append_audio
  append_audio-IsAppended s part v =
      if-IsAppended s (ltb max_bytes (length s.audio_bytes + length part)) (ok _) _ tt (λ fits.
        let (budget, granted, gives, holds) =
          reserve-Holds others s.buffer_budget s.reserved_audio_bytes (length part) v.2 in
        rw gives (granted-IsAppended s part budget granted v (ground arith) holds))

  pub then-IsSafe :
      (s : Session K) (r : Result (Appended K)) (f : Appended K → Result (Answer K))
      → IsAppended s r
      → ((s' : Session K) → IsValid max_bytes others s' → IsSafe max_bytes others (f (appended s')))
      → ((detail code : String) → IsSafe max_bytes others (f (refused detail code)))
      → IsSafe max_bytes others (r >>= f)
  then-IsSafe s (raise e) f h next next' = h
  then-IsSafe s (ok (appended s')) f h next next' = next s' h
  then-IsSafe s (ok (refused detail code)) f h next next' = next' detail code
