-- ===== src/Stt/Safe.antt =====
-- The memory that a handler holds: what it has reserved of the shared budget is what it buffers,
-- and a request that ends gives all of it back.
pub mod Append
pub mod Stream
use wyoming_vietnamese.Common.{
  if◌then◌else◌, length, Result, ◌>>=◌, ok, raise, ℕ, zero, suc, ◌+◌, ◌-◌, ◌≤◌, ◌≡◌, refl, Bool,
  true, false, not, Option, none, some, [], arith,
}
use Prim.Native.String.{String}
use wyoming_vietnamese.Protocol.Budget.{Budget, release}
use wyoming_vietnamese.Stt.{
  Format, Config, Session, Value, nothing, a_string, other_value, Request, Answer, keep,
}
use wyoming_vietnamese.Stt.Buffer.{give_back, clear_audio_buffer}
use wyoming_vietnamese.Stt.Requests.{
  fail, is_vietnamese_language, valid_audio_format, accept_language, accept_request,
  handle_transcribe, start_stream, handle_audio_start,
}

-- The budget counts `reserved` bytes for this handler, and `others` for the rest.
abbrev pub Holds : ℕ → Option Budget → ℕ → Type 0
Holds others none reserved = Unit {0}
Holds others (some b) reserved = b.used ≡ others + reserved

give_back-Holds :
    (others : ℕ) (budget : Option Budget) (reserved : ℕ)
    → Holds others budget reserved
    → (budget' : Option Budget) × (give_back budget reserved ≡ ok budget') × Holds others budget' 0
unfolding release
give_back-Holds others none reserved h = (none, refl, tt)
give_back-Holds others (some b) zero h = (some b, refl, h)
give_back-Holds others (some b) (suc n) h =
    (some (record b { used = b.used - suc n }), ground arith, omega arith)

module _ {K : Type 0} (max_bytes others : ℕ) where
  abbrev pub IsValid : Session K → Type 0
  IsValid s =
      (s.reserved_audio_bytes ≡ length s.audio_bytes)
      × (length s.audio_bytes ≤ max_bytes)
      × Holds others s.buffer_budget s.reserved_audio_bytes

  abbrev pub Released : Bool → Session K → Type 0
  Released true s = Unit {0}
  Released false s = (s.audio_bytes ≡ []) × (s.reserved_audio_bytes ≡ 0) × (s.audio_started ≡ false)

  -- The operation returns, its state is valid, and if the request ended nothing is held.
  abbrev pub IsSafe : Result (Answer K) → Type 0
  IsSafe (raise e) = ⊥
  IsSafe (ok a) = IsValid a.session × Released a.keep_open a.session

  pub if-IsSafe :
      (test : Bool) (r r' : Result (Answer K))
      → IsSafe r
      → IsSafe r'
      → IsSafe (if test then r else r')
  if-IsSafe true r r' h h' = h
  if-IsSafe false r r' h h' = h'

  pub clear_audio_buffer-Holds :
      (s : Session K)
      → Holds others s.buffer_budget s.reserved_audio_bytes
      → (budget : Option Budget) × (clear_audio_buffer s
          ≡ ok (record s { buffer_budget = budget; reserved_audio_bytes = 0; audio_bytes = [] }))
        × Holds others budget 0
  unfolding clear_audio_buffer
  clear_audio_buffer-Holds s h =
      let (budget, gives, holds) =
        give_back-Holds others s.buffer_budget s.reserved_audio_bytes h in
      (budget, rw gives refl, holds)

  -- What follows a clear is safe if it is safe on every cleared state.
  pub clear-IsSafe :
      (s : Session K) (f : Session K → Result (Answer K))
      → Holds others s.buffer_budget s.reserved_audio_bytes
      → ((budget : Option Budget)
          → Holds others budget 0
          → IsSafe
              (f (record s { buffer_budget = budget; reserved_audio_bytes = 0; audio_bytes = [] })))
      → IsSafe (clear_audio_buffer s >>= f)
  clear-IsSafe s f h next =
      let (budget, clears, holds) = clear_audio_buffer-Holds s h in rw clears (next budget holds)

  pub fail-IsSafe :
      (s : Session K) (detail code : String)
      → Holds others s.buffer_budget s.reserved_audio_bytes
      → IsSafe (fail s detail code)
  unfolding fail
  fail-IsSafe s detail code h =
      clear-IsSafe _ _ h (λ budget h'. ((refl, omega arith, h'), (refl, refl, refl)))

  accept_language-IsSafe :
      (normalize : String → String) (s : Session K) (language : Value)
      → IsValid s
      → IsSafe (accept_language normalize s language)
  accept_language-IsSafe normalize s nothing v = (v, tt)
  accept_language-IsSafe normalize s (a_string language) v =
      if-IsSafe (is_vietnamese_language normalize language) (ok (keep s)) _ (v, tt)
        (fail-IsSafe s _ _ v.2)
  accept_language-IsSafe normalize s other_value v = fail-IsSafe s _ _ v.2

  accept_request-IsSafe :
      (normalize : String → String) (c : Config) (s : Session K) (name language : Value)
      → IsValid s
      → IsSafe (accept_request normalize c s name language)
  accept_request-IsSafe normalize c s nothing language v =
      accept_language-IsSafe normalize s language v
  accept_request-IsSafe normalize c s (a_string name) language v =
      if-IsSafe _ (fail s _ _) (accept_language normalize s language) (fail-IsSafe s _ _ v.2)
        (accept_language-IsSafe normalize s language v)
  accept_request-IsSafe normalize c s other_value language v = fail-IsSafe s _ _ v.2

  pub handle_transcribe-IsSafe :
      (normalize : String → String) (c : Config) (s : Session K) (request : Option Request)
      → IsValid s
      → IsSafe (handle_transcribe normalize c s request)
  unfolding handle_transcribe
  handle_transcribe-IsSafe normalize c s none v =
      if-IsSafe s.audio_started (fail s _ _) (fail s _ _) (fail-IsSafe s _ _ v.2)
        (fail-IsSafe s _ _ v.2)
  handle_transcribe-IsSafe normalize c s (some r) v =
      if-IsSafe s.audio_started (fail s _ _) (accept_request normalize c s r.name r.language)
        (fail-IsSafe s _ _ v.2) (accept_request-IsSafe normalize c s r.name r.language v)

  start_stream-IsSafe :
      (c : Config) (fresh : K) (now : ℕ) (s : Session K) (f : Format)
      → IsValid s
      → IsSafe (start_stream c fresh now s f)
  start_stream-IsSafe c fresh now s f v =
      if-IsSafe (not (valid_audio_format f)) (fail s _ _) (clear_audio_buffer s >>= _)
        (fail-IsSafe s _ _ v.2) (clear-IsSafe s _ v.2 (λ budget h. ((refl, omega arith, h), tt)))

  pub handle_audio_start-IsSafe :
      (c : Config) (fresh : K) (now : ℕ) (s : Session K) (format : Option Format)
      → IsValid s
      → IsSafe (handle_audio_start c fresh now s format)
  unfolding handle_audio_start
  handle_audio_start-IsSafe c fresh now s none v =
      if-IsSafe s.audio_started (fail s _ _) (fail s _ _) (fail-IsSafe s _ _ v.2)
        (fail-IsSafe s _ _ v.2)
  handle_audio_start-IsSafe c fresh now s (some f) v =
      if-IsSafe s.audio_started (fail s _ _) (start_stream c fresh now s f) (fail-IsSafe s _ _ v.2)
        (start_stream-IsSafe c fresh now s f v)
