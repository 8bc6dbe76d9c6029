-- ===== src/Stt/Buffer.antt =====
-- `__init__`, `_append_audio`, `_clear_audio_buffer` and `_audio_deadline_exceeded` of
-- wyoming_vietnamese/stt.py.
use wyoming_vietnamese.Common.{
  ltb, ◌==◌, if◌then◌else◌, length, pos, Result, ◌>>=◌, ok, ℕ, ◌+◌, Bool, true, false, Option, none,
  some, List, [], ◌++◌,
}
use Prim.Native.String.{String}
use wyoming_vietnamese.Protocol.Budget.{Budget, try_reserve, release}
use wyoming_vietnamese.Stt.{Session}

pub data Appended (K : Type 0) : Type 0 where
  appended : Session K → Appended K
  refused : String → String → Appended K

-- `buffer_budget is not None and not buffer_budget.try_reserve(size)`, negated.
abbrev pub reserve : Option Budget → ℕ → Result (Option Budget × Bool)
reserve none size = ok (none, true)
reserve (some b) size = try_reserve b (pos size) >>= λ t. ok (some t.0, t.1)

-- `if buffer_budget is not None and reserved: buffer_budget.release(reserved)`
abbrev pub give_back : Option Budget → ℕ → Result (Option Budget)
give_back none reserved = ok none
give_back (some b) reserved =
    if reserved == 0 then ok (some b) else release b (pos reserved) >>= λ b'. ok (some b')

abbrev passed : Option ℕ → ℕ → Bool
passed none now = false
passed (some deadline) now = ltb deadline now

module _ {K : Type 0} where
  -- `__init__`
  abbrev pub init : Option Budget → Session K
  init budget = record {
    audio_bytes = [];
    buffer_budget = budget;
    reserved_audio_bytes = 0;
    audio_started = false;
    audio_started_at = none;
    audio_deadline = none;
    audio_chunk_count = 0;
    empty_chunk_count = 0;
    input_audio_bytes = 0;
    input_audio_frames = 0;
    source_format = none;
    converter = none;
  }

  -- `_append_audio`
  unfoldable pub append_audio : ℕ → Session K → List ℕ → Result (Appended K)
  append_audio max_audio_bytes s converted =
      if ltb max_audio_bytes (length s.audio_bytes + length converted)
      then ok (refused "Audio exceeds the configured duration limit" "audio-too-long")
      else do
        (budget, granted) ← reserve s.buffer_budget (length converted)
        ok (
            if granted
            then appended (record s {
              buffer_budget = budget;
              reserved_audio_bytes = s.reserved_audio_bytes + length converted;
              audio_bytes = s.audio_bytes ++ converted;
            })
            else refused "STT buffer capacity is busy" "server-busy")

  -- `_clear_audio_buffer`
  unfoldable pub clear_audio_buffer : Session K → Result (Session K)
  clear_audio_buffer s = do
    budget ← give_back s.buffer_budget s.reserved_audio_bytes
    ok (record s { buffer_budget = budget; reserved_audio_bytes = 0; audio_bytes = [] })

  -- `_audio_deadline_exceeded`
  abbrev pub audio_deadline_exceeded : Session K → ℕ → Bool
  audio_deadline_exceeded s now = passed s.audio_deadline now
