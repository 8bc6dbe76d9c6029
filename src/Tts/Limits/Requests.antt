-- ===== src/Tts/Limits/Requests.antt =====
-- A request that is not streamed closes the connection.
use wyoming_vietnamese.Common.{ltb, length, ℕ, Bool, not, Option, none, some, List}
use wyoming_vietnamese.Tts.{TtsEngine, Config, Session, Request, World, Wire}
use wyoming_vietnamese.Tts.Synthesis as Synthesis
use wyoming_vietnamese.Tts.Synthesis.{Speech, spoken, unspoken}
use wyoming_vietnamese.Tts.Requests.{
  is_supported_text_format, resolve_voice_name, normalize_for_limit, fail, finish_request,
  speak_normalized, speak_request, handle_synthesize,
}
use wyoming_vietnamese.Clauses.{Characters}
use wyoming_vietnamese.Clauses.Spaces.{strip}
use wyoming_vietnamese.Clauses.Matches.{is_empty}
use Prim.Native.String.{String}
use wyoming_vietnamese.Tts.Limits.{IsLimited, if_known-IsLimited, answer-IsLimited}

module _ (lower : String → String) (chars : Characters) (engine : TtsEngine) (c : Config)
    (world : World) (now n b : ℕ) where
  fail-IsLimited :
      (text code : String) (s : Session) (w : Wire)
      → IsLimited c n b (fail lower chars engine c world text code s w)
  unfolding fail
  fail-IsLimited text code s w = answer-IsLimited c n b s _

  finish_request-IsLimited :
      (voice : Option String) (s : Session) (speech : Speech)
      → IsLimited c n b (finish_request lower chars engine c world voice s speech)
  finish_request-IsLimited voice s (spoken bytes w) = tt
  finish_request-IsLimited voice s (unspoken w) = tt
  finish_request-IsLimited voice s (Synthesis.raised e w) = tt

  speak_normalized-IsLimited :
      (voice : Option String) (text : Option (List ℕ)) (s : Session) (w : Wire)
      → IsLimited c n b (speak_normalized lower chars engine c world voice text s w)
  speak_normalized-IsLimited voice none s w = fail-IsLimited _ _ s w
  speak_normalized-IsLimited voice (some text) s w =
      if_known-IsLimited c n b (ltb c.max_text_chars (length text)) _ _
        (λ e. fail-IsLimited _ _ s w) (λ e. finish_request-IsLimited voice s _)

  speak_request-IsLimited :
      (text : List ℕ) (supported : Bool) (voice : Option (Option String)) (s : Session) (w : Wire)
      → IsLimited c n b (speak_request lower chars engine c world text supported voice s w)
  speak_request-IsLimited text supported none s w = fail-IsLimited _ _ s w
  speak_request-IsLimited text supported (some voice) s w =
      if_known-IsLimited c n b (is_empty text) _ _ (λ e. fail-IsLimited _ _ s w)
        (λ e.
          if_known-IsLimited c n b (not supported) _ _ (λ e'. fail-IsLimited _ _ s w)
            (λ e'.
              if_known-IsLimited c n b (ltb c.max_text_chars (length text)) _ _
                (λ e''. fail-IsLimited _ _ s w)
                (λ e''.
                  speak_normalized-IsLimited voice (normalize_for_limit engine text voice) s w)))

  pub handle_synthesize-IsLimited :
      (request : Option Request) (s : Session) (w : Wire)
      → IsLimited c n b (handle_synthesize lower chars engine c world request s w)
  unfolding handle_synthesize
  handle_synthesize-IsLimited none s w = fail-IsLimited _ _ s w
  handle_synthesize-IsLimited (some r) s w =
      speak_request-IsLimited (strip chars.is_space r.text) (is_supported_text_format r.text_format)
        (resolve_voice_name lower engine c r.voice) s w
