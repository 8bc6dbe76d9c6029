-- ===== src/Lib.antt =====
-- wyoming-vietnamese, a Wyoming server for Vietnamese speech recognition and synthesis.
--
-- A client connects over TCP and sends Wyoming events: a line of JSON, more JSON, and a payload. The
-- reader and the loop of wyoming_vietnamese/protocol.py parse them within limits and hand each to the
-- handler of the connection. The handler of wyoming_vietnamese/combined.py takes a slot of the
-- connection limiter, refuses new requests while the server shuts down, and routes an event to the
-- transcription handler of wyoming_vietnamese/stt.py or to the synthesis handler. Transcription
-- buffers audio under a byte budget that all its handlers share. Synthesis reuses results through the
-- cache of wyoming_vietnamese/cache.py. At start-up wyoming_vietnamese/download.py prepares the model
-- files, and wyoming_vietnamese/cpu.py and wyoming_vietnamese/zerotts_engine.py choose the runtime
-- and its threads.
--
-- Common has the shared tests, lists, signed integers and exceptions, and Common.Bits the laws of the
-- bit operations. Python's `int` is the natural numbers, or the signed ones where a negative value can
-- arrive; an exception is a value of `Error`; a mutated object is returned.
--
-- Protocol: Protocol.Limiter is `ConnectionLimiter` and Protocol.Budget is `ByteBudget`, one function
-- per method. Protocol.Json is what the code reads of a JSON value, Protocol.Frame is
-- `async_read_event_limited` and `_read_length` on a list of bytes, with the JSON parser as a
-- parameter, and Protocol.Connection is `SafeAsyncEventHandler.run`, with the timeouts and the
-- handler as parameters. Its fuel is one more than the bytes of the stream, and every event takes a
-- byte. Protocol.Frame.Grammar says independently what a frame is.
--
-- Cache and Cache.Entries are `BoundedLruCache`: an `OrderedDict` is a list from the oldest entry to
-- the newest, and the clock is an argument. Cache.Accounting, Cache.Eviction, Cache.Lookup,
-- Cache.Expiry, Cache.RoundTrip and Cache.History hold the proofs.
--
-- Protobuf.Varint and Protobuf.Pieces are `_read_varint`, `_skip_protobuf_field`, the parser of
-- `_generate_tokens_from_bpe`, and the two encoders of wyoming_vietnamese/download.py, with the UTF-8
-- decoder as a parameter. A pair of an offset and a limit is the list of the bytes between them. The
-- fuel of the two loops is the number of bytes, and every turn takes one at least.
--
-- Stt, Stt.Buffer, Stt.Requests, Stt.Chunks and Stt.Handler are `SherpaSTTEventHandler`: the state of a
-- connection and one function per method. Events arrive as wyoming's `from_event` parses them; its
-- audio converter, the downmix and the recogniser are parameters. Durations are whole milliseconds,
-- and the comparisons of floating-point seconds are made exactly on them. A failing write is left to
-- Protocol.Connection. The other handlers change the budget between the operations of this one, so
-- that Stt.Safe counts their bytes as a number that no operation changes. The slices of a chunk are
-- at most as many as its bytes, the fuel that they are given. Stt.Delivery follows one stream from its
-- start to its end.
--
-- Combined is `CombinedEventHandler`, with the two subordinate handlers as parameters, and
-- Combined.Admission its use of the limiter, as a sequence of moves: a peer connects, a connection
-- ends, or the server shuts down.
--
-- Threads is `available_cpu_count`, `resolve_cpu_threads` and `resolve_zerotts_thread_budget`, with
-- what the host reports as arguments. Variants is `can_host_execute_variant`, `detect_cpu_variant` and
-- `get_supported_variants_for_host`, from the flags of the host.
--
-- Resources is the tiers, the cache limits, the available memory and the startup estimate of
-- wyoming_vietnamese/resources.py, from the numbers that the host and its cgroups report.
--
-- Clauses is the `StreamClauseDetector` of wyoming_vietnamese/tts.py and the functions on boundaries
-- before it: Clauses.Spaces is `strip` and its parts, Clauses.Matches the matches of the regular
-- expressions and the tests on them, Clauses.Detector the methods. A text is the list of its code
-- points, and what Python says of a character is a parameter. Every round of the loop of `_drain` takes
-- a character of the buffer, whose length is its fuel.
--
-- Tts is the `TTSEventHandler` of wyoming_vietnamese/tts.py: Tts.Output its writes, Tts.Synthesis
-- `_synthesize` with the audio of `_produce_audio`, Tts.Requests the one-shot request, Tts.State and
-- Tts.Stream the streaming lifecycle, Tts.Handler `handle_event`. The engine is a record of what
-- `TTSEngine` and the two optional classes promise. What each write comes to, and what each segment
-- meets of the cache, the lock, the client and the engine, are the parameters of a connection, so that
-- the producer's audio is written in the order in which it is queued. The cache key of a text is taken
-- before the `try` of `_synthesize`, and raises on a text that UTF-8 does not encode. The silences are whole samples,
-- rounded as `round` does.
--
-- Pipeline is the bounded queue between `_produce_audio` and the loop that writes its chunks, as a step
-- relation: the two tasks may run in any order, and the writer may fail or give up in any state.
--
-- Tokens is `split_text_by_tokens` of wyoming_vietnamese/zerotts_engine.py and what it calls, with the
-- number of tokens of a text as a parameter. The binary search has the length of the range as fuel, the
-- loop over a long word the length of the word.
--
-- Voices is `LazyMultiVoiceTTSEngine` of wyoming_vietnamese/tts.py: the engines that are loaded, from the
-- least to the most recently used, with the loading as a parameter.
--
-- Usage is `RecentVoiceStore` of wyoming_vietnamese/voice_usage.py, with the list in the file as its
-- state; a write replaces the file or fails.
--
-- Persistent is the disk tier of `PersistentAudioCache` in wyoming_vietnamese/cache.py: the files of the
-- directory with their contents and times, the accounts of them, `put` and the pruning. Listing, reading
-- and deleting succeed, a write may fail.
--
-- Not modelled: logging, sockets, files and threads, the models and the libraries that run them, the
-- native calls of the producer of audio and their cancellation, the configuration, reading the
-- persistent cache, the downloads, and the scripts under tools.
pub mod Common
pub mod Protocol
pub mod Cache
pub mod Protobuf
pub mod Stt
pub mod Combined
pub mod Threads
pub mod Variants
pub mod Resources
pub mod Clauses
pub mod Tts
pub mod Tokens
pub mod Voices
pub mod Usage
pub mod Persistent
pub mod Pipeline
