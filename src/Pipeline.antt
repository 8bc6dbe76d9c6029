-- ===== src/Pipeline.antt =====
-- The queue between `_produce_audio` and the loop of `_synthesize` that writes its chunks, in
-- wyoming_vietnamese/tts.py, as the steps of the two tasks. A step is what a task does from one
-- suspension to the next. `put_chunks` is a record of what was queued, which the code does not keep.
pub mod Invariant
pub mod Order
mod Examples
use wyoming_vietnamese.Common.{
  length, ℕ, suc, ◌+◌, ◌≡◌, Bool, true, false, Option, none, some, List, [], ◌∷◌, ◌++◌,
}

abbrev pub output_queue_chunks : ℕ
output_queue_chunks = 128

-- `_produce_audio`: it runs, it has a slot for a chunk, or it has ended.
pub data Producer : Type 0 where
  running holding ended : Producer

-- The loop of `_synthesize`: it waits for the queue, it writes a chunk, it has seen the end, or it has
-- called `_abort_audio_producer`, which has not drained the queue for the last time, or has.
pub data Consumer (A : Type 0) : Type 0 where
  waiting stopped aborting aborted : Consumer A
  writing : A → Consumer A

pub record Pipeline (A : Type 0) : Type 0 where
  pub queue : List (Option A)
  pub slots : ℕ
  pub producer : Producer
  pub consumer : Consumer A
  pub lock_held : Bool
  pub abort : Bool
  pub written : List A
  pub put_chunks : List A

-- The state when the producer has been started.
abbrev pub init : {A : Type 0} → Pipeline A
init = record {
  queue = [];
  slots = output_queue_chunks;
  producer = running;
  consumer = waiting;
  lock_held = true;
  abort = false;
  written = [];
  put_chunks = [];
}

-- The chunks of a queue, without the `None` at its end.
abbrev pub chunks_in : {A : Type 0} → List (Option A) → List A
chunks_in [] = []
chunks_in (none ∷ queue) = chunks_in queue
chunks_in (some c ∷ queue) = c ∷ chunks_in queue

-- `_drain_audio_queue`
abbrev pub drain_audio_queue : {A : Type 0} → Pipeline A → Pipeline A
drain_audio_queue p = record p { queue = []; slots = p.slots + length (chunks_in p.queue) }

-- `_abort_audio_producer` up to its first wait.
abbrev pub abort_audio_producer : {A : Type 0} → Pipeline A → Pipeline A
abort_audio_producer p = record (drain_audio_queue p) { abort = true; consumer = aborting }

pub data Step {A : Type 0} : Pipeline A → Pipeline A → Type 0 where
  -- `output_slots.acquire()`
  acquire :
      (p : Pipeline A) (n : ℕ)
      → p.producer ≡ running
      → p.slots ≡ suc n
      → Step p (record p { producer = holding; slots = n })
  -- `output_queue.put_nowait(chunk)`
  put :
      (p : Pipeline A) (c : A)
      → p.producer ≡ holding
      → p.abort ≡ false
      → Step p (record p {
        producer = running;
        queue = p.queue ++ (some c ∷ []);
        put_chunks = p.put_chunks ++ (c ∷ []);
      })
  -- `if abort.is_set(): output_slots.release()`
  give_back :
      (p : Pipeline A)
      → p.producer ≡ holding
      → p.abort ≡ true
      → Step p (record p { producer = running; slots = p.slots + 1 })
  -- The end of the `finally`: the lock is released, and `None` is queued.
  finish :
      (p : Pipeline A)
      → p.producer ≡ running
      → Step p (record p { producer = ended; lock_held = false; queue = p.queue ++ (none ∷ []) })
  -- `output_queue.get()` returns a chunk, or `None`.
  get_chunk :
      (p : Pipeline A) (c : A) (rest : List (Option A))
      → p.consumer ≡ waiting
      → p.queue ≡ some c ∷ rest
      → Step p (record p { queue = rest; consumer = writing c })
  get_end :
      (p : Pipeline A) (rest : List (Option A))
      → p.consumer ≡ waiting
      → p.queue ≡ none ∷ rest
      → Step p (record p { queue = rest; consumer = stopped })
  -- The write ends, and `output_slots.release()`.
  write :
      (p : Pipeline A) (c : A)
      → p.consumer ≡ writing c
      → Step p
          (record p { consumer = waiting; slots = p.slots + 1; written = p.written ++ (c ∷ []) })
  -- The write raises: the slot is released, and the producer is aborted.
  fail_write :
      (p : Pipeline A) (c : A)
      → p.consumer ≡ writing c
      → Step p (abort_audio_producer (record p { slots = p.slots + 1 }))
  -- The wait is cancelled, or the start of the audio could not be written.
  give_up : (p : Pipeline A) → p.consumer ≡ waiting → Step p (abort_audio_producer p)
  -- The end of `_abort_audio_producer`.
  drain :
      (p : Pipeline A)
      → p.consumer ≡ aborting
      → Step p (record (drain_audio_queue p) { consumer = aborted })

pub data Reach {A : Type 0} : Pipeline A → Type 0 where
  start : Reach init
  later : (p q : Pipeline A) → Reach p → Step p q → Reach q
