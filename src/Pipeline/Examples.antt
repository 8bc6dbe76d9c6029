-- ===== src/Pipeline/Examples.antt =====
-- One chunk, from the producer to the client.
use wyoming_vietnamese.Common.{length, ℕ, ◌≤◌, ◌≡◌, refl, true, false, none, some, [], ◌∷◌}
use wyoming_vietnamese.Pipeline.{
  output_queue_chunks, holding, ended, stopped, writing, Pipeline, init, acquire, put, finish,
  get_chunk, get_end, write, Reach, start, later,
}
use wyoming_vietnamese.Pipeline.Invariant.{is_running}
use wyoming_vietnamese.Pipeline.Order.{Reach-delivers}

abbrev ready : Pipeline ℕ
ready = record init { producer = holding; slots = 127 }

abbrev queued : Pipeline ℕ
queued = record init { slots = 127; queue = some 7 ∷ []; put_chunks = 7 ∷ [] }

abbrev closed : Pipeline ℕ
closed = record queued { producer = ended; lock_held = false; queue = some 7 ∷ none ∷ [] }

abbrev taken : Pipeline ℕ
taken = record closed { queue = none ∷ []; consumer = writing 7 }

abbrev given : Pipeline ℕ
given = record closed { queue = none ∷ []; slots = 128; written = 7 ∷ [] }

abbrev over : Pipeline ℕ
over = record given { queue = []; consumer = stopped }

over-Reach : Reach over
over-Reach =
    later given over
      (later taken given
        (later closed taken
          (later queued closed
            (later ready queued (later init ready start (acquire init 127 refl refl))
              (put ready 7 refl refl))
            (finish queued refl))
          (get_chunk closed 7 (none ∷ []) refl refl))
        (write taken 7 refl))
      (get_end given [] refl refl)

Reach-delivers_example :
    (is_running over.producer ≡ true → length over.queue ≤ output_queue_chunks)
    × (over.lock_held ≡ is_running over.producer)
    × (over.consumer ≡ stopped → (over.written ≡ over.put_chunks) × (over.lock_held ≡ false))
Reach-delivers_example = Reach-delivers over over-Reach
