-- ===== src/Pipeline/Invariant.antt =====
-- What holds in every state of the queue and its two tasks.
use wyoming_vietnamese.Common.{
  length, ℕ, suc, ◌+◌, ◌≤◌, ◌≡◌, refl, ap, Bool, true, false, Option, none, some, List, [], ◌∷◌,
  ◌++◌, arith,
}
use wyoming_vietnamese.Pipeline.{
  output_queue_chunks, Producer, running, holding, ended, Consumer, waiting, stopped, aborting,
  aborted, writing, Pipeline, chunks_in,
}

abbrev pub held_slots : Producer → ℕ
held_slots running = 0
held_slots holding = 1
held_slots ended = 0

abbrev pub most_ends : Producer → ℕ
most_ends running = 0
most_ends holding = 0
most_ends ended = 1

abbrev pub is_running : Producer → Bool
is_running running = true
is_running holding = true
is_running ended = false

pub no_ends : (producer : Producer) → is_running producer ≡ true → most_ends producer ≡ 0
no_ends running h = refl
no_ends holding h = refl
no_ends ended h = cc

pub ended_lem : (producer : Producer) → 1 ≤ most_ends producer → producer ≡ ended
ended_lem running h = absurd (omega arith)
ended_lem holding h = absurd (omega arith)
ended_lem ended h = refl

module _ {A : Type 0} where
  abbrev pub count_ends : List (Option A) → ℕ
  count_ends [] = 0
  count_ends (none ∷ queue) = suc (count_ends queue)
  count_ends (some c ∷ queue) = count_ends queue

  -- Nothing stands behind a `None`.
  abbrev pub EndsLast : List (Option A) → Type 0
  EndsLast [] = Unit {0}
  EndsLast (none ∷ queue) = queue ≡ []
  EndsLast (some c ∷ queue) = EndsLast queue

  abbrev pub held : Consumer A → List A
  held waiting = []
  held stopped = []
  held aborting = []
  held aborted = []
  held (writing c) = c ∷ []

  abbrev pub WhenStopped : Consumer A → List (Option A) → Producer → Type 0
  WhenStopped waiting queue producer = Unit {0}
  WhenStopped stopped queue producer = (queue ≡ []) × (producer ≡ ended)
  WhenStopped aborting queue producer = Unit {0}
  WhenStopped aborted queue producer = Unit {0}
  WhenStopped (writing c) queue producer = Unit {0}

  abbrev pub is_aborted : Consumer A → Bool
  is_aborted waiting = false
  is_aborted stopped = false
  is_aborted aborting = true
  is_aborted aborted = true
  is_aborted (writing c) = false

  -- Every slot is free, or of one chunk that is queued, written or about to be queued; `None` is
  -- queued once, by a producer that has ended, and last; the lock is held until the producer ends;
  -- and without an abort the chunks are where they should be.
  pub record IsOrdered (p : Pipeline A) : Type 0 where
    pub accounted :
        p.slots + length (chunks_in p.queue) + held_slots p.producer + length (held p.consumer)
        ≡ output_queue_chunks
    pub one_end : count_ends p.queue ≤ most_ends p.producer
    pub ends_last : EndsLast p.queue
    pub lock : p.lock_held ≡ is_running p.producer
    pub at_end : WhenStopped p.consumer p.queue p.producer
    pub flagged : is_aborted p.consumer ≡ p.abort
    pub in_order :
        p.abort ≡ false → p.written ++ (held p.consumer ++ chunks_in p.queue) ≡ p.put_chunks

  pub chunks_in-append :
      (xs ys : List (Option A)) → chunks_in (xs ++ ys) ≡ chunks_in xs ++ chunks_in ys
  chunks_in-append [] ys = refl
  chunks_in-append (none ∷ xs) ys = chunks_in-append xs ys
  chunks_in-append (some c ∷ xs) ys = ap (◌∷◌ c) (chunks_in-append xs ys)

  pub count_ends-append :
      (xs ys : List (Option A)) → count_ends (xs ++ ys) ≡ count_ends xs + count_ends ys
  count_ends-append [] ys = omega arith
  count_ends-append (none ∷ xs) ys = omega (arith, count_ends-append xs ys)
  count_ends-append (some c ∷ xs) ys = count_ends-append xs ys

  pub EndsLast-append :
      (xs : List (Option A)) (o : Option A) → count_ends xs ≡ 0 → EndsLast (xs ++ (o ∷ []))
  EndsLast-append [] none h = refl
  EndsLast-append [] (some c) h = tt
  EndsLast-append (none ∷ xs) o h = absurd (omega arith)
  EndsLast-append (some c ∷ xs) o h = EndsLast-append xs o h

  pub EndsLast-tail : (o : Option A) (xs : List (Option A)) → EndsLast (o ∷ xs) → EndsLast xs
  EndsLast-tail none xs h = rw h tt
  EndsLast-tail (some c) xs h = h

  pub length-chunks_in :
      (queue : List (Option A)) → length queue ≡ length (chunks_in queue) + count_ends queue
  length-chunks_in [] = omega arith
  length-chunks_in (none ∷ queue) = omega (arith, length-chunks_in queue)
  length-chunks_in (some c ∷ queue) = omega (arith, length-chunks_in queue)
