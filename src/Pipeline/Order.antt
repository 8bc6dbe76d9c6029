-- ===== src/Pipeline/Order.antt =====
-- The bound of the queue, and the order of the chunks.
use wyoming_vietnamese.Common.{
  length, length-append, ℕ, ◌+◌, ◌≤◌, ◌≡◌, refl, sym, ap, subst, ◌∙◌, true, false, Option, none,
  some, List, [], ◌∷◌, ◌++◌, arith,
}
use wyoming_vietnamese.Pipeline.{
  output_queue_chunks, Producer, running, holding, ended, Consumer, waiting, stopped, aborting,
  aborted, writing, Pipeline, init, chunks_in, Step, acquire, put, give_back, finish, get_chunk,
  get_end, write, fail_write, give_up, drain, Reach, start, later,
}
use mathlib.Core.List.{append_assoc, append-nil}
use wyoming_vietnamese.Pipeline.Invariant.{
  held_slots, most_ends, is_running, no_ends, ended_lem, count_ends, EndsLast, held, WhenStopped,
  is_aborted, IsOrdered, chunks_in-append, count_ends-append, EndsLast-append, EndsLast-tail,
  length-chunks_in,
}

module _ {A : Type 0} where
  -- The producer had not ended before.
  still_running :
      (consumer : Consumer A) (queue queue' : List (Option A)) (producer producer' : Producer)
      → is_running producer ≡ true
      → WhenStopped consumer queue producer
      → WhenStopped consumer queue' producer'
  still_running waiting queue queue' producer producer' r h = tt
  still_running stopped queue queue' producer producer' r (e, e') =
      let wrong : true ≡ false = sym r ∙ ap is_running e' in cc
  still_running aborting queue queue' producer producer' r h = tt
  still_running aborted queue queue' producer producer' r h = tt
  still_running (writing c) queue queue' producer producer' r h = tt

  append-put :
      (front middle : List A) (queue : List (Option A)) (c : A) (whole : List A)
      → front ++ (middle ++ chunks_in queue) ≡ whole
      → front ++ (middle ++ chunks_in (queue ++ (some c ∷ []))) ≡ whole ++ (c ∷ [])
  append-put front middle queue c whole h =
      ap (λ (u : List A). front ++ (middle ++ u)) (chunks_in-append queue (some c ∷ []))
      ∙ ap (λ (u : List A). front ++ u) (sym (append_assoc middle (chunks_in queue) (c ∷ [])))
      ∙ sym (append_assoc front (middle ++ chunks_in queue) (c ∷ []))
      ∙ ap (λ (u : List A). u ++ (c ∷ [])) h

  abbrev held_count : Consumer A → ℕ
  held_count k = length (held k)

  aborted-IsOrdered :
      (p : Pipeline A) (consumer : Consumer A)
      → held consumer ≡ []
      → WhenStopped consumer [] p.producer
      → p.slots + length (chunks_in p.queue) + held_slots p.producer ≡ output_queue_chunks
      → p.lock_held ≡ is_running p.producer
      → p.abort ≡ true
      → is_aborted consumer ≡ true
      → IsOrdered (record p {
        queue = [];
        slots = p.slots + length (chunks_in p.queue);
        consumer = consumer;
      })
  aborted-IsOrdered p consumer none_held at_end total lock abort flag = record {
    accounted = omega (arith, total, ap length none_held);
    one_end = omega arith;
    ends_last = tt;
    lock = lock;
    at_end = at_end;
    flagged = flag ∙ sym abort;
    in_order = λ na. cc;
  }

  Step-IsOrdered : {p q : Pipeline A} → Step p q → IsOrdered p → IsOrdered q
  Step-IsOrdered (acquire p n r s) h = record {
    accounted = omega (arith, h.accounted, ap held_slots r);
    one_end = omega (arith, h.one_end, ap most_ends r);
    ends_last = h.ends_last;
    lock = h.lock ∙ ap is_running r;
    at_end = still_running p.consumer p.queue p.queue p.producer holding (ap is_running r) h.at_end;
    flagged = h.flagged;
    in_order = h.in_order;
  }
  Step-IsOrdered (put p c r na) h = record {
    accounted = omega (
      arith,
      h.accounted,
      ap held_slots r,
      ap (length {A = A}) (chunks_in-append p.queue (some c ∷ [])),
      length-append (chunks_in p.queue) (c ∷ []),
    );
    one_end = omega (arith, h.one_end, ap most_ends r, count_ends-append p.queue (some c ∷ []));
    ends_last = EndsLast-append p.queue (some c) (omega (arith, h.one_end, ap most_ends r));
    lock = h.lock ∙ ap is_running r;
    at_end =
        still_running p.consumer p.queue (p.queue ++ (some c ∷ [])) p.producer running
          (ap is_running r) h.at_end;
    flagged = h.flagged;
    in_order = λ na'. append-put p.written (held p.consumer) p.queue c p.put_chunks (h.in_order na);
  }
  Step-IsOrdered (give_back p r a) h = record {
    accounted = omega (arith, h.accounted, ap held_slots r);
    one_end = omega (arith, h.one_end, ap most_ends r);
    ends_last = h.ends_last;
    lock = h.lock ∙ ap is_running r;
    at_end = still_running p.consumer p.queue p.queue p.producer running (ap is_running r) h.at_end;
    flagged = h.flagged;
    in_order = h.in_order;
  }
  Step-IsOrdered (finish p r) h = record {
    accounted = omega (
      arith,
      h.accounted,
      ap held_slots r,
      ap (length {A = A}) (chunks_in-append p.queue (none ∷ [])),
      length-append (chunks_in p.queue) [],
    );
    one_end = omega (arith, h.one_end, ap most_ends r, count_ends-append p.queue (none ∷ []));
    ends_last = EndsLast-append p.queue none (omega (arith, h.one_end, ap most_ends r));
    lock = refl;
    at_end =
        still_running p.consumer p.queue (p.queue ++ (none ∷ [])) p.producer ended (ap is_running r)
          h.at_end;
    flagged = h.flagged;
    in_order = λ na.
        ap (λ (u : List A). p.written ++ (held p.consumer ++ u))
          (chunks_in-append p.queue (none ∷ []) ∙ append-nil (chunks_in p.queue))
        ∙ h.in_order na;
  }
  Step-IsOrdered (get_chunk p c rest w e) h = record {
    accounted =
        omega (
          arith,
          h.accounted,
          ap held_count w,
          ap (λ (q : List (Option A)). length (chunks_in q)) e,
        );
    one_end = omega (arith, h.one_end, ap count_ends e);
    ends_last = EndsLast-tail (some c) rest (subst EndsLast e h.ends_last);
    lock = h.lock;
    at_end = tt;
    flagged = sym (ap is_aborted w) ∙ h.flagged;
    in_order = λ na.
        sym (
          ap (λ (k : Consumer A). p.written ++ (held k ++ chunks_in p.queue)) w
          ∙ ap (λ (q : List (Option A)). p.written ++ chunks_in q) e)
        ∙ h.in_order na;
  }
  Step-IsOrdered (get_end p rest w e) h = record {
    accounted =
        omega (
          arith,
          h.accounted,
          ap held_count w,
          ap (λ (q : List (Option A)). length (chunks_in q)) e,
        );
    one_end = omega (arith, h.one_end, ap count_ends e);
    ends_last = EndsLast-tail none rest (subst EndsLast e h.ends_last);
    lock = h.lock;
    at_end = (
      subst EndsLast e h.ends_last,
      ended_lem p.producer (omega (arith, h.one_end, ap count_ends e)),
    );
    flagged = sym (ap is_aborted w) ∙ h.flagged;
    in_order = λ na.
        sym (
          ap (λ (k : Consumer A). p.written ++ (held k ++ chunks_in p.queue)) w
          ∙ ap (λ (q : List (Option A)). p.written ++ chunks_in q) e)
        ∙ h.in_order na;
  }
  Step-IsOrdered (write p c w) h = record {
    accounted = omega (arith, h.accounted, ap held_count w);
    one_end = h.one_end;
    ends_last = h.ends_last;
    lock = h.lock;
    at_end = tt;
    flagged = sym (ap is_aborted w) ∙ h.flagged;
    in_order = λ na.
        append_assoc p.written (c ∷ []) (chunks_in p.queue)
        ∙ sym (ap (λ (k : Consumer A). p.written ++ (held k ++ chunks_in p.queue)) w)
        ∙ h.in_order na;
  }
  Step-IsOrdered (fail_write p c w) h =
      aborted-IsOrdered (record p { slots = p.slots + 1; abort = true }) aborting refl tt
        (omega (arith, h.accounted, ap held_count w)) h.lock refl refl
  Step-IsOrdered (give_up p w) h =
      aborted-IsOrdered (record p { abort = true }) aborting refl tt
        (omega (arith, h.accounted, ap held_count w)) h.lock refl refl
  Step-IsOrdered (drain p w) h =
      aborted-IsOrdered p aborted refl tt (omega (arith, h.accounted, ap held_count w)) h.lock
        (sym h.flagged ∙ ap is_aborted w) refl

  init-IsOrdered : IsOrdered (init {A = A})
  init-IsOrdered = record {
    accounted = omega arith;
    one_end = omega arith;
    ends_last = tt;
    lock = refl;
    at_end = tt;
    flagged = refl;
    in_order = λ na. refl;
  }

  Reach-IsOrdered : {p : Pipeline A} → Reach p → IsOrdered p
  Reach-IsOrdered start = init-IsOrdered
  Reach-IsOrdered (later p q r s) = Step-IsOrdered s (Reach-IsOrdered r)

  -- In every state that the two tasks reach, in whatever order they run: while the producer has not
  -- ended the queue has a place free, so that `put_nowait` never finds it full; the inference lock is
  -- held just as long; and once the writer has seen the end, the chunks it has written are those that
  -- were queued, in their order, and the lock is free.
  pub Reach-delivers :
      (p : Pipeline A)
      → Reach p
      → (is_running p.producer ≡ true → length p.queue ≤ output_queue_chunks)
        × (p.lock_held ≡ is_running p.producer)
        × (p.consumer ≡ stopped → (p.written ≡ p.put_chunks) × (p.lock_held ≡ false))
  Reach-delivers p r =
      let h = Reach-IsOrdered r in
      (
        λ running_still.
            let none_left = no_ends p.producer running_still in
            omega (arith, h.accounted, h.one_end, none_left, length-chunks_in p.queue),
        h.lock,
        λ seen.
            let (empty, over) : (p.queue ≡ []) × (p.producer ≡ ended) =
              subst (λ (k : Consumer A). WhenStopped k p.queue p.producer) seen h.at_end in
            (
              sym (append-nil p.written)
                  ∙ sym (
                      ap (λ (k : Consumer A). p.written ++ (held k ++ chunks_in p.queue)) seen
                      ∙ ap (λ (q : List (Option A)). p.written ++ chunks_in q) empty)
                  ∙ h.in_order (sym h.flagged ∙ ap is_aborted seen),
              h.lock ∙ ap is_running over,
            ),
      )
