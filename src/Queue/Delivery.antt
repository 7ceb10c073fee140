-- ===== src/Queue/Delivery.antt =====
-- No message is lost by the queue and the worker, and none is tried too often.
use vela_flow_public.Prelude.{
  ℕ, zero, suc, ◌+◌, ◌-◌, ◌≤◌, ◌≡◌, refl, Bool, true, false, List, [], ◌∷◌, ◌++◌, drop, length,
  length-append, length-drop, All, All-append, arith, leb, leb→le, Bool-cases, inl, inr,
}
use vela_flow_public.Queue.{
  QueueMessage, TaskQueue, enqueue, dequeue, append_capped, requeue, mark_done, depth,
  dead_letter_count,
}
use vela_flow_public.Queue.Worker.{run_once, run_loop}

module _ {ℓ} {P : Type ℓ} where
  -- every message that ever was enqueued and is not being handled
  abbrev pub accounted : TaskQueue P → ℕ
  accounted q = depth q + q.processed_count + dead_letter_count q + q.dead_letter_dropped

  abbrev pub IsTried : QueueMessage P → Type 0
  IsTried m = m.retry_count ≤ m.max_retries

  abbrev pub IsSpent : QueueMessage P → Type 0
  IsSpent m = m.retry_count ≡ m.max_retries

  -- no message has more retries behind it than it may have, the dead letters have had all of
  -- theirs, and they fit their cap
  pub record IsSound (max_size : ℕ) (q : TaskQueue P) : Type ℓ where
    pub tries : All IsTried q.queue
    pub spent : All IsSpent q.dead_letter
    pub capped : dead_letter_count q ≤ max_size

  length-append_capped :
      (maxlen : ℕ) (ms : List (QueueMessage P)) (m : QueueMessage P)
      → length (append_capped maxlen ms m) ≡ (length ms + 1) - (length ms + 1 - maxlen)
  length-append_capped maxlen ms m =
      let all = ms ++ m ∷ [] in
      omega (arith, length-drop (length all - maxlen) all, length-append ms (m ∷ []))

  All-drop :
      (Q : QueueMessage P → Type 0) (n : ℕ) (ms : List (QueueMessage P))
      → All Q ms
      → All Q (drop n ms)
  All-drop Q zero ms h = h
  All-drop Q (suc n) [] h = tt
  All-drop Q (suc n) (m ∷ ms) h = All-drop Q n ms h.1

  requeue-accounted :
      (max_size : ℕ) (m : QueueMessage P) (q : TaskQueue P)
      → dead_letter_count q ≤ max_size
      → accounted (requeue max_size m q).1 ≡ accounted q + 1
  unfolding requeue enqueue
  requeue-accounted max_size m q fits = ground (
    arith,
    length-append_capped max_size q.dead_letter m,
    length-append q.queue (record m { retry_count = m.retry_count + 1 } ∷ []),
  )

  requeue-IsSound :
      (max_size : ℕ) (m : QueueMessage P) (q : TaskQueue P)
      → m.retry_count ≤ m.max_retries
      → IsSound max_size q
      → IsSound max_size (requeue max_size m q).1
  unfolding requeue enqueue
  requeue-IsSound max_size m q tried sound = elim (Bool-cases (leb m.max_retries m.retry_count)) [
    | inl spent ↦
        let all = q.dead_letter ++ m ∷ [] in
        let now = leb→le m.max_retries m.retry_count spent in
        rw spent (record {
          tries = sound.tries;
          spent =
              All-drop IsSpent (length all - max_size) all
                (All-append IsSpent q.dead_letter (m ∷ []) sound.spent (omega arith, tt));
          capped = omega (arith, length-append_capped max_size q.dead_letter m);
        })
    | inr left ↦
        let again = record m { retry_count = m.retry_count + 1 } in
        rw left (record {
          tries = All-append IsTried q.queue (again ∷ []) sound.tries (ground arith, tt);
          spent = sound.spent;
          capped = sound.capped;
        })
  ]

  -- by the messages that wait
  once :
      (max_size : ℕ) (returns : Bool) (ms : List (QueueMessage P)) (rest : TaskQueue P)
      → IsSound max_size (record rest { queue = ms })
      → IsSound max_size (run_once returns max_size (record rest { queue = ms }))
        × (accounted (run_once returns max_size (record rest { queue = ms }))
            ≡ accounted (record rest { queue = ms }))
  unfolding run_once dequeue mark_done
  once max_size returns [] rest sound = (sound, refl)
  once max_size true (m ∷ ms) rest sound = ground arith
  once max_size false (m ∷ ms) rest sound =
      let q = record rest { queue = ms } in
      (
        requeue-IsSound max_size m q sound.tries.0
            (record { tries = sound.tries.1; spent = sound.spent; capped = sound.capped }),
        omega (arith, requeue-accounted max_size m q sound.capped),
      )

  run_once-IsSound :
      (returns : Bool) (max_size : ℕ) (q : TaskQueue P)
      → IsSound max_size q
      → IsSound max_size (run_once returns max_size q)
        × (accounted (run_once returns max_size q) ≡ accounted q)
  unfolding run_once dequeue mark_done
  run_once-IsSound returns max_size q sound =
      once max_size returns q.queue (record q { queue = [] }) sound

  -- From a sound queue, however many rounds the worker runs, and whichever handlers raise: the number
  -- of messages that wait, are counted as processed, are dead letters or are counted as dropped
  -- dead letters stays the same in all; and the queue stays sound, that is, no waiting message has
  -- more retries behind it than it may have, every dead letter has had all of its retries, and the
  -- dead letters fit their cap.
  pub run_loop-IsSound :
      (returns : ℕ → Bool) (max_size i rounds : ℕ) (q : TaskQueue P)
      → IsSound max_size q
      → IsSound max_size (run_loop returns max_size i rounds q)
        × (accounted (run_loop returns max_size i rounds q) ≡ accounted q)
  unfolding run_loop
  run_loop-IsSound returns max_size i zero q sound = (sound, refl)
  run_loop-IsSound returns max_size i (suc rounds) q sound =
      let (sound', same) = run_once-IsSound (returns i) max_size q sound in
      let (sound'', same') =
        run_loop-IsSound returns max_size (i + 1) rounds (run_once (returns i) max_size q) sound' in
      (sound'', omega arith)
