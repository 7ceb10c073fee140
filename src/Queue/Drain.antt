-- ===== src/Queue/Drain.antt =====
-- The worker empties its queue, and what becomes of a message whose handler always raises.
use vela_flow_public.Prelude.{
  ℕ, zero, suc, ◌+◌, ◌-◌, ◌≤◌, ◌≡◌, refl, Bool, false, List, [], ◌∷◌, ◌++◌, arith, leb, length, ◌<◌,
  if◌then◌else◌,
}
use vela_flow_public.Queue.{
  QueueMessage, TaskQueue, enqueue, dequeue, append_capped, requeue, mark_done,
}
use vela_flow_public.Queue.Worker.{run_once, run_loop}

module _ {ℓ} {P : Type ℓ} where
  -- the most rounds that the waiting messages can take: one, and one for each retry that is left
  abbrev pub work : List (QueueMessage P) → ℕ
  work [] = 0
  work (m ∷ ms) = (m.max_retries - m.retry_count) + 1 + work ms

  work-append :
      (ms : List (QueueMessage P)) (m : QueueMessage P)
      → work (ms ++ m ∷ []) ≡ work ms + ((m.max_retries - m.retry_count) + 1)
  work-append [] m = omega arith
  work-append (n ∷ ms) m = omega (arith, work-append ms m)

  work-run_once :
      (returns : Bool) (max_size : ℕ) (q : TaskQueue P)
      → work (run_once returns max_size q).queue ≤ work q.queue - 1
  unfolding run_once dequeue mark_done requeue enqueue
  work-run_once returns max_size q =
      elim q.queue
        as (λ ms. work (run_once returns max_size (record q { queue = ms })).queue ≤ work ms - 1) [
          | [] ↦ omega arith
          | m ∷ ms ↦ ground (arith, work-append ms (record m { retry_count = m.retry_count + 1 }))
        ]

  no_work : (ms : List (QueueMessage P)) → work ms ≤ 0 → ms ≡ []
  no_work [] h = refl
  no_work (m ∷ ms) h = ground arith

  -- Whichever handlers raise, the queue is empty after as many rounds as its messages have tries
  -- left, if nothing else is enqueued meanwhile.
  pub drains :
      (returns : ℕ → Bool) (max_size i rounds : ℕ) (q : TaskQueue P)
      → work q.queue ≤ rounds
      → (run_loop returns max_size i rounds q).queue ≡ []
  unfolding run_loop
  drains returns max_size i zero q enough = no_work q.queue enough
  drains returns max_size i (suc rounds) q enough =
      drains returns max_size (i + 1) rounds (run_once (returns i) max_size q)
        (omega (arith, work-run_once (returns i) max_size q))

  -- one message that waits alone, after some tries
  abbrev pub alone : QueueMessage P → ℕ → ℕ → TaskQueue P → TaskQueue P
  alone m tried unfinished q = record q {
    queue = record m { retry_count = tried } ∷ [];
    unfinished = unfinished;
  }

  -- what the last try leaves
  abbrev dead : ℕ → QueueMessage P → ℕ → TaskQueue P → TaskQueue P
  dead max_size m unfinished q = record q {
    queue = [];
    unfinished = unfinished;
    dead_letter = append_capped max_size q.dead_letter (record m { retry_count = m.max_retries });
    dead_letter_dropped =
        if leb max_size (length q.dead_letter)
        then q.dead_letter_dropped + 1
        else q.dead_letter_dropped;
  }

  last_try :
      (max_size tried unfinished : ℕ) (m : QueueMessage P) (q : TaskQueue P)
      → m.max_retries ≡ tried
      → run_once false max_size (alone m tried unfinished q) ≡ dead max_size m unfinished q
  unfolding run_once dequeue requeue enqueue
  last_try max_size tried unfinished m q h = ground arith

  next_try :
      (max_size tried unfinished : ℕ) (m : QueueMessage P) (q : TaskQueue P)
      → tried < m.max_retries
      → run_once false max_size (alone m tried unfinished q)
        ≡ alone m (tried + 1) (unfinished + 1) q
  unfolding run_once dequeue requeue enqueue
  next_try max_size tried unfinished m q h = ground arith

  -- The only message of a queue, whose handler raises every time, is tried once more than it has
  -- retries left. Then nothing waits, the message is the latest dead letter with all its retries
  -- used, nothing was counted as processed, and the queue's count of unfinished tasks has Grown by
  -- one for each retry.
  pub poison :
      (max_size i left tried unfinished : ℕ) (m : QueueMessage P) (q : TaskQueue P)
      → m.max_retries ≡ tried + left
      → let end = run_loop (λ _. false) max_size i (suc left) (alone m tried unfinished q) in
        (end.queue ≡ [])
        × (end.dead_letter
            ≡ append_capped max_size q.dead_letter (record m { retry_count = m.max_retries }))
        × (end.processed_count ≡ q.processed_count)
        × (end.unfinished ≡ unfinished + left)
  unfolding run_loop
  poison max_size i zero tried unfinished m q h =
      rw (last_try max_size tried unfinished m q (omega arith)) (refl, refl, refl, omega arith)
  poison max_size i (suc left) tried unfinished m q h =
      let (a, b, c, d) =
        poison max_size (i + 1) left (tried + 1) (unfinished + 1) m q (omega arith) in
      rw (next_try max_size tried unfinished m q (omega arith), run_loop) (a, b, c, omega arith)
