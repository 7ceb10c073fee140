-- ===== src/Queue/Worker.antt =====
-- queue/worker.py: the loop of `QueueWorker` over the task queue. Whether the handler of a message
-- returns or raises is given for each round. The table of handlers has every message type.
use vela_flow_public.Prelude.{ℕ, zero, suc, ◌+◌, Bool, true, false, none, some}
use vela_flow_public.Queue.{TaskQueue, dequeue, requeue, mark_done}

module _ {ℓ} {P : Type ℓ} where
  -- one round of the loop, where the handler returns if the first argument is true
  unfoldable pub run_once : Bool → ℕ → TaskQueue P → TaskQueue P
  run_once returns max_size q =
      let (msg, q') = dequeue q in
      elim msg [
        | none ↦ q'
        | some m ↦ elim returns [ true ↦ (mark_done q').1 | false ↦ (requeue max_size m q').1 ]
      ]

  -- a number of rounds, from round number `i` on
  unfoldable pub run_loop : (ℕ → Bool) → ℕ → ℕ → ℕ → TaskQueue P → TaskQueue P
  run_loop returns max_size i zero q = q
  run_loop returns max_size i (suc rounds) q =
      run_loop returns max_size (i + 1) rounds (run_once (returns i) max_size q)
