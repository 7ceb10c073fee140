-- ===== src/Queue/Tests.antt =====
-- A task queue and its worker at work, and their theorems at concrete inputs.
use vela_flow_public.Prelude.{
  ℕ, zero, suc, ◌+◌, ◌≤◌, ◌≡◌, refl, inl, inr, Bool, true, false, List, [], ◌∷◌, arith,
}
use vela_flow_public.Queue.{
  QueueMessage, pipeline_run, rag_query, TaskQueue, new_queue, enqueue, dequeue, requeue, mark_done,
  append_capped, dead_letter_max_size,
}
use vela_flow_public.Queue.Worker.{run_once, run_loop}
use vela_flow_public.Queue.Delivery.{accounted, IsSound, run_loop-IsSound}
use vela_flow_public.Dict.{lookup, insert}
use vela_flow_public.Queue.Quota
use vela_flow_public.Queue.Quota.{
  Usages, Limits, llm_call, Event, usage_today, use_once, check_quota, persist_usage, after,
  runs_granted, quota_respected,
}
use vela_flow_public.Queue.Drain.{alone, drains, poison}

abbrev digest : QueueMessage ℕ
digest = record {
  message_id = "sched_1";
  message_type = pipeline_run;
  tenant_id = "tenant";
  payload = 0;
  created_at = 0;
  retry_count = 0;
  max_retries = 1;
}

abbrev query : QueueMessage ℕ
query = record digest { message_id = "rag_1"; message_type = rag_query; max_retries = 3 }

abbrev waiting : TaskQueue ℕ
waiting = record new_queue { queue = digest ∷ query ∷ []; unfinished = 2 }

enqueue-waiting : enqueue query (enqueue digest new_queue) ≡ waiting
unfolding enqueue
enqueue-waiting = refl

-- the first two rounds raise, the third returns, and the fourth raises
abbrev rounds : ℕ → Bool
rounds zero = false
rounds (suc zero) = false
rounds (suc (suc zero)) = true
rounds (suc (suc (suc n))) = false

worked : run_loop rounds 10 0 3 waiting ≡ record new_queue {
  queue = record query { retry_count = 1 } ∷ [];
  unfinished = 3;
  processed_count = 1;
}
unfolding run_loop run_once dequeue requeue enqueue mark_done
worked = refl

waiting-IsSound : IsSound dead_letter_max_size waiting
waiting-IsSound = record {
  tries = (omega arith, (omega arith, tt));
  spent = tt;
  capped = omega arith;
}

run_loop-IsSound_example :
    IsSound dead_letter_max_size (run_loop rounds dead_letter_max_size 0 4 waiting)
    × (accounted (run_loop rounds dead_letter_max_size 0 4 waiting) ≡ accounted waiting)
run_loop-IsSound_example = run_loop-IsSound rounds dead_letter_max_size 0 4 waiting waiting-IsSound

drains_example : (run_loop rounds 10 0 6 waiting).queue ≡ []
drains_example = drains rounds 10 0 6 waiting (omega arith)

poison_example :
    let end = run_loop (λ _. false) 1 0 4 (alone query 0 1 new_queue) in
    (end.queue ≡ [])
    × (end.dead_letter ≡ append_capped 1 [] (record query { retry_count = 3 }))
    × (end.processed_count ≡ 0)
    × (end.unfinished ≡ 1 + 3)
poison_example = poison 1 0 3 0 1 query new_queue (omega arith)

-- a limit of two runs, asked for by a tenant three times, with another tenant between
abbrev two_a_day : Limits
two_a_day = record { max_pipeline_runs_per_day = 2; max_llm_calls_per_day = 5 }

abbrev run_of_a : Event
run_of_a = record { id = "a"; kind = Quota.pipeline_run; limits = two_a_day; completes = true }

abbrev of_the_day : List Event
of_the_day =
    run_of_a
    ∷ record run_of_a { id = "b"; limits = record two_a_day { max_pipeline_runs_per_day = 0 } }
    ∷ record run_of_a { completes = false }
    ∷ record run_of_a { kind = llm_call }
    ∷ run_of_a
    ∷ []

abbrev no_usage : Usages
no_usage = record { memory = []; stored = [] }

granted : runs_granted "2025-01-01" "a" of_the_day no_usage ≡ 2
unfolding runs_granted after check_quota persist_usage usage_today use_once lookup insert
granted = refl

quota_respected_example :
    (usage_today "2025-01-01" "a" no_usage).pipeline_runs
      + runs_granted "2025-01-01" "a" of_the_day no_usage
    ≤ 2
unfolding usage_today lookup
quota_respected_example =
    quota_respected "2025-01-01" "a" 2 of_the_day no_usage
      (inr refl, (inl refl, (inr refl, (inr refl, (inr refl, tt))))) (omega arith)
