-- ===== src/Queue.antt =====
-- queue/tasks.py: `TaskQueue`. A message is its fields; the time of its creation and its payload
-- are data of the environment.
pub mod Worker
pub mod Drain
pub mod Scheduler
pub mod Quota
pub mod Handlers
pub mod Delivery
mod Tests
use vela_flow_public.Prelude.{
  ℕ, ◌+◌, ◌-◌, String, Bool, true, false, Option, none, some, List, [], ◌∷◌, ◌++◌, drop, length,
  leb, if◌then◌else◌,
}

pub data MessageType : Type 0 where
  pipeline_run digest_generate llm_generate notion_sync board_analysis : MessageType
  scoring_config tenant_operation notebooklm_extract rag_query : MessageType

pub record QueueMessage {ℓ} (P : Type ℓ) : Type ℓ where
  pub message_id : String
  pub message_type : MessageType
  pub tenant_id : String
  pub payload : P
  pub created_at : ℕ
  pub retry_count : ℕ
  pub max_retries : ℕ

-- the count of unfinished tasks is the one that `queue.Queue` keeps for `task_done`
pub record TaskQueue {ℓ} (P : Type ℓ) : Type ℓ where
  pub queue : List (QueueMessage P)
  pub unfinished : ℕ
  pub dead_letter : List (QueueMessage P)
  pub dead_letter_dropped : ℕ
  pub processed_count : ℕ

module _ {ℓ} {P : Type ℓ} where
  abbrev pub new_queue : TaskQueue P
  new_queue = record {
    queue = [];
    unfinished = 0;
    dead_letter = [];
    dead_letter_dropped = 0;
    processed_count = 0;
  }

  unfoldable pub enqueue : QueueMessage P → TaskQueue P → TaskQueue P
  enqueue m q = record q { queue = q.queue ++ m ∷ []; unfinished = q.unfinished + 1 }

  -- `none` where the wait for a message runs out
  unfoldable pub dequeue : TaskQueue P → Option (QueueMessage P) × TaskQueue P
  dequeue q = elim q.queue [ [] ↦ (none, q) | m ∷ ms ↦ (some m, record q { queue = ms }) ]

  -- `deque.append` of a deque with `maxlen`: what no longer fits is dropped on the left
  abbrev pub append_capped : ℕ → List (QueueMessage P) → QueueMessage P → List (QueueMessage P)
  append_capped maxlen ms m = let all = ms ++ m ∷ [] in drop (length all - maxlen) all

  -- the size of the dead-letter queue is given; the class sets `dead_letter_max_size`
  unfoldable pub requeue : ℕ → QueueMessage P → TaskQueue P → Bool × TaskQueue P
  unfolding enqueue
  requeue max_size m q =
      if leb m.max_retries m.retry_count
      then (
        false,
        record q {
          dead_letter = append_capped max_size q.dead_letter m;
          dead_letter_dropped =
              if leb max_size (length q.dead_letter)
              then q.dead_letter_dropped + 1
              else q.dead_letter_dropped;
        },
      )
      else (true, enqueue (record m { retry_count = m.retry_count + 1 }) q)

  -- How `mark_done` ends: `task_done` raises a `ValueError` where it is called too often, after
  -- the count of processed messages has Grown.
  unfoldable pub mark_done : TaskQueue P → Bool × TaskQueue P
  mark_done q =
      let counted = record q { processed_count = q.processed_count + 1 } in
      if leb 1 q.unfinished
      then (true, record counted { unfinished = q.unfinished - 1 })
      else (false, counted)

  abbrev pub depth : TaskQueue P → ℕ
  depth q = length q.queue

  abbrev pub dead_letter_count : TaskQueue P → ℕ
  dead_letter_count q = length q.dead_letter

abbrev pub dead_letter_max_size : ℕ
dead_letter_max_size = 10000
