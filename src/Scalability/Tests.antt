-- ===== src/Scalability/Tests.antt =====
-- Runs of the queues: a task is accepted, taken, and fails for the only time it may, and a pool that
-- holds an item which fails once.
use email_security_gateway.Prelude.{ℕ, zero, suc, ◌≡◌, Option, none, some, [], ◌∷◌, refl}
use email_security_gateway.Text.{Str, str, str_beq}
use email_security_gateway.Scalability.MessageQueue.{
  MessageTask, AsyncMessageQueue, new_task, enqueue, dequeue, nack, failed_once, WorkerPool,
  new_queue, new_pool, Reach, starts, accepts, takes, fails,
}
use email_security_gateway.Scalability.MessageQueue.Conservation.{IsSound, Reach-IsSound}
use email_security_gateway.Scalability.WorkerPool.{QueueItem, Pool, attempt, work}

abbrev task : MessageTask
task = new_task (str "t") (str "mail") 5 1

abbrev waiting : AsyncMessageQueue
waiting = record (new_queue 10) { queue = task ∷ []; pending = str "t" ∷ [] }

abbrev buried : AsyncMessageQueue
buried = record (new_queue 10) { dlq = failed_once (str "e") task ∷ [] }

abbrev after_failure : WorkerPool
after_failure = record (new_pool 10) { queue = buried; failed_count = 1 }

one_failure : Reach 10 (task ∷ []) after_failure
unfolding enqueue dequeue nack str_beq
one_failure =
    fails [] [] task (str "e") buried
      (takes task (record waiting { queue = [] })
        (accepts (str "t") (str "mail") 5 1 waiting starts refl) refl)
      refl refl

Reach-IsSound_example : IsSound (task ∷ []) after_failure
Reach-IsSound_example = Reach-IsSound 10 (task ∷ []) after_failure one_failure

abbrev flaky : ℕ → Option Str
flaky zero = some (str "timeout")
flaky (suc n) = none

abbrev item : QueueItem
item = record {
  item_id = str "i";
  payload = str "mail";
  max_retries = 3;
  retry_count = 0;
  last_error = [];
  answer = flaky;
}

abbrev holding : Pool
holding = record { items = []; held = item ∷ []; abandoned = []; dlq = []; processed_count = 0 }

item_succeeds :
    work item (record holding { held = [] }) ≡ record holding { held = []; processed_count = 1 }
unfolding attempt
item_succeeds = refl
