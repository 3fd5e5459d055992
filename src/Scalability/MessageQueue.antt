-- ===== src/Scalability/MessageQueue.antt =====
-- scalability/message_queue.py: the queue, its dead letters, and the workers' steps on it, which
-- may come in any order. A task in the queue, in the hands of a worker and in `_pending` is one object;
-- nothing reads the values of `_pending`, so it is the list of its keys. A call of
-- `asyncio.Queue.put` or `get` that would wait is `none`.
pub mod Conservation
use email_security_gateway.Prelude.{
  ℕ, suc, ◌+◌, ◌≡◌, Bool, true, false, ◌||◌, not, Option, none, some, List, [], ◌∷◌, ◌++◌, length,
  ltb, leb, eqb, filter, ◌==◌, if◌then◌else◌,
}
use email_security_gateway.Text.{Str, str, str_eq, member}

pub record MessageTask : Type 0 where
  pub task_id : Str
  pub payload : Str
  pub created_at : ℕ
  pub retries : ℕ
  pub max_retries : ℕ
  pub last_error : Str

pub record AsyncMessageQueue : Type 0 where
  pub maxsize : ℕ
  pub queue : List MessageTask
  pub pending : List Str
  pub dlq : List MessageTask

abbrev pub new_queue : ℕ → AsyncMessageQueue
new_queue maxsize = record { maxsize = maxsize; queue = []; pending = []; dlq = [] }

-- A queue of size 0 is unbounded.
abbrev pub has_room : AsyncMessageQueue → Bool
has_room q = eqb q.maxsize 0 || ltb (length q.queue) q.maxsize

abbrev pub put : MessageTask → AsyncMessageQueue → Option AsyncMessageQueue
put t q = if has_room q then some (record q { queue = q.queue ++ t ∷ [] }) else none

abbrev pub add_pending : Str → List Str → List Str
add_pending task_id ids = if member task_id ids then ids else ids ++ task_id ∷ []

abbrev pub pop_pending : Str → List Str → List Str
pop_pending task_id ids = filter (λ i. not (i == task_id)) ids

abbrev pub registered : Str → Option AsyncMessageQueue → Option AsyncMessageQueue
registered task_id none = none
registered task_id (some q) = some (record q { pending = add_pending task_id q.pending })

abbrev pub new_task : Str → Str → ℕ → ℕ → MessageTask
new_task task_id payload now max_retries = record {
  task_id = task_id;
  payload = payload;
  created_at = now;
  retries = 0;
  max_retries = max_retries;
  last_error = [];
}

-- `enqueue`, with the identifier that uuid4 draws
unfoldable pub enqueue : Str → Str → ℕ → ℕ → AsyncMessageQueue → Option AsyncMessageQueue
enqueue task_id payload now max_retries q =
    registered task_id (put (new_task task_id payload now max_retries) q)

abbrev pub first_of :
    List MessageTask → AsyncMessageQueue → Option (MessageTask × AsyncMessageQueue)
first_of [] q = none
first_of (t ∷ ts) q = some (t, record q { queue = ts })

unfoldable pub dequeue : AsyncMessageQueue → Option (MessageTask × AsyncMessageQueue)
dequeue q = first_of q.queue q

unfoldable pub ack : Str → AsyncMessageQueue → AsyncMessageQueue
ack task_id q = record q { pending = pop_pending task_id q.pending }

abbrev pub bury : MessageTask → AsyncMessageQueue → AsyncMessageQueue
bury t q = record q { pending = pop_pending t.task_id q.pending; dlq = q.dlq ++ t ∷ [] }

abbrev pub failed_once : Str → MessageTask → MessageTask
failed_once error_reason t = record t { retries = suc t.retries; last_error = error_reason }

unfoldable pub nack : MessageTask → Str → AsyncMessageQueue → Option AsyncMessageQueue
nack t error_reason q =
    let t' = failed_once error_reason t in
    if leb t'.max_retries t'.retries then some (bury t' q) else put t' q

-- The queue with its workers: the tasks that they have taken and not finished, those that they finished,
-- and those that they held when `stop` cancelled them
pub record WorkerPool : Type 0 where
  pub queue : AsyncMessageQueue
  pub in_flight : List MessageTask
  pub processed : List MessageTask
  pub abandoned : List MessageTask
  pub processed_count : ℕ
  pub failed_count : ℕ

abbrev pub new_pool : ℕ → WorkerPool
new_pool maxsize = record {
  queue = new_queue maxsize;
  in_flight = [];
  processed = [];
  abandoned = [];
  processed_count = 0;
  failed_count = 0;
}

-- What can happen, in any order: a task is accepted, a worker takes one, finishes it, or fails with
-- it, or is cancelled while it has one. The list has the tasks accepted so far.
pub data Reach (maxsize : ℕ) : List MessageTask → WorkerPool → Type 0 where
  starts : Reach maxsize [] (new_pool maxsize)
  accepts :
      {accepted : List MessageTask} {p : WorkerPool} (task_id payload : Str) (now max_retries : ℕ)
      (q : AsyncMessageQueue)
      → Reach maxsize accepted p
      → enqueue task_id payload now max_retries p.queue ≡ some q
      → Reach maxsize (new_task task_id payload now max_retries ∷ accepted) (record p { queue = q })
  takes :
      {accepted : List MessageTask} {p : WorkerPool} (t : MessageTask) (q : AsyncMessageQueue)
      → Reach maxsize accepted p
      → dequeue p.queue ≡ some (t, q)
      → Reach maxsize accepted (record p { queue = q; in_flight = p.in_flight ++ t ∷ [] })
  finishes :
      {accepted : List MessageTask} {p : WorkerPool} (before after : List MessageTask)
      (t : MessageTask)
      → Reach maxsize accepted p
      → p.in_flight ≡ before ++ t ∷ after
      → Reach maxsize accepted (record p {
        queue = ack t.task_id p.queue;
        in_flight = before ++ after;
        processed = p.processed ++ t ∷ [];
        processed_count = suc p.processed_count;
      })
  fails :
      {accepted : List MessageTask} {p : WorkerPool} (before after : List MessageTask)
      (t : MessageTask) (error : Str) (q : AsyncMessageQueue)
      → Reach maxsize accepted p
      → p.in_flight ≡ before ++ t ∷ after
      → nack t error p.queue ≡ some q
      → Reach maxsize accepted
          (record p { queue = q; in_flight = before ++ after; failed_count = suc p.failed_count })
  is_cancelled :
      {accepted : List MessageTask} {p : WorkerPool} (before after : List MessageTask)
      (t : MessageTask)
      → Reach maxsize accepted p
      → p.in_flight ≡ before ++ t ∷ after
      → Reach maxsize accepted
          (record p { in_flight = before ++ after; abandoned = p.abandoned ++ t ∷ [] })
