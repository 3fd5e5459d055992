-- ===== src/Scalability/WorkerPool.antt =====
-- scalability/queue.py: the queue in front of the analysis and the workers that empty it, with the steps
-- of the workers in any order as a relation. Waiting between two attempts is no step, and the queue has
-- room for what is accepted.
pub mod Settling
use email_security_gateway.Prelude.{
  ℕ, zero, suc, ◌+◌, ◌-◌, ◌<◌, ◌≡◌, Bool, true, false, Option, none, some, List, [], ◌∷◌, ◌++◌,
  length,
}
use email_security_gateway.Text.{Str, str}

-- `answer k` is what the handler answers at the attempt with retry_count k: nothing, or the text of an
-- exception.
pub record QueueItem : Type 0 where
  pub item_id : Str
  pub payload : Str
  pub max_retries : ℕ
  pub retry_count : ℕ
  pub last_error : Str
  pub answer : ℕ → Option Str

-- AsyncMessageQueue, with the items that workers hold, and those that they held when `stop` cancelled them
pub record Pool : Type 0 where
  pub items : List QueueItem
  pub held : List QueueItem
  pub abandoned : List QueueItem
  pub dlq : List QueueItem
  pub processed_count : ℕ

abbrev pub enqueue : QueueItem → Pool → Pool
enqueue i p = record p { items = p.items ++ i ∷ [] }

abbrev pub failed_once : Str → QueueItem → QueueItem
failed_once error i = record i { retry_count = i.retry_count + 1; last_error = error }

abbrev pub mark_done : Pool → Pool
mark_done p = record p { processed_count = p.processed_count + 1 }

abbrev pub move_to_dlq : QueueItem → Str → Pool → Pool
move_to_dlq i error p = record p { dlq = p.dlq ++ record i { last_error = error } ∷ [] }

abbrev pub answered : Option Str → QueueItem → (Str → Bool × QueueItem) → Bool × QueueItem
answered none i again = (true, i)
answered (some error) i again = again error

-- `while item.retry_count <= item.max_retries`, with the attempts that are left as the bound
unfoldable pub attempt : ℕ → QueueItem → Bool × QueueItem
attempt zero i = (false, i)
attempt (suc n) i = answered (i.answer i.retry_count) i (λ error. attempt n (failed_once error i))

abbrev pub settled : Bool × QueueItem → Pool → Pool
settled (true, i) p = mark_done p
settled (false, i) p = move_to_dlq i (str "Exceeded max retries: " ++ i.last_error) p

-- What a worker does with an item it has taken
abbrev pub work : QueueItem → Pool → Pool
work i = settled (attempt (suc i.max_retries - i.retry_count) i)

module _ (concurrency : ℕ) where
  -- A worker that holds nothing takes the first item, or one that holds an item is done with it, or is
  -- cancelled.
  pub data Step : Pool → Pool → Type 0 where
    takes :
        {p : Pool} (i : QueueItem) (is : List QueueItem)
        → p.items ≡ i ∷ is
        → length p.held < concurrency
        → Step p (record p { items = is; held = p.held ++ i ∷ [] })
    finishes :
        {p : Pool} (i : QueueItem) (xs ys : List QueueItem)
        → p.held ≡ xs ++ i ∷ ys
        → Step p (work i (record p { held = xs ++ ys }))
    is_cancelled :
        {p : Pool} (i : QueueItem) (xs ys : List QueueItem)
        → p.held ≡ xs ++ i ∷ ys
        → Step p (record p { held = xs ++ ys; abandoned = p.abandoned ++ i ∷ [] })

  -- A run of the workers, with the number of its steps
  pub data Run : Pool → ℕ → Pool → Type 0 where
    stays : {p : Pool} → Run p 0 p
    goes : {p q r : Pool} {n : ℕ} → Step p q → Run q n r → Run p (suc n) r
