-- ===== src/Scalability/MessageQueue/Conservation.antt =====
-- No task is lost, and none is tried too often.
use email_security_gateway.Prelude.{
  ℕ, suc, Bool, if◌then◌else◌, ◌+◌, ◌≤◌, ◌<◌, ◌≡◌, ◌⊎◌, inl, inr, refl, some, List, [], ◌∷◌, ◌++◌,
  length, length-append, All, arith, subst, ap, sym, ◌∙◌,
}
use email_security_gateway.Text.{Str}
use email_security_gateway.Scalability.MessageQueue.{
  MessageTask, AsyncMessageQueue, put, new_task, enqueue, dequeue, ack, failed_once, nack,
  WorkerPool, Reach, starts, accepts, takes, finishes, fails, is_cancelled,
}

-- A task that may still be tried: it is new, or it has failed less often than it may.
abbrev pub IsAlive : MessageTask → Type 0
IsAlive t = (t.retries ≡ 0) ⊎ (t.retries < t.max_retries)

abbrev pub IsDead : MessageTask → Type 0
IsDead t = t.max_retries ≤ t.retries

-- A test of what stays the same about a task: its identifier, its payload, its time and its tries
abbrev pub Test : Type 0
Test = Str → Str → ℕ → ℕ → Bool

abbrev pub of_test : Test → MessageTask → Bool
of_test test t = test t.task_id t.payload t.created_at t.max_retries

-- How many tasks pass a test
abbrev pub tally : Test → List MessageTask → ℕ
tally test [] = 0
tally test (t ∷ ts) = (if of_test test t then 1 else 0) + tally test ts

tally-append :
    (test : Test) (xs ys : List MessageTask) → tally test (xs ++ ys) ≡ tally test xs + tally test ys
tally-append test [] ys = omega arith
tally-append test (x ∷ xs) ys = omega (arith, tally-append test xs ys)

pub record IsSound (accepted : List MessageTask) (p : WorkerPool) : Type 0 where
  pub conserved :
      (test : Test)
      → tally test accepted
        ≡ tally test p.queue.queue
          + tally test p.in_flight
          + tally test p.processed
          + tally test p.queue.dlq
          + tally test p.abandoned
  pub counted : p.processed_count ≡ length p.processed
  pub bounded : (p.queue.maxsize ≡ 0) ⊎ (length p.queue.queue ≤ p.queue.maxsize)
  pub waiting_alive : All IsAlive p.queue.queue
  pub taken_alive : All IsAlive p.in_flight
  pub dead : All IsDead p.queue.dlq

module _ {A : Type 0} (P : A → Type 0) where
  All-append : (xs ys : List A) → All P xs → All P ys → All P (xs ++ ys)
  All-append [] ys h k = k
  All-append (x ∷ xs) ys (h, hs) k = (h, All-append xs ys hs k)

  All-split : (xs : List A) (y : A) (ys : List A) → All P (xs ++ y ∷ ys) → P y × All P (xs ++ ys)
  All-split [] y ys (h, hs) = (h, hs)
  All-split (x ∷ xs) y ys (h, hs) = let (k, ks) = All-split xs y ys hs in (k, (h, ks))

tally-split :
    (test : Test) (xs : List MessageTask) (y : MessageTask) (ys : List MessageTask)
    → tally test (xs ++ y ∷ ys) ≡ (if of_test test y then 1 else 0) + tally test (xs ++ ys)
tally-split test [] y ys = refl
tally-split test (x ∷ xs) y ys = omega (arith, tally-split test xs y ys)

-- What `put` does when it does not wait
abbrev IsPut : MessageTask → AsyncMessageQueue → AsyncMessageQueue → Type 0
IsPut t q q' =
    (q'.queue ≡ q.queue ++ t ∷ [])
    × (q'.dlq ≡ q.dlq)
    × (q'.maxsize ≡ q.maxsize)
    × ((q.maxsize ≡ 0) ⊎ (length q.queue < q.maxsize))

put_lem : (t : MessageTask) (q q' : AsyncMessageQueue) → put t q ≡ some q' → IsPut t q q'
put_lem t q q' h = ground arith

enqueue_lem :
    (task_id payload : Str) (now max_retries : ℕ) (q q' : AsyncMessageQueue)
    → enqueue task_id payload now max_retries q ≡ some q'
    → IsPut (new_task task_id payload now max_retries) q q'
unfolding enqueue
enqueue_lem task_id payload now max_retries q q' h = ground arith

dequeue_lem :
    (q q' : AsyncMessageQueue) (t : MessageTask)
    → dequeue q ≡ some (t, q')
    → (q.queue ≡ t ∷ q'.queue) × (q'.dlq ≡ q.dlq) × (q'.maxsize ≡ q.maxsize)
unfolding dequeue
dequeue_lem q q' t h = ground arith

nack_lem :
    (t : MessageTask) (error : Str) (q q' : AsyncMessageQueue)
    → nack t error q ≡ some q'
    → ((t.max_retries ≤ suc t.retries)
        × (q'.queue ≡ q.queue)
        × (q'.maxsize ≡ q.maxsize)
        × (q'.dlq ≡ q.dlq ++ failed_once error t ∷ []))
      ⊎ ((suc t.retries < t.max_retries) × IsPut (failed_once error t) q q')
unfolding nack
nack_lem t error q q' h = ground arith

-- Where `put` puts a live task that stood outside, the queue keeps its bound and its life.
put-bounded :
    (t : MessageTask) (q q' : AsyncMessageQueue)
    → IsPut t q q'
    → (q'.maxsize ≡ 0) ⊎ (length q'.queue ≤ q'.maxsize)
put-bounded t q q' (eq, _, size, room) =
    let len = ap length eq ∙ length-append q.queue (t ∷ []) in
    elim room [ inl free ↦ inl (size ∙ free) | inr below ↦ inr (omega (arith, len, size, below)) ]

put-IsAlive :
    (t : MessageTask) (q q' : AsyncMessageQueue)
    → IsPut t q q'
    → IsAlive t
    → All IsAlive q.queue
    → All IsAlive q'.queue
put-IsAlive t q q' (eq, _, _, _) alive h =
    subst (All IsAlive) (sym eq) (All-append IsAlive q.queue (t ∷ []) h (alive, tt))

put-tally :
    (test : Test) (t : MessageTask) (q q' : AsyncMessageQueue)
    → IsPut t q q'
    → tally test q'.queue + tally test q'.dlq
      ≡ (if of_test test t then 1 else 0) + tally test q.queue + tally test q.dlq
put-tally test t q q' (eq, dead, _, _) =
    omega (arith, ap (tally test) eq ∙ tally-append test q.queue (t ∷ []), ap (tally test) dead)

-- Whatever the order of the workers' steps, the accepted tasks are, one by one (for every test of
-- identifier, payload, time and tries there are as many), those that wait, that a worker has, that were
-- processed, that are dead letters, or that were abandoned when the pool was stopped. The queue keeps to
-- its size, a task that waits or is tried has tries left, and a dead letter has none.
pub Reach-IsSound :
    (maxsize : ℕ) (accepted : List MessageTask) (p : WorkerPool)
    → Reach maxsize accepted p
    → IsSound accepted p
unfolding ack
Reach-IsSound maxsize accepted p starts = record {
  conserved = λ test. refl;
  counted = refl;
  bounded = inr (omega arith);
  waiting_alive = tt;
  taken_alive = tt;
  dead = tt;
}
Reach-IsSound maxsize accepted p (accepts {p = p₀} task_id payload now max_retries q r e) =
    let h = Reach-IsSound maxsize _ p₀ r in
    let t = new_task task_id payload now max_retries in
    let k = enqueue_lem task_id payload now max_retries p₀.queue q e in
    record {
      conserved = λ test. omega (arith, h.conserved test, put-tally test t p₀.queue q k);
      counted = h.counted;
      bounded = put-bounded t p₀.queue q k;
      waiting_alive = put-IsAlive t p₀.queue q k (inl refl) h.waiting_alive;
      taken_alive = h.taken_alive;
      dead = subst (All IsDead) (sym k.1) h.dead;
    }
Reach-IsSound maxsize accepted p (takes {p = p₀} t q r e) =
    let h = Reach-IsSound maxsize _ p₀ r in
    let (eq, dead, size) = dequeue_lem p₀.queue q t e in
    let alive = subst (All IsAlive) eq h.waiting_alive in
    record {
      conserved = λ test. omega (
        arith,
        h.conserved test,
        ap (tally test) eq,
        ap (tally test) dead,
        tally-append test p₀.in_flight (t ∷ []),
      );
      counted = h.counted;
      bounded = elim h.bounded [
        | inl free ↦ inl (size ∙ free)
        | inr below ↦ inr (omega (arith, below, size, ap length eq))
      ];
      waiting_alive = alive.1;
      taken_alive = All-append IsAlive p₀.in_flight (t ∷ []) h.taken_alive (alive.0, tt);
      dead = subst (All IsDead) (sym dead) h.dead;
    }
Reach-IsSound maxsize accepted p (finishes {p = p₀} before after t r e) =
    let h = Reach-IsSound maxsize _ p₀ r in
    record {
      conserved = λ test. omega (
        arith,
        h.conserved test,
        ap (tally test) e ∙ tally-split test before t after,
        tally-append test p₀.processed (t ∷ []),
      );
      counted = omega (arith, h.counted, length-append p₀.processed (t ∷ []));
      bounded = h.bounded;
      waiting_alive = h.waiting_alive;
      taken_alive = (All-split IsAlive before t after (subst (All IsAlive) e h.taken_alive)).1;
      dead = h.dead;
    }
Reach-IsSound maxsize accepted p (fails {p = p₀} before after t error q r e k) =
    let h = Reach-IsSound maxsize _ p₀ r in
    let taken = All-split IsAlive before t after (subst (All IsAlive) e h.taken_alive) in
    let len = λ (test : Test). ap (tally test) e ∙ tally-split test before t after in
    elim (nack_lem t error p₀.queue q k) [
      | inl (spent, same, size, deaths) ↦ record {
        conserved = λ test. omega (
          arith,
          h.conserved test,
          len test,
          ap (tally test) same,
          ap (tally test) deaths ∙ tally-append test p₀.queue.dlq (failed_once error t ∷ []),
        );
        counted = h.counted;
        bounded = elim h.bounded [
          | inl free ↦ inl (size ∙ free)
          | inr below ↦ inr (omega (arith, below, size, ap length same))
        ];
        waiting_alive = subst (All IsAlive) (sym same) h.waiting_alive;
        taken_alive = taken.1;
        dead =
            subst (All IsDead) (sym deaths)
              (All-append IsDead p₀.queue.dlq (failed_once error t ∷ []) h.dead (spent, tt));
      }
      | inr (left, is_put) ↦ record {
        conserved = λ test. omega (
          arith,
          h.conserved test,
          len test,
          put-tally test (failed_once error t) p₀.queue q is_put,
        );
        counted = h.counted;
        bounded = put-bounded (failed_once error t) p₀.queue q is_put;
        waiting_alive =
            put-IsAlive (failed_once error t) p₀.queue q is_put (inr left) h.waiting_alive;
        taken_alive = taken.1;
        dead = subst (All IsDead) (sym is_put.1) h.dead;
      }
    ]
Reach-IsSound maxsize accepted p (is_cancelled {p = p₀} before after t r e) =
    let h = Reach-IsSound maxsize _ p₀ r in
    record {
      conserved = λ test. omega (
        arith,
        h.conserved test,
        ap (tally test) e ∙ tally-split test before t after,
        tally-append test p₀.abandoned (t ∷ []),
      );
      counted = h.counted;
      bounded = h.bounded;
      waiting_alive = h.waiting_alive;
      taken_alive = (All-split IsAlive before t after (subst (All IsAlive) e h.taken_alive)).1;
      dead = h.dead;
    }
