-- ===== src/Scalability/WorkerPool/Settling.antt =====
-- Every item that waits is settled, and how, whichever worker takes it and when.
use email_security_gateway.Prelude.{
  ℕ, zero, suc, ◌+◌, ◌-◌, ◌*◌, ◌≡◌, Bool, not, ◌&&◌, List, [], ◌∷◌, length, any, if◌then◌else◌,
  is_some,
}
use email_security_gateway.Text.{Str}
use email_security_gateway.Scalability.WorkerPool.{QueueItem, Pool}

-- The attempts k, k + 1, …, of which there are n
abbrev counts_from : ℕ → ℕ → List ℕ
counts_from k zero = []
counts_from k (suc n) = k ∷ counts_from (k + 1) n

-- One of the attempts that the item has left goes well.
abbrev pub succeeds : QueueItem → Bool
succeeds i =
    any (λ k. not (is_some (i.answer k)))
      (counts_from i.retry_count (suc i.max_retries - i.retry_count))

abbrev one : Bool → ℕ
one b = if b then 1 else 0

-- How many items pass a test
abbrev pub tally : (QueueItem → Bool) → List QueueItem → ℕ
tally p [] = 0
tally p (i ∷ is) = one (p i) + tally p is

-- A test of the identifier and the payload
abbrev pub Test : Type 0
Test = Str → Str → Bool

abbrev pub of_test : Test → QueueItem → Bool
of_test t i = t i.item_id i.payload

-- The items of a test that will fail for good
abbrev pub fails_of : Test → QueueItem → Bool
fails_of t i = not (succeeds i) && of_test t i

-- The items that are processed or will be, and the dead letters of a test, present and future
abbrev pub good : Pool → ℕ
good p =
    p.processed_count + tally succeeds p.items + tally succeeds p.held + tally succeeds p.abandoned

abbrev pub bad : Test → Pool → ℕ
bad t p =
    tally (of_test t) p.dlq
    + tally (fails_of t) p.items
    + tally (fails_of t) p.held
    + tally (fails_of t) p.abandoned

abbrev pub left : Pool → ℕ
left p = 2 * length p.items + length p.held

module _ (concurrency : ℕ) (t : Test) where
  abbrev pub Settled : Pool → Pool → Type 0
  Settled p q =
      (q.items ≡ [])
      × (q.held ≡ [])
      × (q.processed_count + tally succeeds q.abandoned
          ≡ p.processed_count
            + tally succeeds p.items
            + tally succeeds p.held
            + tally succeeds p.abandoned)
      × (tally (of_test t) q.dlq + tally (fails_of t) q.abandoned
          ≡ tally (of_test t) p.dlq
            + tally (fails_of t) p.items
            + tally (fails_of t) p.held
            + tally (fails_of t) p.abandoned)
