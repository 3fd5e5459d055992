-- ===== src/Scalability/Autoscaler.antt =====
-- scalability/autoscaler.py: how many workers there should be, from the depth of the queue.
use Prim.Native.Nat.{min, max}
use email_security_gateway.Prelude.{
  ℕ, zero, suc, ◌+◌, ◌-◌, ◌*◌, ◌≤◌, ◌<◌, ◌≡◌, ◌&&◌, arith, ltb, if◌then◌else◌,
}

pub record AutoscalerConfig : Type 0 where
  pub min_workers : ℕ
  pub max_workers : ℕ
  pub target_queue_per_worker : ℕ
  pub scale_up_threshold : ℕ
  pub scale_down_threshold : ℕ

unfoldable pub evaluate_desired_workers : AutoscalerConfig → ℕ → ℕ → ℕ
evaluate_desired_workers config queue_depth current_workers =
    if ltb config.scale_up_threshold queue_depth
    then min (current_workers + 2) config.max_workers
    else if ltb queue_depth config.scale_down_threshold && ltb config.min_workers current_workers
    then max (current_workers - 1) config.min_workers
    else current_workers

-- The workers after n evaluations at one depth, when each is followed
abbrev pub followed : AutoscalerConfig → ℕ → ℕ → ℕ → ℕ
followed config depth zero workers = workers
followed config depth (suc n) workers =
    followed config depth n (evaluate_desired_workers config depth workers)

loaded_reaches :
    (config : AutoscalerConfig) (depth n workers : ℕ)
    → config.scale_up_threshold < depth
    → workers ≤ config.max_workers
    → config.max_workers ≤ workers + 2 * n
    → followed config depth n workers ≡ config.max_workers
unfolding evaluate_desired_workers
loaded_reaches config depth zero workers h b e = omega arith
loaded_reaches config depth (suc n) workers h b e =
    loaded_reaches config depth n (evaluate_desired_workers config depth workers) h (ground arith)
      (ground arith)

idle_reaches :
    (config : AutoscalerConfig) (depth n workers : ℕ)
    → depth < config.scale_down_threshold
    → depth ≤ config.scale_up_threshold
    → config.min_workers ≤ workers
    → workers ≤ config.min_workers + n
    → followed config depth n workers ≡ config.min_workers
unfolding evaluate_desired_workers
idle_reaches config depth zero workers h u b e = omega arith
idle_reaches config depth (suc n) workers h u b e =
    idle_reaches config depth n (evaluate_desired_workers config depth workers) h u (ground arith)
      (ground arith)
