-- ===== src/Subagents/Usage/Reports.antt =====
-- That all spending is reported, once.
use sages.Prelude.{ℕ, ◌+◌, ◌≡◌, refl, false, Option, none, some, List, [], ◌∷◌, push, get_or, arith}
use sages.Subagents.Usage.{
  LifetimeUsage, ReportedUsage, PendingUsagePool, new_pool, add_usage, to_reported_usage, add,
  drain,
}

-- What is counted: tokens of four kinds, and money.
pub data Kind : Type 0 where
  input output cache_write cache_read cost : Kind

abbrev pub spent : Kind → LifetimeUsage → ℕ
spent input u = u.input
spent output u = u.output
spent cache_write u = u.cache_write
spent cache_read u = get_or u.cache_read 0
spent cost u = get_or u.cost 0

abbrev pub reported : Kind → Option ReportedUsage → ℕ
reported k none = 0
reported input (some r) = r.input
reported output (some r) = r.output
reported cache_write (some r) = r.cache_write
reported cache_read (some r) = r.cache_read
reported cost (some r) = r.cost.total

spent-add_usage : (k : Kind) (u d : LifetimeUsage) → spent k (add_usage u d) ≡ spent k u + spent k d
unfolding add_usage
spent-add_usage input u d = refl
spent-add_usage output u d = refl
spent-add_usage cache_write u d = refl
spent-add_usage cache_read u d = ground arith
spent-add_usage cost u d = ground arith

reported_lem : (k : Kind) (u : LifetimeUsage) → reported k (to_reported_usage u) ≡ spent k u
unfolding to_reported_usage
reported_lem input u = ground arith
reported_lem output u = ground arith
reported_lem cache_write u = ground arith
reported_lem cache_read u = ground arith
reported_lem cost u = ground arith

-- Messages that agents send, and results that take what is pending.
pub data Event : Type 0 where
  message : LifetimeUsage → Event
  result : Event

-- The pool after an event, and what its result reports.
unfoldable pub handle : Event → PendingUsagePool → Option ReportedUsage × PendingUsagePool
handle (message d) p = (none, add d p)
handle result p = drain p

unfoldable pub all_reported : Kind → List Event → PendingUsagePool → ℕ
all_reported k [] p = 0
all_reported k (e ∷ es) p = reported k (handle e p).0 + all_reported k es (handle e p).1

unfoldable pub all_spent : Kind → List Event → ℕ
all_spent k [] = 0
all_spent k (message d ∷ es) = spent k d + all_spent k es
all_spent k (result ∷ es) = all_spent k es

-- A pool that is not dirty holds nothing.
abbrev IsClean : PendingUsagePool → Type 0
IsClean p = (k : Kind) → p.dirty ≡ false → spent k p.pending ≡ 0

new_pool-IsClean : IsClean new_pool
new_pool-IsClean input h = refl
new_pool-IsClean output h = refl
new_pool-IsClean cache_write h = refl
new_pool-IsClean cache_read h = refl
new_pool-IsClean cost h = refl

handle-IsClean : (e : Event) (p : PendingUsagePool) → IsClean p → IsClean (handle e p).1
unfolding handle add drain
handle-IsClean (message d) p v k h = cc
handle-IsClean result p v k h = ground (arith, v k, new_pool-IsClean k)

handle_lem :
    (k : Kind) (e : Event) (p : PendingUsagePool)
    → IsClean p
    → reported k (handle e p).0 + spent k (handle e p).1.pending
      ≡ spent k p.pending + all_spent k (e ∷ [])
unfolding handle add drain all_spent
handle_lem k (message d) p v = omega (arith, spent-add_usage k p.pending d)
handle_lem k result p v = ground (arith, v k, new_pool-IsClean k refl, reported_lem k p.pending)

-- A result leaves nothing pending.
emptied : (k : Kind) (p : PendingUsagePool) → IsClean p → spent k (handle result p).1.pending ≡ 0
unfolding handle drain
emptied k p v = ground (arith, v k, new_pool-IsClean k refl)

all_reported_lem :
    (k : Kind) (es : List Event) (p : PendingUsagePool)
    → IsClean p
    → all_reported k (push result es) p ≡ spent k p.pending + all_spent k es
unfolding all_reported all_spent
all_reported_lem k [] p v = omega (arith, handle_lem k result p v, emptied k p v)
all_reported_lem k (message d ∷ es) p v = omega (
  arith,
  handle_lem k (message d) p v,
  all_reported_lem k es (handle (message d) p).1 (handle-IsClean (message d) p v),
)
all_reported_lem k (result ∷ es) p v = omega (
  arith,
  handle_lem k result p v,
  all_reported_lem k es (handle result p).1 (handle-IsClean result p v),
)

-- In whatever order messages come and results take what is pending, once a last result is taken the
-- reports of each kind add up to what the messages spent of it.
pub reported_once :
    (k : Kind) (es : List Event) → all_reported k (push result es) new_pool ≡ all_spent k es
reported_once k es =
    ground (arith, all_reported_lem k es new_pool new_pool-IsClean, new_pool-IsClean k refl)
