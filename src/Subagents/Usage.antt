-- ===== src/Subagents/Usage.antt =====
-- pi-subagents/src/usage.ts. Amounts are whole numbers, a cost in a unit small enough for that.
pub mod Reports
use sages.Prelude.{
  ℕ, ◌+◌, Bool, true, false, ◌&&◌, Option, none, some, List, [], ◌∷◌, push, get_or, ◌==◌,
  if◌then◌else◌,
}

pub record LifetimeUsage : Type 0 where
  pub input : ℕ
  pub output : ℕ
  pub cache_write : ℕ
  pub cache_read : Option ℕ
  pub cost : Option ℕ

unfoldable pub get_lifetime_total : Option LifetimeUsage → ℕ
get_lifetime_total none = 0
get_lifetime_total (some u) = u.input + u.output + u.cache_write

unfoldable pub get_lifetime_cost : Option LifetimeUsage → ℕ
get_lifetime_cost none = 0
get_lifetime_cost (some u) = get_or u.cost 0

-- `if (delta.x) into.x = (into.x ?? 0) + delta.x`
abbrev pub add_optional : Option ℕ → Option ℕ → Option ℕ
add_optional into none = into
add_optional into (some d) = if d == 0 then into else some (get_or into 0 + d)

unfoldable pub add_usage : LifetimeUsage → LifetimeUsage → LifetimeUsage
add_usage into delta = record {
  input = into.input + delta.input;
  output = into.output + delta.output;
  cache_write = into.cache_write + delta.cache_write;
  cache_read = add_optional into.cache_read delta.cache_read;
  cost = add_optional into.cost delta.cost;
}

pub record Cost : Type 0 where
  pub input : ℕ
  pub output : ℕ
  pub cache_read : ℕ
  pub cache_write : ℕ
  pub total : ℕ

pub record ReportedUsage : Type 0 where
  pub input : ℕ
  pub output : ℕ
  pub cache_read : ℕ
  pub cache_write : ℕ
  pub total_tokens : ℕ
  pub cost : Cost

unfoldable pub to_reported_usage : LifetimeUsage → Option ReportedUsage
to_reported_usage u =
    let cache_read = get_or u.cache_read 0 in
    let cost = get_or u.cost 0 in
    if u.input == 0 && (u.output == 0 && (u.cache_write == 0 && (cache_read == 0 && cost == 0)))
    then none
    else some record {
      input = u.input;
      output = u.output;
      cache_read = cache_read;
      cache_write = u.cache_write;
      total_tokens = u.input + u.output + cache_read + u.cache_write;
      cost = record { input = 0; output = 0; cache_read = 0; cache_write = 0; total = cost };
    }

abbrev pub nothing_spent : LifetimeUsage
nothing_spent = record {
  input = 0;
  output = 0;
  cache_write = 0;
  cache_read = some 0;
  cost = some 0;
}

pub record PendingUsagePool : Type 0 where
  pub pending : LifetimeUsage
  pub dirty : Bool

abbrev pub new_pool : PendingUsagePool
new_pool = record { pending = nothing_spent; dirty = false }

unfoldable pub add : LifetimeUsage → PendingUsagePool → PendingUsagePool
add delta p = record { pending = add_usage p.pending delta; dirty = true }

unfoldable pub drain : PendingUsagePool → Option ReportedUsage × PendingUsagePool
drain p = if p.dirty then (to_reported_usage p.pending, new_pool) else (none, p)

-- `getSessionStats()`; `none` where it throws. A percentage is a whole number.
pub record SessionStats : Type 0 where
  pub input : ℕ
  pub output : ℕ
  pub cache_write : ℕ
  pub percent : Option ℕ

unfoldable pub get_session_tokens : Option (Option SessionStats) → ℕ
get_session_tokens (some (some t)) = t.input + t.output + t.cache_write
get_session_tokens _ = 0

unfoldable pub get_session_context_percent : Option (Option SessionStats) → Option ℕ
get_session_context_percent (some (some t)) = t.percent
get_session_context_percent _ = none
