-- ===== src/Tasks/Store/Lock.antt =====
-- pi-tasks/src/task-store.ts: `acquireLock` and `releaseLock`. An attempt is what one round of the
-- loop meets in the file system, which is outside of the program.
pub mod Acquire
pub mod Protocol
use sages.Prelude.{
  ℕ, zero, suc, ◌+◌, String, Bool, true, false, Option, none, some, List, [], ◌∷◌, leb, ite,
  str_dec, if◌then◌else◌,
}

-- What the lock file that is there says of its holder: a running process, one that is not
-- running, no readable number; or the file could not be read or removed.
pub data Holder : Type 0 where
  running gone unnamed unreadable : Holder

-- Creating the lock file succeeds, finds it there, or fails for another reason.
pub data Attempt : Type 0 where
  created : Attempt
  exists : Holder → Attempt
  failed : Attempt

pub data Verdict : Type 0 where
  held : ℕ → Verdict
  threw : ℕ → Verdict
  timed_out : Verdict

pub record Acquisition : Type 0 where
  pub verdict : Verdict
  pub unlinked : List ℕ
  pub waits : ℕ

-- LOCK_RETRY_MS, LOCK_MAX_RETRIES
abbrev pub lock_retry_ms : ℕ
lock_retry_ms = 50

abbrev pub lock_max_retries : ℕ
lock_max_retries = 100

-- `pid > 0 ? !isProcessRunning(pid) : i >= 2`
unfoldable pub is_stale : ℕ → Holder → Bool
is_stale i running = false
is_stale i gone = true
is_stale i unnamed = leb 2 i
is_stale i unreadable = false

-- A stale lock is removed and the loop goes on at once; else it waits. What is removed is whatever
-- lock file is there by then: the steps of Protocol have the reading and the removal apart.
unfoldable pub retry : ℕ → Holder → Acquisition → Acquisition
retry i h rest =
    if is_stale i h
    then record rest { unlinked = i ∷ rest.unlinked }
    else record rest { waits = suc rest.waits }

-- The rounds from `i` on, of which `left` are left.
unfoldable pub attempts_from : ℕ → ℕ → (ℕ → Attempt) → Acquisition
unfolding is_stale retry
attempts_from zero i at = record { verdict = timed_out; unlinked = []; waits = 0 }
attempts_from (suc left) i at =
    let rest = attempts_from left (suc i) at in
    elim (at i) [
      | created ↦ record { verdict = held i; unlinked = []; waits = 0 }
      | exists h ↦ retry i h rest
      | failed ↦ record { verdict = threw i; unlinked = []; waits = 0 }
    ]

unfoldable pub acquire_lock : (ℕ → Attempt) → Acquisition
acquire_lock at = attempts_from lock_max_retries 0 at

-- The lock file after `releaseLock`: it goes only if it still holds our token.
unfoldable pub release_lock : String → Option String → Option String
release_lock token none = none
release_lock token (some content) = ite (str_dec content token) none (some content)
