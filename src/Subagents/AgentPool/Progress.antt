-- ===== src/Subagents/AgentPool/Progress.antt =====
-- That no event leaves an agent in the queue while its pool has room.
use sages.Prelude.{
  suc, push, ◌-◌, arith, ◌||◌, ◌&&◌, not, true, Bool, every, ℕ, ◌≡◌, refl, false, Option, none,
  some, List, [], ◌∷◌, any, if◌then◌else◌, String, ◌==◌,
}
use sages.Prelude.Map
use sages.Subagents.AgentPool.{
  Manager, AgentRecord, Pool, Signal, no_signal, live, already_aborted, place, enqueue, start_agent,
  start_run, start_resume, give_up, cleans_up, restarts, settles_resumed, resume, resume_record,
  resumed_record, settle_resume, occupies_pool_slot, is_queued, background, Run, pool_for,
  waits_for, spawn, Event, spawns, aborts, makes_worktree, fails, settles, limits,
  limits_foreground, handle, handle_all, new_manager, settle_run, fail_startup, worktree_ready,
  is_running, status_of, take_run, abort, with_status, queued, stopped, pool_has_room,
  set_max_concurrent, set_max_concurrent_foreground,
}
use sages.Subagents.AgentPool.Draining.{
  NotStalled, is_stalled, start_run-NoMoreRoom, any-NoMoreRoom, queue-start_run, kept-NotStalled,
  push-NotStalled, waits_for_full, abort_record-NotStalled, settle_taken-NotStalled,
  fail_taken-NotStalled, settle_resumed-NotStalled, drain_queue_lem,
}

start_run-NotStalled : (run : Run) (m : Manager) → NotStalled m → NotStalled (start_run run m)
unfolding NotStalled start_run pool_has_room
start_run-NotStalled run m v =
    rw (queue-start_run run m)
      (any-NoMoreRoom m (start_run run m) m.queue (start_run-NoMoreRoom run m) v)

place-NotStalled :
    (id : String) (r : AgentRecord) (s : Signal) (q : Option Pool) (m : Manager)
    → ((p : Pool) → q ≡ some p → pool_has_room m p ≡ false)
    → NotStalled m
    → NotStalled (place id r s q m)
unfolding place enqueue start_agent
place-NotStalled id r s none m full v =
    start_run-NotStalled
      (record { id = id; pool = pool_for r m; queued_pool = none; resumed = none }) m v
place-NotStalled id r already_aborted (some p) m full v =
    kept-NotStalled m (Map.modify id (with_status stopped) m.agents) m.runs v
place-NotStalled id r no_signal (some p) m full v =
    push-NotStalled (record { id = id; pool = p; resumes = false }) m
      (Map.modify id (with_status queued) m.agents) (full p refl) v
place-NotStalled id r live (some p) m full v =
    push-NotStalled (record { id = id; pool = p; resumes = false }) m
      (Map.modify id (with_status queued) m.agents) (full p refl) v

resume_record-NotStalled :
    (id : String) (r : Option AgentRecord) (m : Manager)
    → NotStalled m
    → NotStalled (resume_record id r m)
unfolding resume_record start_resume
resume_record-NotStalled id none m v = v
resume_record-NotStalled id (some r) m v =
    go (is_running r.status || is_queued r.status) (occupies_pool_slot (resumed_record r))
      (pool_has_room m background) refl
  where
    m' : Manager
    m' = record m { agents = Map.set id (resumed_record r) m.agents }

    go :
        (a b c : Bool)
        → pool_has_room m background ≡ c
        → NotStalled (
            if a
            then m
            else if b && not c
            then record m' {
              queue = push (record { id = id; pool = background; resumes = true }) m'.queue;
            }
            else start_resume id (resumed_record r) m')
    go true b c h = v
    go false true false h =
        push-NotStalled (record { id = id; pool = background; resumes = true }) m m'.agents h v
    go false true true h =
        start_run-NotStalled
          (record { id = id; pool = none; queued_pool = none; resumed = some (resumed_record r) })
          m' (kept-NotStalled m m'.agents m.runs v)
    go false false c h =
        start_run-NotStalled
          (record { id = id; pool = none; queued_pool = none; resumed = some (resumed_record r) })
          m' (kept-NotStalled m m'.agents m.runs v)

-- The callback of an event does not throw where nothing would catch it.
abbrev pub is_calm : Event → Bool
is_calm (fails id throws) = not throws
is_calm (settles id outcome throws) = not throws
is_calm _ = true

abbrev gives_up : Option (Run × List Run) → ℕ → ℕ
gives_up none n = n
gives_up (some t) n = suc n

-- The worktrees that wait to be cleaned up after an event, where `n` of them waited before it.
unfoldable pub cleanups : Manager → Event → ℕ → ℕ
cleanups m (makes_worktree id) n =
    if is_running (status_of (Map.get id m.agents))
    then n
    else gives_up (take_run false id m.runs) n
cleanups m cleans_up n = n - 1
cleanups m _ n = n

unfoldable pub all_cleanups : Manager → List Event → ℕ → ℕ
all_cleanups m [] n = n
all_cleanups m (e ∷ events) n = all_cleanups (handle m e) events (cleanups m e n)

worktree_ready-NotStalled :
    (id : String) (m : Manager) (n : ℕ)
    → (n ≡ 0 → NotStalled m)
    → cleanups m (makes_worktree id) n ≡ 0
    → NotStalled (worktree_ready id m)
unfolding worktree_ready cleanups give_up
worktree_ready-NotStalled id m n v =
    go (is_running (status_of (Map.get id m.agents))) (take_run false id m.runs)
  where
    go :
        (b : Bool) (t : Option (Run × List Run))
        → (if b then n else gives_up t n) ≡ 0
        → NotStalled (if b then m else give_up t m)
    go true t h = v h
    go false none h = v h
    go false (some t) h = absurd (omega (arith, h))

handle-NotStalled :
    (m : Manager) (e : Event) (n : ℕ)
    → is_calm e ≡ true
    → (n ≡ 0 → NotStalled m)
    → cleanups m e n ≡ 0
    → NotStalled (handle m e)
unfolding handle spawn settle_run settle_resume resume fail_startup abort set_max_concurrent
    set_max_concurrent_foreground NotStalled cleanups
handle-NotStalled m (spawns id r bypass s) n c v h =
    let m' = record m { agents = Map.set id r m.agents } in
    place-NotStalled id r s (waits_for bypass (pool_for r m') m') m'
      (λ p. waits_for_full bypass (pool_for r m') p m')
      (kept-NotStalled m (Map.set id r m.agents) m.runs (v h))
handle-NotStalled m (aborts id) n c v h = abort_record-NotStalled id (Map.get id m.agents) m (v h)
handle-NotStalled m (makes_worktree id) n c v h = worktree_ready-NotStalled id m n v h
handle-NotStalled m (restarts id) n c v h =
    resume_record-NotStalled id (Map.get id m.agents) m (v h)
handle-NotStalled m cleans_up n c v h = drain_queue_lem m
handle-NotStalled m (fails id throws) n c v h =
    fail_taken-NotStalled id throws (take_run false id m.runs) m (ground (arith, c)) (v h)
handle-NotStalled m (settles id o throws) n c v h =
    settle_taken-NotStalled id o throws (take_run false id m.runs) m (ground (arith, c)) (v h)
handle-NotStalled m (settles_resumed id o) n c v h =
    settle_resumed-NotStalled id o (take_run true id m.runs) m (v h)
handle-NotStalled m (limits k) n c v h =
    drain_queue_lem (record m { max_concurrent = if k == 0 then 1 else k })
handle-NotStalled m (limits_foreground k) n c v h =
    drain_queue_lem (record m { max_concurrent_foreground = k })

NotStalled-from :
    (m : Manager) (es : List Event) (n : ℕ)
    → every is_calm es ≡ true
    → (n ≡ 0 → NotStalled m)
    → all_cleanups m es n ≡ 0
    → NotStalled (handle_all m es)
unfolding handle_all all_cleanups every
NotStalled-from m [] n c v h = v h
NotStalled-from m (e ∷ es) n c v h =
    NotStalled-from (handle m e) es (cleanups m e n) (ground (arith, c))
      (handle-NotStalled m e n (ground (arith, c)) v) h

-- However agents are spawned on a new manager, queued, aborted, resumed in the background, fail to
-- start, give up on a worktree or settle, no agent is left waiting in the queue while the pool that
-- it waits for has room; but for the time in which a worktree that was given up is being cleaned up,
-- and if no completion callback throws where nothing catches that.
pub never_stalled :
    (max max_foreground : ℕ) (es : List Event)
    → every is_calm es ≡ true
    → all_cleanups (new_manager max max_foreground) es 0 ≡ 0
    → is_stalled (handle_all (new_manager max max_foreground) es) ≡ false
unfolding NotStalled any
never_stalled max max_foreground es c h =
    NotStalled-from (new_manager max max_foreground) es 0 c (λ e. refl) h
