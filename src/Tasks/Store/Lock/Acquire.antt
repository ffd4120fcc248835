-- ===== src/Tasks/Store/Lock/Acquire.antt =====
-- When the acquire loop succeeds, what it removes, and how long it waits.
use sages.Prelude.{
  ℕ, zero, suc, ◌+◌, ◌*◌, ◌≤◌, ◌<◌, ◌≡◌, refl, ◌⊎◌, inl, inr, ◌↔◌, List, [], ◌∷◌, arith, Bool-cases,
  leb, ℕ_discrete, sym, ap, ◌∙◌,
}
use sages.Tasks.Store.Lock.{
  Holder, gone, unnamed, running, unreadable, Attempt, created, exists, failed, Verdict, held,
  threw, Acquisition, is_stale, retry, attempts_from, acquire_lock, lock_retry_ms, lock_max_retries,
}

abbrev verdict_of : Acquisition → Verdict
verdict_of a = a.verdict

-- Every attempt from `i` up to `k` finds a lock file.
abbrev pub AllTaken : ℕ → ℕ → (ℕ → Attempt) → Type 0
AllTaken i k at = (j : ℕ) → i ≤ j → j < k → (h : Holder) × (at j ≡ exists h)

-- A lock file that the loop may remove at an attempt.
abbrev pub IsRemovable : ℕ → Attempt → Type 0
IsRemovable i a = (a ≡ exists gone) ⊎ ((a ≡ exists unnamed) × (2 ≤ i))

abbrev pub AllRemovable : (ℕ → Attempt) → List ℕ → Type 0
AllRemovable at [] = Unit {0}
AllRemovable at (i ∷ l) = IsRemovable i (at i) × AllRemovable at l

module _ (left i : ℕ) (at : ℕ → Attempt) where
  -- One round that finds a lock file.
  round_taken :
      (h : Holder)
      → at i ≡ exists h
      → attempts_from (suc left) i at ≡ retry i h (attempts_from left (suc i) at)
  unfolding attempts_from
  round_taken h e = rw (e, attempts_from)

  round_created : at i ≡ created → (attempts_from (suc left) i at).verdict ≡ held i
  unfolding attempts_from
  round_created e = rw (e, attempts_from)

  round_failed : at i ≡ failed → (attempts_from (suc left) i at).verdict ≡ threw i
  unfolding attempts_from
  round_failed e = rw (e, attempts_from)

retry-verdict : (i : ℕ) (h : Holder) (a : Acquisition) → (retry i h a).verdict ≡ a.verdict
unfolding retry
retry-verdict i h a = ground arith

retry-AllRemovable :
    (i : ℕ) (h : Holder) (a : Acquisition) (at : ℕ → Attempt)
    → at i ≡ exists h
    → AllRemovable at a.unlinked
    → AllRemovable at (retry i h a).unlinked
unfolding retry is_stale
retry-AllRemovable i running a at e r = r
retry-AllRemovable i gone a at e r = (inl e, r)
retry-AllRemovable i unnamed a at e r = elim (Bool-cases (leb 2 i)) [
  | inl old ↦ rw old (inr (e, ground arith), r)
  | inr new ↦ rw new r
]
retry-AllRemovable i unreadable a at e r = r

taken_here :
    (i k : ℕ) (at : ℕ → Attempt) (h : Holder)
    → at i ≡ exists h
    → AllTaken (suc i) k at
    → AllTaken i k at
taken_here i k at h e taken j low high = elim (ℕ_discrete i j) [
  | yes q ↦ (h, rw (← q) e)
  | no q ↦ taken j (omega arith) high
]

held_of_first :
    (left i k : ℕ) (at : ℕ → Attempt)
    → i ≤ k
    → k < i + left
    → at k ≡ created
    → AllTaken i k at
    → (attempts_from left i at).verdict ≡ held k
held_of_first zero i k at h l e taken = absurd (omega arith)
held_of_first (suc left) i k at h l e taken = elim (ℕ_discrete i k) [
  | yes q ↦ rw (← q) (round_created left i at (rw q e))
  | no q ↦
      let (holder, p) = taken i (omega arith) (omega arith) in
      rw (round_taken left i at holder p, retry-verdict i holder)
        (held_of_first left (suc i) k at (omega arith) (omega arith) e
          (λ j low high. taken j (omega arith) high))
]

first_of_held :
    (left i k : ℕ) (at : ℕ → Attempt)
    → (attempts_from left i at).verdict ≡ held k
    → (i ≤ k) × (k < i + left) × (at k ≡ created) × AllTaken i k at
first_of_held zero i k at e = unfold attempts_from in cc
first_of_held (suc left) i k at e = go (at i) refl (first_of_held left (suc i) k at)
  where
    go :
        (a : Attempt)
        → at i ≡ a
        → ((attempts_from left (suc i) at).verdict ≡ held k
            → (suc i ≤ k) × (k < suc i + left) × (at k ≡ created) × AllTaken (suc i) k at)
        → (i ≤ k) × (k < i + suc left) × (at k ≡ created) × AllTaken i k at
    go created p ih =
        let q : i ≡ k = ground (arith, round_created left i at p, e) in
        (omega arith, omega arith, rw (← q) p, λ j low high. absurd (omega arith))
    go (exists h) p ih =
        let r = ih (sym (ap verdict_of (round_taken left i at h p) ∙ retry-verdict i h _) ∙ e) in
        (omega (arith, r.0), omega (arith, r.1), r.2, taken_here i k at h p r.3)
    go failed p ih = absurd (ground (arith, round_failed left i at p, e))

attempts_from-AllRemovable :
    (left i : ℕ) (at : ℕ → Attempt) → AllRemovable at (attempts_from left i at).unlinked
attempts_from-AllRemovable zero i at = unfold attempts_from in tt
attempts_from-AllRemovable (suc left) i at =
    go (at i) refl (attempts_from-AllRemovable left (suc i) at)
  where
    go :
        (a : Attempt)
        → at i ≡ a
        → AllRemovable at (attempts_from left (suc i) at).unlinked
        → AllRemovable at (attempts_from (suc left) i at).unlinked
    go created p r = unfold attempts_from in rw (p, attempts_from) tt
    go (exists h) p r = rw (round_taken left i at h p) (retry-AllRemovable i h _ at p r)
    go failed p r = unfold attempts_from in rw (p, attempts_from) tt

waits-le : (left i : ℕ) (at : ℕ → Attempt) → (attempts_from left i at).waits ≤ left
unfolding attempts_from retry
waits-le zero i at = omega arith
waits-le (suc left) i at = ground (arith, waits-le left (suc i) at)

-- The lock is had at attempt `k` exactly where `k` is one of the hundred attempts, creates the
-- file, and every attempt before it finds a lock file.
pub acquire_lock-held :
    (k : ℕ) (at : ℕ → Attempt)
    → ((acquire_lock at).verdict ≡ held k)
      ↔ ((k < lock_max_retries) × (at k ≡ created) × AllTaken 0 k at)
unfolding acquire_lock
acquire_lock-held k at = (
  λ e. let r = first_of_held 100 0 k at e in (omega (arith, r.1), r.2, r.3),
  λ r. held_of_first 100 0 k at (omega arith) (omega (arith, r.0)) r.1 r.2,
)

-- The loop removes no lock file but one whose holder is not running or, from the third attempt
-- on, one that names nobody; and it waits for no more than five seconds.
pub acquire_lock_bounds :
    (at : ℕ → Attempt)
    → AllRemovable at (acquire_lock at).unlinked × (lock_retry_ms * (acquire_lock at).waits ≤ 5000)
unfolding acquire_lock
acquire_lock_bounds at = (attempts_from-AllRemovable 100 0 at, omega (arith, waits-le 100 0 at))
