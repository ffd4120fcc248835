-- ===== src/Tasks/Store/Lock/Protocol.antt =====
-- Sessions that take and release the lock, step by step. Reading a stale lock and removing it are
-- two steps, as in the source.
use sages.Prelude.{ℕ, ◌≡◌, ◌≢◌, refl, ap, Option, none, some, arith, ℕ_discrete, ite}

-- A session is outside, has read a lock that it takes for stale, or holds the lock.
pub data Phase : Type 0 where
  outside reclaiming holding : Phase

-- The lock file names the session that wrote it.
pub record Locks : Type 0 where
  pub file : Option ℕ
  pub phase : ℕ → Phase

unfoldable pub enter : ℕ → Phase → (ℕ → Phase) → ℕ → Phase
enter p x phase q = ite (ℕ_discrete q p) x (phase q)

unfoldable pub released : ℕ → Option ℕ → Option ℕ
released p none = none
released p (some q) = ite (ℕ_discrete q p) none (some q)

-- `stale p q`: to session `p` the process of `q` looks dead.
pub data Step (stale : ℕ → ℕ → Type 0) (s t : Locks) : Type 0 where
  create :
      (p : ℕ)
      → s.phase p ≡ outside
      → s.file ≡ none
      → t ≡ record { file = some p; phase = enter p holding s.phase }
      → Step stale s t
  judge :
      (p q : ℕ)
      → s.phase p ≡ outside
      → s.file ≡ some q
      → stale p q
      → t ≡ record { file = s.file; phase = enter p reclaiming s.phase }
      → Step stale s t
  unlink :
      (p : ℕ)
      → s.phase p ≡ reclaiming
      → t ≡ record { file = none; phase = enter p outside s.phase }
      → Step stale s t
  release :
      (p : ℕ)
      → s.phase p ≡ holding
      → t ≡ record { file = released p s.file; phase = enter p outside s.phase }
      → Step stale s t

pub data Reach (stale : ℕ → ℕ → Type 0) (s : Locks) : Locks → Type 0 where
  here : Reach stale s s
  next : {t u : Locks} → Reach stale s t → Step stale t u → Reach stale s u

-- Who holds the lock is named in the file, and nobody is about to remove it.
record IsOwned (s : Locks) : Type 0 where
  owned : (p : ℕ) → s.phase p ≡ holding → s.file ≡ some p
  calm : (p : ℕ) → s.phase p ≢ reclaiming

Step-IsOwned :
    {stale : ℕ → ℕ → Type 0} {s t : Locks}
    → ((p q : ℕ) → ¬ stale p q)
    → Step stale s t
    → IsOwned s
    → IsOwned t
unfolding enter released
Step-IsOwned fresh (create p a b e) v = record {
  owned = λ q h. ground (arith, e, v.owned q, v.calm q, ap (λ (x : Locks). x.phase q) e);
  calm = λ q h. ground (arith, v.calm q, ap (λ (x : Locks). x.phase q) e);
}
Step-IsOwned fresh (judge p q a b old e) v = absurd (fresh p q old)
Step-IsOwned fresh (unlink p a e) v = absurd (v.calm p a)
Step-IsOwned fresh (release p a e) v = record {
  owned = λ q h.
      ground (
        arith,
        v.owned q,
        v.owned p,
        ap (λ (x : Locks). x.phase q) e,
        ap (λ (x : Locks). x.file) e,
      );
  calm = λ q h. ground (arith, v.calm q, ap (λ (x : Locks). x.phase q) e);
}

Reach-IsOwned :
    {stale : ℕ → ℕ → Type 0} {s t : Locks}
    → ((p q : ℕ) → ¬ stale p q)
    → Reach stale s t
    → IsOwned s
    → IsOwned t
Reach-IsOwned fresh here v = v
Reach-IsOwned fresh (next r st) v = Step-IsOwned fresh st (Reach-IsOwned fresh r v)

abbrev pub unlocked : Locks
unlocked = record { file = none; phase = λ p. outside }

-- While no session takes a lock for stale, at most one session holds the lock at a time.
pub mutual_exclusion :
    (stale : ℕ → ℕ → Type 0) (t : Locks) (p q : ℕ)
    → ((a b : ℕ) → ¬ stale a b)
    → Reach stale unlocked t
    → t.phase p ≡ holding
    → t.phase q ≡ holding
    → p ≡ q
mutual_exclusion stale t p q fresh r hp hq =
    let v = Reach-IsOwned fresh r (record { owned = λ x h. cc; calm = λ x h. cc }) in
    ground (arith, v.owned p hp, v.owned q hq)

-- The lock of a session that is gone.
abbrev pub abandoned : ℕ → Locks
abandoned d = record { file = some d; phase = λ p. outside }

-- Two sessions that both find an abandoned lock may come to hold the lock together: the one
-- removes the lock file that the other has made since.
pub reclaim_race :
    (stale : ℕ → ℕ → Type 0) (d p q : ℕ)
    → p ≢ q
    → stale p d
    → stale q d
    → (t : Locks) × Reach stale (abandoned d) t × (t.phase p ≡ holding) × (t.phase q ≡ holding)
unfolding enter
reclaim_race stale d p q ne sp sq =
    let s1 : Locks = record { file = some d; phase = enter p reclaiming (λ x. outside) } in
    let s2 : Locks = record { file = some d; phase = enter q reclaiming s1.phase } in
    let s3 : Locks = record { file = none; phase = enter p outside s2.phase } in
    let s4 : Locks = record { file = some p; phase = enter p holding s3.phase } in
    let s5 : Locks = record { file = none; phase = enter q outside s4.phase } in
    let s6 : Locks = record { file = some q; phase = enter q holding s5.phase } in
    (
      s6,
      next
          (next
            (next
              (next
                (next (next here (judge p d refl refl sp refl))
                  (judge q d (ground arith) refl sq refl))
                (unlink p (ground arith) refl))
              (create p (ground arith) refl refl))
            (unlink q (ground arith) refl))
          (create q (ground arith) refl refl),
      ground arith,
      ground arith,
    )
