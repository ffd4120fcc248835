-- ===== src/Tasks/Store/File/Sessions.antt =====
-- Sessions that share one file behave as one store in memory.
use sages.Prelude.{ℕ, ◌≡◌, Bool, true, Option, some, List, [], ◌∷◌, arith, ◌==◌, if◌then◌else◌}
use sages.Tasks.Store.{Store}
use sages.Tasks.Store.Ids.{IdCodec}
use sages.Tasks.Store.Calls.{Call, step, run}
use sages.Tasks.Store.Valid.{IsValid, step-IsValid}
use sages.Tasks.Store.File.{Contents, Session, save, with_lock, refresh}
use sages.Tasks.Store.File.RoundTrip.{load-save}

-- The sessions, by number, and the file that all of them have.
pub record Shared : Type 0 where
  pub sessions : ℕ → Session
  pub file : Option Contents

-- A method call: who makes it, when, and whether the lock was had.
pub record Request : Type 0 where
  pub who : ℕ
  pub now : ℕ
  pub acquired : Bool
  pub call : Call

module _ (ids : IdCodec) where
  unfoldable pub change : Call → Store → Store × Unit {0}
  change c s = (step ids s c, tt)

  unfoldable pub request : Shared → Request → Shared
  unfolding change
  request w r =
      let outcome = with_lock ids r.now r.acquired (change r.call) (w.sessions r.who) w.file in
      record {
        sessions = λ i. if i == r.who then outcome.session else w.sessions i;
        file = outcome.file;
      }

  unfoldable pub requests : Shared → List Request → Shared
  requests w [] = w
  requests w (r ∷ rest) = requests (request w r) rest

  -- The calls of the requests that had the lock, in their order.
  unfoldable pub performed : List Request → List Call
  performed [] = []
  performed (r ∷ rest) = let calls = performed rest in if r.acquired then r.call ∷ calls else calls

  abbrev pub AllBacked : Shared → Type 0
  AllBacked w = (i : ℕ) → (w.sessions i).backed ≡ true

  request-AllBacked : (w : Shared) (r : Request) → AllBacked w → AllBacked (request w r)
  unfolding request with_lock
  request-AllBacked w r h i = ground (arith, h i, h r.who)

  request-file :
      (w : Shared) (r : Request) (s : Store)
      → AllBacked w
      → IsValid ids s
      → w.file ≡ some (save s)
      → (request w r).file ≡ some (save (if r.acquired then step ids s r.call else s))
  unfolding request with_lock
  request-file w r s h v e =
      ground (arith, h r.who, e, load-save ids r.now s (w.sessions r.who).memory v)

  after : Store → Request → Store
  after s r = if r.acquired then step ids s r.call else s

  run-performed :
      (s : Store) (r : Request) (rest : List Request)
      → run ids s (performed (r ∷ rest)) ≡ run ids (after s r) (performed rest)
  unfolding performed run after
  run-performed s r rest = ground arith

  after-IsValid : (s : Store) (r : Request) → IsValid ids s → IsValid ids (after s r)
  unfolding after
  after-IsValid s r v = ground (arith, v, step-IsValid ids s r.call v)

  -- Sessions create, update, delete and clear tasks on a shared file that holds a well-formed store,
  -- one call after the other, each from its attempt at the lock to its last write. However stale
  -- their memories are, the file then holds the store that one session would leave by the calls that
  -- had the lock, in their order, and that store is what each session reads.
  pub requests_shared :
      (w : Shared) (rs : List Request) (s : Store)
      → AllBacked w
      → IsValid ids s
      → w.file ≡ some (save s)
      → ((requests w rs).file ≡ some (save (run ids s (performed rs))))
        × ((i now : ℕ)
            → (refresh ids now ((requests w rs).sessions i) (requests w rs).file).memory
              ≡ run ids s (performed rs))
  unfolding requests refresh
  requests_shared w [] s h v e =
      unfold performed run in
      (e, λ i now. ground (arith, h i, e, load-save ids now s (w.sessions i).memory v))
  requests_shared w (r ∷ rest) s h v e = rw (run-performed s r rest) (
      requests_shared (request w r) rest (after s r) (request-AllBacked w r h) (after-IsValid s r v)
        (unfold after in request-file w r s h v e))
