-- ===== src/Sidebar/Mailbox/Tools/Claims.antt =====
-- That an intent is claimed once.
use mathlib.Core.Path.{subst}
use sages.Prelude.{
  ℕ, String, ◌≡◌, refl, sym, ◌∙◌, ap, Bool, true, false, not, ◌&&◌, ◌||◌, Option, none, some, List,
  ◌++◌, map, arith, if◌then◌else◌, Bool-cases, inl, inr, get_or,
}
use mathlib.Core.Option
use sages.Prelude.Map.{Map}
use sages.Tasks.Types.{Task, is_completed}
use sages.Tasks.Store.Ids.{IdCodec}
use sages.Sidebar.Mailbox.{
  Contents, Extras, mutate, writes, aborts, ok, find_task, has_id, is_intent, is_pending,
  is_in_progress, has_text, not_an_intent, already_completed, already_claimed, read,
}
use sages.Sidebar.Mailbox.Reading.{reread, extras_in}
use sages.Sidebar.Mailbox.Tools.{
  update_all, claimed, claim, claim_found, settle, broken_down, updated, closed, Request, serve,
}
use sages.Sidebar.Mailbox.Tools.Steps.{
  Step, claim_step, update_step, complete_step, breakdown_step, serve-keeps, refuses,
  refused_unchanged, mutate-writes, read-write,
}
use sages.Sidebar.Mailbox.Tools.Boards.{
  KeepsId, find_task-map, find_task-append, find_task-has_id, Kept, reread-Kept, settle-cases,
  settle-KeepsId,
}
use sages.Sidebar.Mailbox.Tools.Copies.{AreCopies}

-- An intent that is no longer mail.
abbrev pub is_taken : Task → Bool
is_taken t = is_intent t && not (is_pending t)

abbrev pub is_some_taken : Option Task → Bool
is_some_taken none = false
is_some_taken (some t) = is_taken t

-- The first task of that id is a taken intent.
abbrev pub taken : String → List Task → Bool
taken id l = is_some_taken (find_task id l)

Kept-is_taken : (u t : Task) → Kept u t → is_taken t ≡ true → is_taken u ≡ true
Kept-is_taken u t (a, b, c, d) h = ground (arith, b, c, h)

taken-map :
    (id : String) (f : Task → Task) (l : List Task)
    → KeepsId f
    → ((t : Task) → find_task id l ≡ some t → is_taken t ≡ true → is_taken (f t) ≡ true)
    → taken id l ≡ true
    → taken id (map f l) ≡ true
taken-map id f l k keep h = rw (find_task-map id f l k) (go (find_task id l) refl h)
  where
    go :
        (o : Option Task)
        → find_task id l ≡ o
        → is_some_taken o ≡ true
        → is_some_taken (Option.map f o) ≡ true
    go none e h = cc
    go (some t) e h = keep t e h

taken-append : (id : String) (l r : List Task) → taken id l ≡ true → taken id (l ++ r) ≡ true
taken-append id l r h = go (find_task id l) refl h
  where
    go : (o : Option Task) → find_task id l ≡ o → is_some_taken o ≡ true → taken id (l ++ r) ≡ true
    go none e h = cc
    go (some t) e h = rw (find_task-append id t l r e) h

taken-reread :
    (id : String) (m : Map Extras) (l : List Task)
    → taken id l ≡ true
    → taken id (map (reread m) l) ≡ true
taken-reread id m l h =
    taken-map id (reread m) l (λ t. (reread-Kept m t).0)
      (λ t e k. Kept-is_taken (reread m t) t (reread-Kept m t) k) h

-- A task of the same first id.
same_found :
    (i j : String) (t u : Task) (l : List Task)
    → find_task i l ≡ some t
    → find_task j l ≡ some u
    → has_id t.id u ≡ true
    → u ≡ t
same_found i j t u l e f h =
    ground (arith, e, f, h, find_task-has_id i t l e, find_task-has_id j u l f)

broken_down-is_taken :
    (now : ℕ) (x : Task) → is_taken x ≡ true → is_taken (broken_down now x) ≡ true
broken_down-is_taken now x h = ground (arith, h)

settle-is_taken :
    (now : ℕ) (i id : String) (mirror : Map Task) (l : List Task) (x : Task)
    → AreCopies l mirror
    → find_task id l ≡ some x
    → is_taken x ≡ true
    → is_taken (settle now i mirror x) ≡ true
settle-is_taken now i id mirror l x c found h = elim (settle-cases now i mirror l x c) [
  | inl (d, e) ↦ ap is_taken e ∙ broken_down-is_taken now x h
  | inr (d, inl e) ↦ ap is_taken e ∙ h
  | inr (d, inr (f, g, k)) ↦
      Kept-is_taken (settle now i mirror x) f k
        (ground (arith, h, found, g, find_task-has_id id x l found))
]

Step-taken : (id : String) (l l' : List Task) → Step l l' → taken id l ≡ true → taken id l' ≡ true
Step-taken id l _ (claim_step i me now t e a b c) h =
    taken-map id (λ x. if has_id t.id x then claimed me now x else x) l (λ x. ground arith)
      (λ x f k. ground (arith, k)) h
Step-taken id l _ (update_step i now status result t e a b) h =
    taken-map id (λ x. if has_id t.id x then updated now status result t else x) l
      (λ x. ground arith)
      (λ x f k. elim (Bool-cases (has_id t.id x)) [
        | inl d ↦ absurd (ground (arith, k, a, same_found i id t x l e f d))
        | inr d ↦ rw d k
      ])
      h
Step-taken id l _ (complete_step i now summary t e a b c) h =
    taken-map id (λ x. if has_id t.id x then closed now summary x else x) l (λ x. ground arith)
      (λ x f k. ground (arith, k)) h
Step-taken id l _ (breakdown_step i now t mirror children e a b c copies brood fresh) h =
    taken-append id (map (settle now t.id mirror) l) children (
      taken-map id (settle now t.id mirror) l (settle-KeepsId now t.id mirror l copies)
        (λ x f k. settle-is_taken now t.id id mirror l x copies f k) h)

claim_found_accepted :
    (me : String) (now : ℕ) (l r : List Task) (t u : Task)
    → claim_found me now l (some u) ≡ writes r t
    → (is_intent u ≡ true) × (r ≡ update_all u.id (claimed me now) l)
unfolding claim_found
claim_found_accepted me now l r t u h =
    go (is_intent u) (is_completed u) (has_text u.owner || is_in_progress u) h
  where
    go :
        (i c o : Bool)
        → (if not i
            then aborts not_an_intent
            else if c
            then aborts already_completed
            else if o
            then aborts (already_claimed (get_or u.owner "another session"))
            else writes (update_all u.id (claimed me now) l) u)
          ≡ writes r t
        → (i ≡ true) × (r ≡ update_all u.id (claimed me now) l)
    go false c o h = cc
    go true true o h = cc
    go true false true h = cc
    go true false false h = (refl, cc)

claim-taken :
    (me : String) (now : ℕ) (id : String) (l r : List Task) (t : Task)
    → claim me now id l ≡ writes r t
    → taken id r ≡ true
unfolding claim is_completed
claim-taken me now id l r t h = go (find_task id l) refl h
  where
    go :
        (o : Option Task)
        → find_task id l ≡ o
        → claim_found me now l o ≡ writes r t
        → taken id r ≡ true
    go none e h = cc
    go (some u) e h =
        let f : Task → Task = λ x. if has_id u.id x then claimed me now x else x in
        let (i, same) = claim_found_accepted me now l r t u h in
        ap (taken id) same
        ∙ ap is_some_taken (find_task-map id f l (λ x. ground arith) ∙ ap (Option.map f) e)
        ∙ ground (arith, i)

taken-refused :
    (me : String) (now : ℕ) (id : String) (l : List Task)
    → taken id l ≡ true
    → refuses (claim me now id l) ≡ true
unfolding claim is_completed
taken-refused me now id l h = go (find_task id l) h
  where
    go : (o : Option Task) → is_some_taken o ≡ true → refuses (claim_found me now l o) ≡ true
    go none h = cc
    go (some t) h = ground (arith, h)

-- Whatever calls follow a claim that succeeded, of any sessions and at any times, with the lock or
-- without: a claim of that intent by anyone is refused, and leaves the file as it is.
pub claim_once :
    (ids : IdCodec) (me : String) (now : ℕ) (id : String) (file file' : Option Contents) (t : Task)
    → mutate true (claim me now id) file ≡ (ok t, file')
    → (rs : List Request) (me' : String) (now' : ℕ) (acquired : Bool)
    → (refuses (claim me' now' id (read (serve ids rs file'))) ≡ true)
      × ((mutate acquired (claim me' now' id) (serve ids rs file')).1 ≡ serve ids rs file')
claim_once ids me now id file file' t h rs me' now' acquired =
    let (r, planned, written) = mutate-writes (claim me now id) file file' t h in
    let first =
      subst (λ f. taken id (read f) ≡ true) (sym written)
        (subst (λ l. taken id l ≡ true) (sym (read-write r))
          (taken-reread id (extras_in r) r (claim-taken me now id (read file) r t planned))) in
    let refused = taken-refused me' now' id (read (serve ids rs file')) (
      serve-keeps {P = λ l. taken id l ≡ true} ids rs file' (Step-taken id) (taken-reread id)
        first) in
    (refused, refused_unchanged acquired (claim me' now' id) (serve ids rs file') refused)
