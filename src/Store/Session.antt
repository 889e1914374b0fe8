-- ===== src/Store/Session.antt =====
-- A session of the database: `session_scope` of store/db.py, and the helpers of store/chapters.py
-- that touch the project's row and the manifest.
use praelector.Base.{
  ℕ, suc, ◌≡◌, ap, Bool, Option, none, some, String, [], ◌∷◌, ◌++◌, if◌then◌else◌,
}
use praelector.Domain.Errors.{Failure, Result, ok, err}
use praelector.Store.Rows.{Db, Project}

-- What a part of a session comes to: its value and the project, or what it raised, with the project
-- as it was then.
pub data Step {ℓ} (A : Type ℓ) : Type ℓ where
  done : A → Project → Step A
  raised : Failure → Project → Step A

abbrev pub Session {ℓ} : Type ℓ → Type ℓ
Session A = Project → Step A

abbrev pub next {ℓ κ} : {A : Type ℓ} {B : Type κ} → Step A → (A → Session B) → Step B
next (done value project) rest = rest value project
next (raised failure project) rest = raised failure project

infixl 5 ◌>>=◌ ◌>>◌
abbrev pub ◌>>=◌ {ℓ κ} : {A : Type ℓ} {B : Type κ} → Session A → (A → Session B) → Session B
◌>>=◌ call rest project = next (call project) rest

abbrev pub ◌>>◌ {ℓ} : {B : Type ℓ} → Session (Unit {0}) → Session B → Session B
call >> rest = call >>= λ _. rest

abbrev pub pure {ℓ} : {A : Type ℓ} → A → Session A
pure value project = done value project

abbrev pub raise {ℓ} : {A : Type ℓ} → Failure → Session A
raise failure project = raised failure project

abbrev pub refuse_if : Bool → Failure → Session (Unit {0})
refuse_if test failure project = if test then raised failure project else done tt project

-- A query.
abbrev pub read {ℓ} : {A : Type ℓ} → (Db → A) → Session A
read query project = done (query project.db) project

abbrev pub answered {ℓ} : {A : Type ℓ} → Failure → Project → Option A → Step A
answered failure project none = raised failure project
answered failure project (some value) = done value project

-- A query whose answer is demanded.
abbrev pub demand {ℓ} : {A : Type ℓ} → (Db → Option A) → Failure → Session A
demand query failure project = answered failure project (query project.db)

abbrev pub write : (Db → Db) → Session (Unit {0})
write change project = done tt (record project { db = change project.db })

abbrev pub written : Project → Option Db → Step (Unit {0})
written project none = raised Failure.integrity_error project
written project (some db) = done tt (record project { db = db })

-- A write that a constraint of the database may refuse.
abbrev pub try_write : (Db → Option Db) → Session (Unit {0})
try_write change project = written project (change project.db)

-- One transaction: committed on success, and on a failure rolled back, which leaves the manifest.
abbrev pub close {ℓ} : {A : Type ℓ} → Project → Step A → Result A × Project
close before (done value after) = (ok value, after)
close before (raised failure after) = (err failure, record before { manifest = after.manifest })

abbrev pub session_scope {ℓ} : {A : Type ℓ} → Session A → Project → Result A × Project
session_scope call project = close project (call project)

abbrev pub write_manifest : ℕ → String → Session (Unit {0})
write_manifest revision now project =
    done tt (record project { manifest = record { current_revision = revision; updated_at = now } })

-- `_touch`
unfoldable pub touch : String → Session (Unit {0})
touch now = do
  write (λ db. record db { updated_at = now })
  revision ← read (λ db. db.current_revision)
  write_manifest revision now

-- `_bump`: the next revision, in the project's row, in a row of its own, and in the manifest
unfoldable pub bump : String → String → Session ℕ
bump now label = do
  revision ← read (λ db. suc db.current_revision)
  write (λ db. record db {
    current_revision = revision;
    updated_at = now;
    revisions = db.revisions ++ record { n = revision; created_at = now; label = label } ∷ [];
  })
  write_manifest revision now
  pure revision

-- The rest of a session after a step that is done.
pub next-done {ℓ κ} :
    {A : Type ℓ} {B : Type κ} (step : Step A) (value : A) (after : Project) (rest : A → Session B)
    → step ≡ done value after
    → next step rest ≡ rest value after
next-done step value after rest e = ap (λ s. next s rest) e
