-- ===== src/Jobs/Catalog/Newest.antt =====
-- One live job for a project, and what the listing holds.
use praelector.Base.{
  ℕ, suc, ◌≤◌, ◌≡◌, refl, sym, ap, ◌∙◌, subst, Bool, true, ◌&&◌, none, some, String, List, [], ◌∷◌,
  str_eq, eq_iff, if◌then◌else◌, arith, Bool-cases, Option-cases, inl, inr, ◌⊎◌,
}
use mathlib.Core.Option.{some-injective}
use praelector.Base.Member.{In}
use praelector.Base.Text.{text_leb}
use praelector.Domain.{JobKind, is_active}
use praelector.Domain.Errors.{app_error, job_already_active, DetailValue, Result, ok, err}
use praelector.Domain.Json.{Fields}
use praelector.Jobs.Record.{JobRecord}
use praelector.Jobs.Catalog.{
  JobsDir, readable, insert_newest, sort_newest, list_jobs, first_live, queued_record,
  create_queued,
}

-- How many of the records satisfy a test.
unfoldable pub count : (JobRecord → Bool) → List JobRecord → ℕ
count p [] = 0
count p (r ∷ rest) = if p r then suc (count p rest) else count p rest

count-insert_newest :
    (p : JobRecord → Bool) (r : JobRecord) (l : List JobRecord)
    → count p (insert_newest r l) ≡ count p (r ∷ l)
unfolding count insert_newest
count-insert_newest p r [] = refl
count-insert_newest p r (s ∷ l) = ground (arith, count-insert_newest p r l)

count-sort_newest :
    (p : JobRecord → Bool) (l : List JobRecord) → count p (sort_newest l) ≡ count p l
unfolding sort_newest count
count-sort_newest p [] = refl
count-sort_newest p (r ∷ l) =
    count-insert_newest p r (sort_newest l)
    ∙ ap (λ n. if p r then suc n else n) (count-sort_newest p l)

-- The listing holds every readable record as often as the directory does, and nothing else.
pub count-list_jobs :
    (p : JobRecord → Bool) (dir : JobsDir) → count p (list_jobs dir) ≡ count p (readable dir)
unfolding list_jobs
count-list_jobs p dir = count-sort_newest p (readable dir)

In-of_newest : (r a : JobRecord) (l : List JobRecord) → In a (insert_newest r l) → In a (r ∷ l)
unfolding insert_newest
In-of_newest r a [] i = i
In-of_newest r a (s ∷ l) i = elim (Bool-cases (text_leb s.created_at r.created_at)) [
  | inl k ↦ subst (λ b. In a (if b then r ∷ s ∷ l else s ∷ insert_newest r l)) k i
  | inr k ↦ elim (subst (λ b. In a (if b then r ∷ s ∷ l else s ∷ insert_newest r l)) k i) [
    | inl e ↦ inr (inl e)
    | inr j ↦ elim (In-of_newest r a l j) [ inl e ↦ inl e | inr m ↦ inr (inr m) ]
  ]
]

In-of_listed : (a : JobRecord) (l : List JobRecord) → In a (sort_newest l) → In a l
unfolding sort_newest
In-of_listed a [] i = i
In-of_listed a (r ∷ l) i = elim (In-of_newest r a (sort_newest l) i) [
  | inl e ↦ inl e
  | inr j ↦ inr (In-of_listed a l j)
]

abbrev pub is_live : String → JobRecord → Bool
is_live project_id r = str_eq r.project_id project_id && is_active r.state

first_live-none :
    (project_id : String) (l : List JobRecord)
    → first_live project_id l ≡ none
    → count (is_live project_id) l ≡ 0
unfolding first_live count
first_live-none project_id [] h = refl
first_live-none project_id (r ∷ l) h = ground (arith, first_live-none project_id l)

first_live-some :
    (project_id : String) (l : List JobRecord) (r : JobRecord)
    → first_live project_id l ≡ some r
    → In r l × (is_live project_id r ≡ true) × (1 ≤ count (is_live project_id) l)
unfolding first_live count
first_live-some project_id [] r h = cc
first_live-some project_id (s ∷ l) r h = elim (Bool-cases (is_live project_id s)) [
  | inl live ↦
      (inl (some-injective r s (sym h ∙ rw live refl)), ground (arith, live), rw live (omega arith))
  | inr idle ↦
      let (i, a, b) = first_live-some project_id l r (ground (arith, idle)) in (inr i, a, rw idle b)
]

-- The jobs of the project that are queued, running, paused or muxing.
abbrev pub live_jobs : String → JobsDir → ℕ
live_jobs project_id dir = count (is_live project_id) (readable dir)

abbrev pub Outcome :
    JobsDir → (id project_id : String) → JobRecord → Result JobRecord × JobsDir → Type 0
Outcome dir id project_id r (result, dir') =
    (live_jobs project_id dir ≡ 0) × (result ≡ ok r) × (dir' ≡ (id, some r) ∷ dir)
    ⊎ ((live : JobRecord) × In live (readable dir)
        × (is_live project_id live ≡ true)
        × (1 ≤ live_jobs project_id dir)
        × (result ≡ err (app_error job_already_active (("id", DetailValue.text live.id) ∷ [])))
        × (dir' ≡ dir))

-- A job is queued exactly when the project has no live job; otherwise the refusal names a live job of
-- the project that the directory holds, and nothing is written.
pub create_queued-Outcome :
    (dir : JobsDir) (id project_id : String) (kind : JobKind) (revision : ℕ) (options : Fields)
    (stamp : String)
    → Outcome dir id project_id
        (queued_record id project_id kind revision options stamp)
        (create_queued dir id project_id kind revision options stamp)
unfolding create_queued sort_newest list_jobs
create_queued-Outcome dir id project_id kind revision options stamp =
    elim (Option-cases (first_live project_id (list_jobs dir))) [
      | inl free ↦
          rw (free, create_queued)
            (inl (
              sym (count-list_jobs (is_live project_id) dir)
                  ∙ first_live-none project_id (list_jobs dir) free,
              refl,
              refl,
            ))
      | inr (r, busy) ↦
          let (i, live, n) = first_live-some project_id (list_jobs dir) r busy in
          rw (busy, create_queued)
            (inr (
              r,
              In-of_listed r (readable dir) i,
              live,
              omega (arith, n, count-list_jobs (is_live project_id) dir),
              refl,
              refl,
            ))
    ]

live_jobs-queued :
    (dir : JobsDir) (id project_id : String) (kind : JobKind) (revision : ℕ) (options : Fields)
    (stamp q : String)
    → live_jobs project_id dir ≡ 0
    → live_jobs q dir ≤ 1
    → live_jobs q ((id, some (queued_record id project_id kind revision options stamp)) ∷ dir) ≤ 1
unfolding readable count queued_record is_active
live_jobs-queued dir id project_id kind revision options stamp q h l =
    elim (Bool-cases (str_eq project_id q)) [
      | inl same ↦
          let e : project_id ≡ q = (eq_iff project_id q).0 same in
          let z : live_jobs q dir ≡ 0 = subst (λ k. live_jobs k dir ≡ 0) e h in
          rw same (omega (arith, z))
      | inr other ↦ rw other l
    ]

-- Queueing keeps every project at no more than one live job.
pub create_queued-single :
    (dir : JobsDir) (id project_id : String) (kind : JobKind) (revision : ℕ) (options : Fields)
    (stamp : String)
    → ((p : String) → live_jobs p dir ≤ 1)
    → (p : String) → live_jobs p (create_queued dir id project_id kind revision options stamp).1 ≤ 1
create_queued-single dir id project_id kind revision options stamp single p =
    go (create_queued dir id project_id kind revision options stamp)
      (create_queued-Outcome dir id project_id kind revision options stamp)
  where
    r : JobRecord
    r = queued_record id project_id kind revision options stamp

    go : (o : Result JobRecord × JobsDir) → Outcome dir id project_id r o → live_jobs p o.1 ≤ 1
    go (result, dir') (inr (live, i, a, b, c, same)) = rw same (single p)
    go (result, dir') (inl (none', c, more)) =
        rw more (live_jobs-queued dir id project_id kind revision options stamp p none' (single p))
