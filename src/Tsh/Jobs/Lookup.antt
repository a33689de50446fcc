-- ===== src/Tsh/Jobs/Lookup.antt =====
-- The job list of tsh.c as a finite map from pids to jobs.
use computer_systems_practic.Prelude.{
  ℕ, suc, ◌<◌, ◌≡◌, refl, ◌⊎◌, inl, inr, Bool, true, false, Option, none, some, List, [], ◌∷◌,
  arith, ◌==◌, if◌then◌else◌, get_elem?, set, Bool-cases, Option-cases, All,
}
use computer_systems_practic.Tsh.Jobs.{Job, cleared, find, has_pid}

-- The abstract map: the job of a pid.
abbrev pub job_of : List Job → ℕ → Option Job
job_of [] q = none
job_of (j ∷ js) q = let rest = job_of js q in if j.pid == q then some j else rest

-- No pid but 0 stands twice.
abbrev pub Distinct : List Job → Type 0
Distinct [] = Unit
Distinct (j ∷ js) = ((j.pid ≡ 0) ⊎ (job_of js j.pid ≡ none)) × Distinct js

-- The loop's index leads to an entry that passes the test, and `none` means that none does.
pub find-some :
    (test : Job → Bool) (js : List Job) (i : ℕ)
    → find test js ≡ some i
    → (j : Job) × (get_elem? js i ≡ some j) × (test j ≡ true)
unfolding find
find-some test [] i h = cc
find-some test (j ∷ js) i h = elim (Bool-cases (test j)) [
  | inl here ↦ let e : i ≡ 0 = ground arith in (j, rw e, here)
  | inr later ↦ elim (Option-cases (find test js)) [
    | inl gone ↦ ground arith
    | inr (k, e) ↦
        let i' : i ≡ suc k = ground arith in
        let (x, at, t) = find-some test js k e in (x, rw i' at, t)
  ]
]

pub find-none :
    (test : Job → Bool) (js : List Job) → find test js ≡ none → All (λ j. test j ≡ false) js
unfolding find
find-none test [] h = tt
find-none test (j ∷ js) h = (ground arith, find-none test js (ground arith))

-- Following the index that a search by pid returns is looking the pid up.
pub get-find-job_of :
    (js : List Job) (q i : ℕ) → find (has_pid q) js ≡ some i → get_elem? js i ≡ job_of js q
unfolding find
get-find-job_of [] q i h = cc
get-find-job_of (j ∷ js) q i h = elim (Option-cases (find (has_pid q) js)) [
  | inl gone ↦ ground arith
  | inr (k, e) ↦ ground (arith, get-find-job_of js q k e)
]

pub find-job_of-none : (js : List Job) (q : ℕ) → find (has_pid q) js ≡ none → job_of js q ≡ none
unfolding find
find-job_of-none [] q h = refl
find-job_of-none (j ∷ js) q h = ground (arith, find-job_of-none js q)

-- A new entry in the first free slot adds its pid to the map.
pub job_of-set_free :
    (js : List Job) (i q : ℕ) (new : Job)
    → find (has_pid 0) js ≡ some i
    → 0 < q
    → job_of js new.pid ≡ none
    → job_of (set js i new) q ≡ (if new.pid == q then some new else job_of js q)
unfolding find
job_of-set_free [] i q new h qp fresh = cc
job_of-set_free (j ∷ js) i q new h qp fresh = elim (Option-cases (find (has_pid 0) js)) [
  | inl gone ↦ ground arith
  | inr (k, e) ↦ ground (arith, job_of-set_free js k q new e qp)
]

-- Clearing the entry of a pid drops it from the map.
pub job_of-set-cleared :
    (js : List Job) (i p q : ℕ)
    → find (has_pid p) js ≡ some i
    → 0 < p
    → 0 < q
    → Distinct js
    → job_of (set js i cleared) q ≡ (if p == q then none else job_of js q)
unfolding find
job_of-set-cleared [] i p q h pp qp d = cc
job_of-set-cleared (j ∷ js) i p q h pp qp d = elim (Option-cases (find (has_pid p) js)) [
  | inl gone ↦ ground (arith, find-job_of-none js p)
  | inr (k, e) ↦ ground (arith, job_of-set-cleared js k p q e pp qp)
]
