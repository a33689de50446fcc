-- ===== src/Tsh/Jobs/Invariant.antt =====
-- The well-formed job list of tsh.c, and what `addjob` and `deletejob` do to it.
use computer_systems_practic.Prelude.{
  ℕ, zero, suc, ◌+◌, ◌≤◌, ◌<◌, ◌≡◌, ◌≢◌, refl, ◌⊎◌, inl, inr, false, none, some, List, [], ◌∷◌,
  arith, ◌==◌, ltb, if◌then◌else◌, length, set, length-set, Option-cases, All, All-set,
  All-replicate, length-replicate, replicate, ◌∙◌,
}
use computer_systems_practic.Tsh.Jobs.{
  ℤ, pos, negsuc, Job, JobState, Shell, undef, cleared, find, has_pid, new_job, bump_jid, add_at,
  add_job, delete_job, max_jid, max_jid_from, print, too_many, max_jobs, init_jobs,
}
use computer_systems_practic.Tsh.Jobs.Lookup.{
  job_of, Distinct, find-some, find-none, get-find-job_of, find-job_of-none, job_of-set_free,
  job_of-set-cleared,
}

-- An entry is cleared, or a job with a pid, a jid and a state.
abbrev pub IsSlot : Job → Type 0
IsSlot j = (j ≡ cleared) ⊎ (0 < j.pid) × (0 < j.jid) × (j.state ≢ undef)

pub record IsJobs (js : List Job) : Type 0 where
  pub size : length js ≡ max_jobs
  pub slots : All IsSlot js
  pub distinct : Distinct js

pub record IsShell (s : Shell) : Type 0 where
  pub jobs : IsJobs s.jobs
  pub next_pos : 0 < s.next_jid

Distinct-set_free :
    (js : List Job) (i : ℕ) (new : Job)
    → find (has_pid 0) js ≡ some i
    → job_of js new.pid ≡ none
    → 0 < new.pid
    → Distinct js
    → Distinct (set js i new)
unfolding find
Distinct-set_free [] i new h fresh p d = d
Distinct-set_free (j ∷ js) i new h fresh p (d, ds) = elim (Option-cases (find (has_pid 0) js)) [
  | inl gone ↦ ground arith
  | inr (k, e) ↦ ground (arith, Distinct-set_free js k new e, job_of-set_free js k j.pid new e)
]

Distinct-set-cleared :
    (js : List Job) (i p : ℕ)
    → find (has_pid p) js ≡ some i
    → 0 < p
    → Distinct js
    → Distinct (set js i cleared)
unfolding find
Distinct-set-cleared [] i p h pp d = d
Distinct-set-cleared (j ∷ js) i p h pp (d, ds) = elim (Option-cases (find (has_pid p) js)) [
  | inl gone ↦ ground arith
  | inr (k, e) ↦ ground (arith, Distinct-set-cleared js k p e, job_of-set-cleared js k p j.pid e)
]

Distinct-replicate : (n : ℕ) → Distinct (replicate n cleared)
Distinct-replicate zero = tt
Distinct-replicate (suc n) = (inl refl, Distinct-replicate n)

-- `initjobs` makes a well-formed list.
pub init_jobs-IsJobs : (s : Shell) → IsJobs (init_jobs s).jobs
unfolding init_jobs
init_jobs-IsJobs s = record {
  size = length-replicate max_jobs cleared;
  slots = All-replicate IsSlot max_jobs (inl refl);
  distinct = Distinct-replicate max_jobs;
}

-- `addjob` of a pid in the range, by whether a slot is free.
pub add_job_full :
    (s : Shell) (p : ℕ) (state : JobState) (cmdline : List ℕ)
    → 0 < p
    → find (has_pid 0) s.jobs ≡ none
    → add_job s (pos p) state cmdline ≡ (print too_many s, 0)
unfolding add_job
add_job_full s p state cmdline pp full = ground arith

pub add_job_free :
    (s : Shell) (p : ℕ) (state : JobState) (cmdline : List ℕ) (i : ℕ)
    → 0 < p
    → find (has_pid 0) s.jobs ≡ some i
    → add_job s (pos p) state cmdline ≡ (add_at s i (new_job s p state cmdline), 1)
unfolding add_job
add_job_free s p state cmdline i pp free = ground arith

pub add_at_jobs :
    (s : Shell) (i : ℕ) (j : Job)
    → ((add_at s i j).jobs ≡ set s.jobs i j) × ((add_at s i j).next_jid ≡ bump_jid s.next_jid)
add_at_jobs s i j = ground arith

bump_jid-pos : (n : ℕ) → 0 < bump_jid n
bump_jid-pos n = ground arith

-- A pid above 0 passes the check of the routines.
pub in_range : (p : ℕ) → ltb (suc p) 1 ≡ false
in_range p = ground arith

-- No job has the pid yet.
abbrev pub IsFresh : ℤ → List Job → Type 0
IsFresh (negsuc n) js = Unit {0}
IsFresh (pos p) js = (0 < p) × (job_of js p ≡ none)

-- A new job in the first free slot keeps the list well formed.
set_free-IsShell :
    (s : Shell) (i p : ℕ) (state : JobState) (cmdline : List ℕ)
    → IsShell s
    → 0 < p
    → find (has_pid 0) s.jobs ≡ some i
    → job_of s.jobs p ≡ none
    → state ≢ undef
    → IsShell (add_at s i (new_job s p state cmdline))
set_free-IsShell s i p state cmdline v pp free fresh live =
    let new = new_job s p state cmdline in
    let after = add_at_jobs s i new in
    record {
      jobs = rw (after.0) (record {
        size = length-set s.jobs i new ∙ v.jobs.size;
        slots = All-set IsSlot s.jobs i v.jobs.slots (inr (pp, v.next_pos, live));
        distinct = Distinct-set_free s.jobs i new free fresh pp v.jobs.distinct;
      });
      next_pos = rw (after.1) (bump_jid-pos s.next_jid);
    }

-- `addjob` of a pid that no job has, in a state other than undefined, keeps the shell well formed
-- on every path.
pub add_job-IsShell :
    (s : Shell) (pid : ℤ) (state : JobState) (cmdline : List ℕ)
    → IsShell s
    → IsFresh pid s.jobs
    → state ≢ undef
    → IsShell (add_job s pid state cmdline).0
unfolding add_job
add_job-IsShell s (negsuc n) state cmdline v fresh live = v
add_job-IsShell s (pos zero) state cmdline v fresh live = v
add_job-IsShell s (pos (suc p)) state cmdline v fresh live =
    elim (Option-cases (find (has_pid 0) s.jobs)) [
      | inl full ↦ rw (in_range p, full) (record { jobs = v.jobs; next_pos = v.next_pos })
      | inr (i, free) ↦
          rw (in_range p, free)
            (set_free-IsShell s i (suc p) state cmdline v (omega arith) free (fresh.1) live)
    ]

-- `addjob` of a pid in range: when no entry is free it returns 0 and keeps the list; otherwise it
-- returns 1, and the list maps the pid to a job with the next jid, the state and the command line
-- that were passed, and every other pid to what it did before.
pub add_job-job_of :
    (s : Shell) (p q : ℕ) (state : JobState) (cmdline : List ℕ)
    → 0 < p
    → 0 < q
    → job_of s.jobs p ≡ none
    → let r = add_job s (pos p) state cmdline in
      (r.1 ≡ 0) × (r.0.jobs ≡ s.jobs) × All (λ j. j.pid ≢ 0) s.jobs
      ⊎ (r.1 ≡ 1)
        × (job_of r.0.jobs q
            ≡ (if p == q then some (new_job s p state cmdline) else job_of s.jobs q))
        × (r.0.next_jid ≡ bump_jid s.next_jid)
add_job-job_of s p q state cmdline pp qp fresh = elim (Option-cases (find (has_pid 0) s.jobs)) [
  | inl full ↦
      rw (add_job_full s p state cmdline pp full)
        (inl (refl, refl, taken s.jobs (find-none (has_pid 0) s.jobs full)))
  | inr (i, free) ↦
      let new = new_job s p state cmdline in
      let after = add_at_jobs s i new in
      rw (add_job_free s p state cmdline i pp free)
        (inr (refl, rw (after.0) (job_of-set_free s.jobs i q new free qp fresh), after.1))
]
  where
    taken : (js : List Job) → All (λ j. has_pid 0 j ≡ false) js → All (λ j. j.pid ≢ 0) js
    taken [] a = tt
    taken (j ∷ js) (a, rest) = (ground arith, taken js rest)

-- Every jid of the list is at most `maxjid`.
max_jid_from_le :
    (m : ℕ) (js : List Job) → (m ≤ max_jid_from m js) × All (λ j. j.jid ≤ max_jid_from m js) js
unfolding max_jid_from
max_jid_from_le m [] = (omega arith, tt)
max_jid_from_le m (j ∷ js) =
    let (above, bound) = max_jid_from_le (if ltb m j.jid then j.jid else m) js in
    (ground arith, (ground arith, bound))

pub max_jid_le : (js : List Job) → All (λ j. j.jid ≤ max_jid js) js
unfolding max_jid
max_jid_le js = (max_jid_from_le 0 js).1

-- `deletejob` of a pid in range: it returns 1 exactly when the list has a job of that pid. Then
-- that pid and no other leaves the map, and `nextjid` is above every jid of the list. Otherwise
-- nothing changes.
pub delete_job-job_of :
    (s : Shell) (p q : ℕ)
    → 0 < p
    → 0 < q
    → Distinct s.jobs
    → let r = delete_job s (pos p) in
      (job_of s.jobs p ≡ none) × (r ≡ (s, 0))
      ⊎ (job_of s.jobs p ≢ none)
        × (r.1 ≡ 1)
        × (job_of r.0.jobs q ≡ (if p == q then none else job_of s.jobs q))
        × All (λ j. j.jid < r.0.next_jid) r.0.jobs
unfolding delete_job
delete_job-job_of s p q pp qp d =
    let valid : ltb p 1 ≡ false = ground arith in
    elim (Option-cases (find (has_pid p) s.jobs)) [
      | inl gone ↦ rw (valid, gone) (inl (find-job_of-none s.jobs p gone, refl))
      | inr (i, e) ↦
          let jobs' = set s.jobs i cleared in
          let (j, at, t) = find-some (has_pid p) s.jobs i e in
          rw (valid, e)
            (inr (
              λ h. cc (get-find-job_of s.jobs p i e, at, h),
              refl,
              job_of-set-cleared s.jobs i p q e pp qp d,
              below (max_jid jobs') jobs' (max_jid_le jobs'),
            ))
    ]
  where
    below : (m : ℕ) (js : List Job) → All (λ j. j.jid ≤ m) js → All (λ j. j.jid < m + 1) js
    below m [] a = tt
    below m (j ∷ js) (a, rest) = (omega arith, below m js rest)

-- `deletejob` keeps the shell well formed, also for a pid that no job has.
pub delete_job-IsShell : (s : Shell) (pid : ℤ) → IsShell s → IsShell (delete_job s pid).0
unfolding delete_job
delete_job-IsShell s (negsuc n) v = v
delete_job-IsShell s (pos zero) v = v
delete_job-IsShell s (pos (suc p)) v = elim (Option-cases (find (has_pid (suc p)) s.jobs)) [
  | inl gone ↦ rw (in_range p, gone) v
  | inr (i, e) ↦
      rw (in_range p, e)
        (record {
          jobs = record {
            size = length-set s.jobs i cleared ∙ v.jobs.size;
            slots = All-set IsSlot s.jobs i v.jobs.slots (inl refl);
            distinct = Distinct-set-cleared s.jobs i (suc p) e (omega arith) v.jobs.distinct;
          };
          next_pos = omega arith;
        })
]
