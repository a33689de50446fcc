-- ===== src/Tsh/Eval/Reap.antt =====
-- What the handlers of tsh.c keep: the well-formed list, and which job may be in the foreground.
use computer_systems_practic.Prelude.{
  ℕ, zero, suc, ◌<◌, ◌≡◌, refl, ◌≢◌, ◌⊎◌, inl, inr, none, some, List, [], ◌∷◌, arith, ltb,
  get_elem?, set, length-set, Bool-cases, Option-cases, All, All-set, All-get, ◌∙◌, ap,
}
use mathlib.Core.Path.{subst}
use computer_systems_practic.Tsh.Jobs.{
  ℤ, pos, negsuc, JobState, undef, fg, st, Job, Shell, print, find, has_pid, delete_job,
  get_job_pid, pid_to_jid, terminated, stopped,
}
use computer_systems_practic.Tsh.Jobs.Lookup.{job_of, Distinct, find-some}
use computer_systems_practic.Tsh.Jobs.Invariant.{IsSlot, IsShell, delete_job-IsShell, in_range}
use computer_systems_practic.Tsh.Eval.{
  WaitStatus, was_signaled, was_stopped, was_exited, Child, set_state, reap_as, sigchld_handler,
  sigint, sigtstp,
}

-- Only the job of pid p can be in the foreground; pid 0 stands for no job at all.
abbrev pub OnlyFg : ℕ → List Job → Type 0
OnlyFg p js = All (λ j. (j.state ≢ fg) ⊎ (j.pid ≡ p) × (0 < p)) js

-- Writing a new state keeps pids and shape.
job_of-set_state :
    (js : List Job) (i q : ℕ) (j : Job) (state : JobState)
    → get_elem? js i ≡ some j
    → job_of js q ≡ none
    → job_of (set js i (record j { state = state })) q ≡ none
job_of-set_state [] i q j state at h = h
job_of-set_state (x ∷ js) zero q j state at h = ground arith
job_of-set_state (x ∷ js) (suc i) q j state at h =
    ground (arith, job_of-set_state js i q j state at)

Distinct-set_state :
    (js : List Job) (i : ℕ) (j : Job) (state : JobState)
    → get_elem? js i ≡ some j
    → Distinct js
    → Distinct (set js i (record j { state = state }))
Distinct-set_state [] i j state at d = d
Distinct-set_state (x ∷ js) zero j state at (d, ds) = ground arith
Distinct-set_state (x ∷ js) (suc i) j state at (d, ds) =
    ground (arith, Distinct-set_state js i j state at, job_of-set_state js i x.pid j state at)

-- A job that is found by a pid above 0 is no cleared entry.
live_slot : (j : Job) → IsSlot j → 0 < j.pid → (0 < j.jid) × (j.state ≢ undef)
live_slot j (inl e) p = absurd (omega (arith, ap (λ (x : Job). x.pid) e))
live_slot j (inr (a, b, c)) p = (b, c)

pub set_state-IsShell :
    (s : Shell) (i : ℕ) (j : Job) (state : JobState)
    → get_elem? s.jobs i ≡ some j
    → 0 < j.pid
    → state ≢ undef
    → IsShell s
    → IsShell (set_state s i state)
set_state-IsShell s i j state at live ne v =
    let slot = live_slot j (All-get IsSlot s.jobs i v.jobs.slots at) live in
    rw (at, set_state)
      (record {
        jobs = record {
          size = length-set s.jobs i _ ∙ v.jobs.size;
          slots = All-set IsSlot s.jobs i v.jobs.slots (inr (live, slot.0, ne));
          distinct = Distinct-set_state s.jobs i j state at v.jobs.distinct;
        };
        next_pos = v.next_pos;
      })

-- Where a search by pid leads.
pub get_job_pid-some :
    (js : List Job) (p i : ℕ)
    → get_job_pid js (pos p) ≡ some i
    → (j : Job) × (get_elem? js i ≡ some j) × (j.pid ≡ p) × (0 < p)
unfolding get_job_pid
get_job_pid-some js p i h = elim (Bool-cases (ltb p 1)) [
  | inl low ↦ ground arith
  | inr ok ↦
      let found : find (has_pid p) js ≡ some i = ground arith in
      let (j, at, t) = find-some (has_pid p) js i found in (j, at, ground arith, ground arith)
]

reap_as-IsShell :
    (status : WaitStatus) (s : Shell) (pid : ℕ) {s' : Shell}
    → IsShell s
    → reap_as status s pid ≡ some s'
    → IsShell s'
unfolding reap_as
reap_as-IsShell was_signaled s pid v h =
    let told = print (terminated (pid_to_jid s.jobs (pos pid)) pid sigint) s in
    subst IsShell (cc)
      (delete_job-IsShell told (pos pid) (record { jobs = v.jobs; next_pos = v.next_pos }))
reap_as-IsShell was_stopped s pid v h = elim (Option-cases (get_job_pid s.jobs (pos pid))) [
  | inl gone ↦ ground arith
  | inr (i, e) ↦
      let (j, at, same, live) = get_job_pid-some s.jobs pid i e in
      let told = print (stopped (pid_to_jid s.jobs (pos pid)) pid sigtstp) s in
      subst IsShell (ground arith) (
        set_state-IsShell told i j st at (omega arith) (λ x. cc)
          (record { jobs = v.jobs; next_pos = v.next_pos }))
]
reap_as-IsShell was_exited s pid v h = subst IsShell (cc) (delete_job-IsShell s (pos pid) v)

-- The handler keeps the list well formed, whatever `waitpid` reports.
pub sigchld_handler-IsShell :
    (cs : List Child) (s : Shell) {s' : Shell}
    → IsShell s
    → sigchld_handler cs s ≡ some s'
    → IsShell s'
unfolding sigchld_handler
sigchld_handler-IsShell [] s v h = subst IsShell (cc) v
sigchld_handler-IsShell (c ∷ cs) s v h = elim (Option-cases (reap_as c.status s c.pid)) [
  | inl gone ↦ ground arith
  | inr (s1, e) ↦
      sigchld_handler-IsShell cs s1 (reap_as-IsShell c.status s c.pid v e) (ground arith)
]

-- No foreground job comes up in a handler.
delete_job-OnlyFg :
    (s : Shell) (pid : ℤ) (p : ℕ) → OnlyFg p s.jobs → OnlyFg p (delete_job s pid).0.jobs
unfolding delete_job
delete_job-OnlyFg s (negsuc n) p a = a
delete_job-OnlyFg s (pos zero) p a = a
delete_job-OnlyFg s (pos (suc q)) p a = elim (Option-cases (find (has_pid (suc q)) s.jobs)) [
  | inl gone ↦ rw (in_range q, gone) a
  | inr (i, e) ↦ rw (in_range q, e) (All-set _ s.jobs i a (inl (λ x. cc)))
]

pub set_state-OnlyFg :
    (s : Shell) (i p : ℕ) (state : JobState)
    → state ≢ fg
    → OnlyFg p s.jobs
    → OnlyFg p (set_state s i state).jobs
set_state-OnlyFg s i p state ne a = elim (Option-cases (get_elem? s.jobs i)) [
  | inl gone ↦ rw (gone, set_state) a
  | inr (j, at) ↦ rw (at, set_state) (All-set _ s.jobs i a (inl ne))
]

OnlyFg-eq : (p : ℕ) (s s' : Shell) → s ≡ s' → OnlyFg p s.jobs → OnlyFg p s'.jobs
OnlyFg-eq p s s' e a = subst (λ (x : Shell). OnlyFg p x.jobs) e a

reap_as-OnlyFg :
    (status : WaitStatus) (s : Shell) (pid p : ℕ) {s' : Shell}
    → OnlyFg p s.jobs
    → reap_as status s pid ≡ some s'
    → OnlyFg p s'.jobs
unfolding reap_as
reap_as-OnlyFg was_signaled s pid p {s'} a h =
    let told = print (terminated (pid_to_jid s.jobs (pos pid)) pid sigint) s in
    OnlyFg-eq p (delete_job told (pos pid)).0 s' (cc) (delete_job-OnlyFg told (pos pid) p a)
reap_as-OnlyFg was_stopped s pid p {s'} a h = elim (Option-cases (get_job_pid s.jobs (pos pid))) [
  | inl gone ↦ ground arith
  | inr (i, e) ↦
      let told = print (stopped (pid_to_jid s.jobs (pos pid)) pid sigtstp) s in
      OnlyFg-eq p (set_state told i st) s' (ground arith) (set_state-OnlyFg told i p st (λ x. cc) a)
]
reap_as-OnlyFg was_exited s pid p {s'} a h =
    OnlyFg-eq p (delete_job s (pos pid)).0 s' (cc) (delete_job-OnlyFg s (pos pid) p a)

pub sigchld_handler-OnlyFg :
    (cs : List Child) (s : Shell) (p : ℕ) {s' : Shell}
    → OnlyFg p s.jobs
    → sigchld_handler cs s ≡ some s'
    → OnlyFg p s'.jobs
unfolding sigchld_handler
sigchld_handler-OnlyFg [] s p {s'} a h = OnlyFg-eq p s s' (cc) a
sigchld_handler-OnlyFg (c ∷ cs) s p {s'} a h = elim (Option-cases (reap_as c.status s c.pid)) [
  | inl gone ↦ ground arith
  | inr (s1, e) ↦
      sigchld_handler-OnlyFg cs s1 p {s' = s'} (reap_as-OnlyFg c.status s c.pid p a e)
        (ground arith)
]

-- Some child is reported as stopped.
abbrev pub HasStopped : List Child → Type 0
HasStopped [] = ⊥
HasStopped (c ∷ cs) = (c.status ≡ was_stopped) ⊎ HasStopped cs

abbrev pub SomeStopped : List (List Child) → Type 0
SomeStopped [] = ⊥
SomeStopped (cs ∷ reports) = HasStopped cs ⊎ SomeStopped reports

reap_as-none :
    (status : WaitStatus) (s : Shell) (pid : ℕ) → reap_as status s pid ≡ none → status ≡ was_stopped
unfolding reap_as
reap_as-none was_signaled s pid e = cc
reap_as-none was_stopped s pid e = refl
reap_as-none was_exited s pid e = cc

-- The handler reaches NULL only at a child that has stopped.
pub sigchld_handler-none :
    (cs : List Child) (s : Shell) → sigchld_handler cs s ≡ none → HasStopped cs
unfolding sigchld_handler
sigchld_handler-none [] s e = cc
sigchld_handler-none (c ∷ cs) s e = elim (Option-cases (reap_as c.status s c.pid)) [
  | inl gone ↦ inl (reap_as-none c.status s c.pid gone)
  | inr (s1, on) ↦ inr (sigchld_handler-none cs s1 (ground arith))
]
