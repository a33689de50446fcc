-- ===== src/Tsh/Eval/Foreground.antt =====
-- At most one job of tsh.c is in the foreground, and at the prompt none is.
use computer_systems_practic.Prelude.{
  ℕ, zero, suc, ◌<◌, ◌≡◌, ◌≢◌, refl, ◌⊎◌, inl, inr, Bool, true, false, some, List, [], ◌∷◌, arith,
  ◌==◌, ltb, get_elem?, Bool-cases, Option-cases, All, All-set, All-get, ◌∙◌, sym, ap,
}
use computer_systems_practic.Tsh.Jobs.{
  ℤ, pos, negsuc, JobState, undef, fg, bg, st, is_fg, Job, Shell, print, find, has_pid, has_jid,
  add_job, fg_pid, get_job_pid, get_job_jid, new_job, Message,
}
use computer_systems_practic.Tsh.Jobs.Lookup.{find-some}
use computer_systems_practic.Tsh.Jobs.Invariant.{
  IsSlot, IsShell, add_job-IsShell, IsFresh, add_job_free, add_job_full, add_at_jobs,
}
use computer_systems_practic.Tsh.ParseLine.{Str}
use computer_systems_practic.Tsh.Eval.{
  Child, sigchld_handler, Run, finished, waiting, exits, faults, wait_fg, wait_for, exec_others,
  print_all,
}
use computer_systems_practic.Tsh.Eval.Reap.{
  OnlyFg, SomeStopped, sigchld_handler-none, get_job_pid-some, sigchld_handler-IsShell,
  sigchld_handler-OnlyFg,
}

-- No job is in the foreground.
abbrev pub NoFg : List Job → Type 0
NoFg js = All (λ j. j.state ≢ fg) js

-- A command that comes back to the prompt leaves a well-formed list with no foreground job. One that
-- waits has the foreground job that it waits for, and no other. An exit, with status 0, needs `Quits`
-- and an access through NULL needs `Fails`.
pub data IsRun (Quits Fails : Type 0) : Run → Type 0 where
  at_prompt : {s : Shell} → IsShell s → NoFg s.jobs → IsRun Quits Fails (finished s)
  in_wait :
      {s : Shell} (p : ℕ)
      → IsShell s
      → OnlyFg p s.jobs
      → 0 < p
      → fg_pid s.jobs ≡ p
      → IsRun Quits Fails (waiting s)
  at_exit : {s : Shell} → IsShell s → NoFg s.jobs → Quits → IsRun Quits Fails (exits s 0)
  crashed : Fails → IsRun Quits Fails faults

pub NoFg-OnlyFg : (p : ℕ) (js : List Job) → NoFg js → OnlyFg p js
NoFg-OnlyFg p [] a = tt
NoFg-OnlyFg p (j ∷ js) (n, a) = (inl n, NoFg-OnlyFg p js a)

is_fg-cases : (x : JobState) → (is_fg x ≡ true) × (x ≡ fg) ⊎ (is_fg x ≡ false) × (x ≢ fg)
is_fg-cases fg = inl (refl, refl)
is_fg-cases undef = inr (refl, λ e. cc)
is_fg-cases bg = inr (refl, λ e. cc)
is_fg-cases st = inr (refl, λ e. cc)

fg_pid-cons : (j : Job) (js : List Job) → is_fg j.state ≡ false → fg_pid (j ∷ js) ≡ fg_pid js
unfolding fg_pid find
fg_pid-cons j js h = elim (Option-cases (find (λ x. is_fg x.state) js)) [
  | inl gone ↦ rw (h, gone)
  | inr (i, e) ↦ rw (h, e)
]

fg_pid-head : (j : Job) (js : List Job) → is_fg j.state ≡ true → fg_pid (j ∷ js) ≡ j.pid
unfolding fg_pid find
fg_pid-head j js h = rw h

-- `fgpid` finds the foreground job if there is one.
fg_pid-ne : (p : ℕ) (js : List Job) → OnlyFg p js → fg_pid js ≢ p → NoFg js
fg_pid-ne p [] a ne = tt
fg_pid-ne p (j ∷ js) (h, a) ne = elim (is_fg-cases j.state) [
  | inl (t, e) ↦ elim h [
    | inl n ↦ absurd (n e)
    | inr (same, live) ↦ absurd (ne (fg_pid-head j js t ∙ same))
  ]
  | inr (f, n) ↦ (n, fg_pid-ne p js a (λ q. ne (fg_pid-cons j js f ∙ q)))
]

-- The wait ends at the prompt with no foreground job, or goes on for the one job.
pub wait_fg-IsRun :
    {Quits Fails : Type 0} (p : ℕ) (reports : List (List Child)) (s : Shell)
    → (SomeStopped reports → Fails)
    → 0 < p
    → IsShell s
    → OnlyFg p s.jobs
    → IsRun Quits Fails (wait_fg p reports s)
unfolding wait_fg
wait_fg-IsRun p [] s f live v a = elim (Bool-cases (fg_pid s.jobs == p)) [
  | inl same ↦ rw same (in_wait p v a live (ground arith))
  | inr other ↦ rw other (at_prompt v (fg_pid-ne p s.jobs a (ground arith)))
]
wait_fg-IsRun p (cs ∷ rest) s f live v a = elim (Bool-cases (fg_pid s.jobs == p)) [
  | inr other ↦ rw (other, wait_fg) (at_prompt v (fg_pid-ne p s.jobs a (ground arith)))
  | inl same ↦ elim (Option-cases (sigchld_handler cs s)) [
    | inl gone ↦ rw (same, wait_fg) (rw gone (crashed (f (inl (sigchld_handler-none cs s gone)))))
    | inr (s1, e) ↦
        rw (same, wait_fg)
          (rw e (
            wait_fg-IsRun p rest s1 (λ x. f (inr x)) live (sigchld_handler-IsShell cs s v e)
              (sigchld_handler-OnlyFg cs s p a e)))
  ]
]

pub print-IsShell : (m : Message) (s : Shell) → IsShell s → IsShell (print m s)
print-IsShell m s v = record { jobs = v.jobs; next_pos = v.next_pos }

pub print_all-keeps :
    (ms : List Message) (s : Shell)
    → IsShell s
    → NoFg s.jobs
    → IsShell (print_all ms s) × NoFg (print_all ms s).jobs
print_all-keeps [] s v a = (v, a)
print_all-keeps (m ∷ ms) s v a = print_all-keeps ms (print m s) (print-IsShell m s v) a

-- A new job in the background starts none in the foreground, and one in the foreground is the only one.
add_job-keeps :
    (P : Job → Type 0) (s : Shell) (pid : ℤ) (state : JobState) (c : List ℕ)
    → ((p : ℕ) → pid ≡ pos p → 0 < p → P (new_job s p state c))
    → All P s.jobs
    → All P (add_job s pid state c).0.jobs
unfolding add_job
add_job-keeps P s (negsuc n) state c new a = a
add_job-keeps P s (pos zero) state c new a = a
add_job-keeps P s (pos (suc p)) state c new a = elim (Option-cases (find (has_pid 0) s.jobs)) [
  | inl full ↦ rw (add_job_full s (suc p) state c (omega arith) full) a
  | inr (i, free) ↦
      let e = add_at_jobs s i (new_job s (suc p) state c) in
      rw (add_job_free s (suc p) state c i (omega arith) free)
        (rw (e.0) (All-set P s.jobs i a (new (suc p) refl (omega arith))))
]

pub exec_others-IsRun :
    {Quits Fails : Type 0} (cmdline : Str) (is_bg : Bool) (pid : ℤ) (reports : List (List Child))
    (s : Shell)
    → (SomeStopped reports → Fails)
    → IsShell s
    → NoFg s.jobs
    → IsFresh pid s.jobs
    → IsRun Quits Fails (exec_others cmdline is_bg pid reports s)
unfolding exec_others wait_for add_job
exec_others-IsRun cmdline true pid reports s f v a fresh =
    at_prompt (print-IsShell _ _ (add_job-IsShell s pid bg cmdline v fresh (λ e. cc)))
      (add_job-keeps (λ j. j.state ≢ fg) s pid bg cmdline (λ p e l x. cc) a)
exec_others-IsRun cmdline false (negsuc n) reports s f v a fresh = at_prompt v a
exec_others-IsRun cmdline false (pos p) reports s f v a fresh =
    wait_fg-IsRun p reports _ f fresh.0 (add_job-IsShell s (pos p) fg cmdline v fresh (λ e. cc)) (
      add_job-keeps (λ j. (j.state ≢ fg) ⊎ (j.pid ≡ p) × (0 < p)) s (pos p) fg cmdline
        (λ q e l. inr (ground arith)) (NoFg-OnlyFg p s.jobs a))

get_job_jid-some :
    (js : List Job) (n i : ℕ)
    → get_job_jid js (pos n) ≡ some i
    → (j : Job) × (get_elem? js i ≡ some j) × (0 < j.jid)
unfolding get_job_jid
get_job_jid-some js n i h = elim (Bool-cases (ltb n 1)) [
  | inl low ↦ ground arith
  | inr ok ↦
      let found : find (has_jid n) js ≡ some i = ground arith in
      let (j, at, t) = find-some (has_jid n) js i found in (j, at, ground arith)
]

-- The entry and the pid of a job, as bg and fg use them.
abbrev pub Names : List Job → ℕ × ℤ → Type 0
Names js (i, pid) = (j : Job) × (get_elem? js i ≡ some j) × (0 < j.pid) × (pid ≡ pos j.pid)

pub by_pid : (js : List Job) (pid : ℤ) (i : ℕ) → get_job_pid js pid ≡ some i → Names js (i, pid)
unfolding get_job_pid
by_pid js (negsuc n) i h = cc
by_pid js (pos p) i h =
    let (j, at, same, live) = get_job_pid-some js p i h in (j, at, omega arith, ap pos (sym same))

pub by_jid :
    (js : List Job) (n : ℤ) (i : ℕ)
    → All IsSlot js
    → get_job_jid js n ≡ some i
    → (j : Job) × (get_elem? js i ≡ some j) × (0 < j.pid)
unfolding get_job_jid
by_jid js (negsuc n) i a h = cc
by_jid js (pos n) i a h =
    let (j, at, live) = get_job_jid-some js n i h in
    (j, at, slot_pid j (All-get IsSlot js i a at) live)
  where
    slot_pid : (j : Job) → IsSlot j → 0 < j.jid → 0 < j.pid
    slot_pid j (inl e) l = absurd (omega (arith, ap (λ (x : Job). x.jid) e))
    slot_pid j (inr (p, q, r)) l = p
