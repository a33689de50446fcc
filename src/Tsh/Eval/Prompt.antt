-- ===== src/Tsh/Eval/Prompt.antt =====
-- `eval` of tsh.c keeps the job list, and every command that ends leaves no foreground job.
use computer_systems_practic.Prelude.{
  ℕ, ◌<◌, ◌≡◌, ◌≢◌, refl, ◌⊎◌, inl, inr, Bool, true, false, Option, none, some, List, [], ◌∷◌, ◌==◌,
  if◌then◌else◌, get_elem?, All, All-set,
}
use computer_systems_practic.Tsh.Jobs.{
  ℤ, pos, fg, bg, Job, Shell, print, get_job_pid, get_job_jid, list_jobs, kill_sent, resumed,
}
use computer_systems_practic.Tsh.Jobs.Invariant.{IsSlot, IsShell, IsFresh}
use computer_systems_practic.Tsh.ParseLine.{
  Str, Tokens, Builtin, builtin_none, builtin_quit, builtin_jobs, builtin_bg, builtin_fg, Parsed,
  parsed, refused, stuck, parse_line,
}
use computer_systems_practic.Tsh.Eval.{
  Child, set_state, Run, finished, faults, wait_for, resume_job, write_trunc, sigcont, named_job,
  exec_bgfg, Open, exec_builtin, run_tokens, eval, print_all,
}
use computer_systems_practic.Tsh.Eval.Reap.{OnlyFg, SomeStopped, set_state-IsShell}
use computer_systems_practic.Tsh.Eval.Foreground.{
  NoFg, IsRun, at_prompt, at_exit, crashed, wait_fg-IsRun, print-IsShell, print_all-keeps,
  exec_others-IsRun, Names, by_pid, by_jid, NoFg-OnlyFg,
}

-- The command is quit; and it is bg or fg.
abbrev pub IsQuit : Parsed → Type 0
IsQuit (parsed is_bg tok (some builtin_quit)) = Unit
IsQuit _ = ⊥

abbrev pub UsesJob : Parsed → Type 0
UsesJob (parsed is_bg tok (some builtin_bg)) = Unit
UsesJob (parsed is_bg tok (some builtin_fg)) = Unit
UsesJob _ = ⊥

-- The argument of bg and fg names a live job, or its use is an access through NULL.
data Named (js : List Job) : Option (ℕ × ℤ) → Type 0 where
  null_access : Named js none
  names : {i : ℕ} {pid : ℤ} → Names js (i, pid) → Named js (some (i, pid))

pid_part :
    (js : List Job) (pid : ℤ) (o : Option ℕ)
    → get_job_pid js pid ≡ o
    → Named js (elim o [ none ↦ none | some i ↦ some (i, pid) ])
pid_part js pid none e = null_access
pid_part js pid (some i) e = names (by_pid js pid i e)

jid_entry :
    (js : List Job) (i : ℕ) (o : Option Job)
    → get_elem? js i ≡ o
    → (j : Job) × (get_elem? js i ≡ some j) × (0 < j.pid)
    → Named js (elim o [ none ↦ none | some j ↦ some (i, pos j.pid) ])
jid_entry js i none e k = null_access
jid_entry js i (some j) e (j', at, live) =
    let same : j' ≡ j = cc in names (j, e, rw (← same) live, refl)

jid_part :
    (js : List Job) (n : ℤ) (o : Option ℕ)
    → All IsSlot js
    → get_job_jid js n ≡ o
    → Named js (elim o [
      | none ↦ none
      | some i ↦ elim (get_elem? js i) [ none ↦ none | some j ↦ some (i, pos j.pid) ]
    ])
jid_part js n none a e = null_access
jid_part js n (some i) a e = jid_entry js i (get_elem? js i) refl (by_jid js n i a e)

if-Named :
    {js : List Job} (b : Bool) (x y : Option (ℕ × ℤ))
    → Named js x
    → Named js y
    → Named js (if b then x else y)
if-Named true x y p q = p
if-Named false x y p q = q

named_job-Named :
    (scan_int : Str → ℤ) (arg : Str) (js : List Job)
    → All IsSlot js
    → Named js (named_job scan_int arg js)
unfolding named_job
named_job-Named scan_int [] js a = pid_part js (scan_int []) _ refl
named_job-Named scan_int (c ∷ arg) js a =
    if-Named (c == b'%') _ _ (jid_part js (scan_int arg) _ a refl)
      (pid_part js (scan_int (c ∷ arg)) _ refl)

-- The state of a live job is set, and the command goes on.
module _ (s : Shell) (i : ℕ) (j : Job) (at : get_elem? s.jobs i ≡ some j) (live : 0 < j.pid)
    (v : IsShell s) (a : NoFg s.jobs) where
  NoFg-set_bg : NoFg (set_state s i bg).jobs
  NoFg-set_bg = rw (at, set_state) (All-set (λ x. x.state ≢ fg) s.jobs i a (λ e. cc))

  OnlyFg-set_fg : OnlyFg j.pid (set_state s i fg).jobs
  OnlyFg-set_fg =
      rw (at, set_state) (All-set _ s.jobs i (NoFg-OnlyFg j.pid s.jobs a) (inr (refl, live)))

  back_at_prompt :
      {Quits Fails : Type 0} (fails : Fails) (pid : ℤ) (o : Option Job)
      → IsRun Quits Fails (elim o [
        | none ↦ faults
        | some x ↦ finished (
            print
              (resumed x.jid x.pid x.cmdline)
              (print (kill_sent pid sigcont) (set_state s i bg)))
      ])
  back_at_prompt fails pid none = crashed fails
  back_at_prompt fails pid (some x) =
      at_prompt
        (print-IsShell _ _ (print-IsShell _ _ (set_state-IsShell s i j bg at live (λ e. cc) v)))
        NoFg-set_bg

  resume_job-IsRun :
      {Quits Fails : Type 0} (fails : Fails) (to_bg : Bool) (reports : List (List Child))
      → IsRun Quits Fails (resume_job to_bg i (pos j.pid) reports s)
  unfolding resume_job wait_for
  resume_job-IsRun fails true reports = back_at_prompt fails (pos j.pid) _
  resume_job-IsRun fails false reports =
      wait_fg-IsRun j.pid reports _ (λ x. fails) live
        (print-IsShell _ _ (set_state-IsShell s i j fg at live (λ e. cc) v)) OnlyFg-set_fg

module _ (scan_int : Str → ℤ) (reports : List (List Child)) (s : Shell) (v : IsShell s)
    (a : NoFg s.jobs) where
  Named-IsRun :
      {Quits Fails : Type 0} (fails : Fails) (to_bg : Bool) (o : Option (ℕ × ℤ))
      → Named s.jobs o
      → IsRun Quits Fails
          (elim o [ none ↦ faults | some (i, pid) ↦ resume_job to_bg i pid reports s ])
  Named-IsRun fails to_bg none n = crashed fails
  Named-IsRun fails to_bg (some r) (names (j, at, live, e)) =
      rw e (resume_job-IsRun s _ j at live v a fails to_bg reports)

  exec_bgfg-IsRun :
      {Quits Fails : Type 0} (fails : Fails) (to_bg : Bool) (arg : Option Str)
      → IsRun Quits Fails (exec_bgfg scan_int to_bg arg reports s)
  unfolding exec_bgfg
  exec_bgfg-IsRun fails to_bg none = crashed fails
  exec_bgfg-IsRun fails to_bg (some arg) =
      Named-IsRun fails to_bg _ (named_job-Named scan_int arg s.jobs v.jobs.slots)

  listed-IsRun :
      {Quits Fails : Type 0} (o : Option ℕ)
      → IsRun Quits Fails
          (elim o [ none ↦ finished s | some fd ↦ finished (print_all (list_jobs s.jobs fd) s) ])
  listed-IsRun none = at_prompt v a
  listed-IsRun (some fd) =
      let k = print_all-keeps (list_jobs s.jobs fd) s v a in at_prompt (k.0) (k.1)

  jobs-IsRun :
      {Quits Fails : Type 0} (open_file : Open) (tok : Tokens) (o : Option Str)
      → IsRun Quits Fails (elim o [
        | none ↦ finished (print_all (list_jobs s.jobs 1) s)
        | some f ↦ elim (open_file tok.infile write_trunc) [
          | none ↦ finished s
          | some fd ↦ finished (print_all (list_jobs s.jobs fd) s)
        ]
      ])
  jobs-IsRun open_file tok none =
      let k = print_all-keeps (list_jobs s.jobs 1) s v a in at_prompt (k.0) (k.1)
  jobs-IsRun open_file tok (some f) = listed-IsRun (open_file tok.infile write_trunc)

  exec_builtin-IsRun :
      (open_file : Open) (b : Builtin) (is_bg : Bool) (tok : Tokens)
      → IsRun
          (IsQuit (parsed is_bg tok (some b)))
          (UsesJob (parsed is_bg tok (some b)) ⊎ SomeStopped reports)
          (exec_builtin scan_int open_file b tok reports s)
  unfolding exec_builtin
  exec_builtin-IsRun open_file builtin_none is_bg tok = at_prompt v a
  exec_builtin-IsRun open_file builtin_quit is_bg tok = at_exit v a tt
  exec_builtin-IsRun open_file builtin_jobs is_bg tok = jobs-IsRun open_file tok (tok.outfile)
  exec_builtin-IsRun open_file builtin_bg is_bg tok = exec_bgfg-IsRun (inl tt) true _
  exec_builtin-IsRun open_file builtin_fg is_bg tok = exec_bgfg-IsRun (inl tt) false _

  if_command :
      {Quits Fails : Type 0} (l : List Str) (r : Run)
      → IsRun Quits Fails r
      → IsRun Quits Fails (elim l [ [] ↦ finished s | x ∷ rest ↦ r ])
  if_command [] r p = at_prompt v a
  if_command (x ∷ rest) r p = p

  run_tokens-IsRun :
      (open_file : Open) (cmdline : Str) (is_bg : Bool) (tok : Tokens) (b : Option Builtin)
      (pid : ℤ)
      → IsFresh pid s.jobs
      → IsRun
          (IsQuit (parsed is_bg tok b))
          (UsesJob (parsed is_bg tok b) ⊎ SomeStopped reports)
          (run_tokens scan_int open_file cmdline is_bg tok b pid reports s)
  unfolding run_tokens
  run_tokens-IsRun open_file cmdline is_bg tok none pid fresh = at_prompt v a
  run_tokens-IsRun open_file cmdline is_bg tok (some builtin_none) pid fresh =
      if_command tok.argv _ (exec_others-IsRun cmdline is_bg pid reports s inr v a fresh)
  run_tokens-IsRun open_file cmdline is_bg tok (some b) pid fresh =
      if_command tok.argv _ (exec_builtin-IsRun open_file b is_bg tok)

  parsed-IsRun :
      (open_file : Open) (cmdline : Str) (pid : ℤ)
      → IsFresh pid s.jobs
      → (r : Parsed)
      → IsRun (IsQuit r) (UsesJob r ⊎ SomeStopped reports) (elim r [
        | refused e ↦ finished s
        | stuck ↦ finished s
        | parsed is_bg tok b ↦ run_tokens scan_int open_file cmdline is_bg tok b pid reports s
      ])
  parsed-IsRun open_file cmdline pid fresh (refused e) = at_prompt v a
  parsed-IsRun open_file cmdline pid fresh stuck = at_prompt v a
  parsed-IsRun open_file cmdline pid fresh (parsed is_bg tok b) =
      run_tokens-IsRun open_file cmdline is_bg tok b pid fresh

-- From a well-formed job list with no foreground job, and with a pid from `fork` that is above 0 and
-- that no job has, or with an error of `fork`, `eval` of any command line and any reports of children
-- either comes back to the prompt with a well-formed list and again no foreground job; or it waits for
-- the foreground job, which is in the well-formed list and the only one; or it exits with status 0, and
-- the command is quit; or it makes an access through NULL, and the command is bg or fg or a child was
-- reported as stopped.
pub eval-IsRun :
    (scan_int : Str → ℤ) (open_file : Open) (cmdline : Str) (pid : ℤ) (reports : List (List Child))
    (s : Shell)
    → IsShell s
    → NoFg s.jobs
    → IsFresh pid s.jobs
    → IsRun
        (IsQuit (parse_line cmdline))
        (UsesJob (parse_line cmdline) ⊎ SomeStopped reports)
        (eval scan_int open_file cmdline pid reports s)
unfolding eval
eval-IsRun scan_int open_file cmdline pid reports s v a fresh =
    parsed-IsRun scan_int reports s v a open_file cmdline pid fresh (parse_line cmdline)
