-- ===== src/Tsh/Eval.antt =====
-- The commands and signal handlers of shell lab/tsh.c: `eval`, the built-in commands, the jobs that it
-- starts, and the reaping of children.
-- What the kernel decides is an argument: the pid that `fork` returns, the children that `waitpid`
-- reports at each SIGCHLD, and what `open` returns. `sscanf(s, "%d", &n)` is the function `scan_int`,
-- the value of n after the call. Children are reaped in a wait and at the prompt only: that SIGCHLD can
-- come in while exec_bgfg runs, which does not mask it, is not modelled.
pub mod Reap
pub mod Foreground
pub mod Prompt
pub mod Faults
use computer_systems_practic.Prelude.{
  ℕ, zero, suc, ◌+◌, Bool, true, false, Option, none, some, List, [], ◌∷◌, ◌++◌, ◌==◌, ltb,
  if◌then◌else◌, get_elem?, set, codes,
}
use computer_systems_practic.Tsh.Jobs.{
  ℤ, pos, negsuc, JobState, undef, fg, bg, st, Job, Shell, Message, terminated, stopped, background,
  resumed, kill_sent, print, add_job, delete_job, fg_pid, get_job_pid, get_job_jid, pid_to_jid,
  list_jobs,
}
use computer_systems_practic.Tsh.ParseLine.{
  Str, Tokens, Builtin, builtin_none, builtin_quit, builtin_jobs, builtin_bg, builtin_fg, Parsed,
  parsed, refused, stuck, parse_line,
}

-- WIFSIGNALED, WIFSTOPPED, or neither.
pub data WaitStatus : Type 0 where
  was_signaled was_stopped was_exited : WaitStatus

-- The pid, above 0, and the status that one call of `waitpid` reports.
pub record Child : Type 0 where
  pub pid : ℕ
  pub status : WaitStatus

abbrev pub sigint : ℕ
sigint = 2

abbrev pub sigtstp : ℕ
sigtstp = 20

abbrev pub sigcont : ℕ
sigcont = 18

-- job->state = state
abbrev pub set_state : Shell → ℕ → JobState → Shell
set_state s i state = elim (get_elem? s.jobs i) [
  | none ↦ s
  | some j ↦ record s { jobs = set s.jobs i (record j { state = state }) }
]

-- One round of `sigchld_handler`; `none` is the write through the NULL that `getjobpid` returns.
unfoldable pub reap_as : WaitStatus → Shell → ℕ → Option Shell
reap_as was_signaled s pid =
    some (delete_job (print (terminated (pid_to_jid s.jobs (pos pid)) pid sigint) s) (pos pid)).0
reap_as was_stopped s pid =
    let s' = print (stopped (pid_to_jid s.jobs (pos pid)) pid sigtstp) s in
    elim (get_job_pid s'.jobs (pos pid)) [ none ↦ none | some i ↦ some (set_state s' i st) ]
reap_as was_exited s pid = some (delete_job s (pos pid)).0

unfoldable pub sigchld_handler : List Child → Shell → Option Shell
sigchld_handler [] s = some s
sigchld_handler (c ∷ cs) s = elim (reap_as c.status s c.pid) [
  | none ↦ none
  | some s' ↦ sigchld_handler cs s'
]

-- `sigint_handler` and `sigtstp_handler`: the signal goes to the process group of the foreground job.
unfoldable pub forward_signal : ℕ → Shell → Shell
forward_signal sig s =
    let p = fg_pid s.jobs in elim p [ zero ↦ s | suc n ↦ print (kill_sent (negsuc n) sig) s ]

-- How a command ends: back at the prompt, in a wait for a child that has not changed, in `exit`, or
-- in an access through NULL.
pub data Run : Type 0 where
  finished : Shell → Run
  waiting : Shell → Run
  exits : Shell → (status : ℕ) → Run
  faults : Run

-- while (pid == fgpid(job_list)) sigsuspend(&prev); with the reports of the SIGCHLDs to come.
unfoldable pub wait_fg : ℕ → List (List Child) → Shell → Run
wait_fg pid [] s = if fg_pid s.jobs == pid then waiting s else finished s
wait_fg pid (cs ∷ rest) s = elim (fg_pid s.jobs == pid) [
  | false ↦ finished s
  | true ↦ elim (sigchld_handler cs s) [ none ↦ faults | some s' ↦ wait_fg pid rest s' ]
]

-- The wait for a pid that may be negative; `fgpid` never is.
unfoldable pub wait_for : ℤ → List (List Child) → Shell → Run
unfolding wait_fg
wait_for (negsuc n) reports s = finished s
wait_for (pos pid) reports s = wait_fg pid reports s

-- The parent's side of `exec_others`; `pid` is what `fork` returned.
unfoldable pub exec_others : Str → (is_bg : Bool) → ℤ → List (List Child) → Shell → Run
exec_others cmdline false pid reports s = wait_for pid reports (add_job s pid fg cmdline).0
exec_others cmdline true pid reports s =
    let s' = (add_job s pid bg cmdline).0 in
    finished (print (background (pid_to_jid s'.jobs pid) pid cmdline) s')

-- The end of `exec_bgfg`, once the job and the pid are known.
unfoldable pub resume_job : (to_bg : Bool) → ℕ → ℤ → List (List Child) → Shell → Run
resume_job true i pid reports s =
    let s' = print (kill_sent pid sigcont) (set_state s i bg) in
    elim (get_elem? s'.jobs i) [
      | none ↦ faults
      | some j ↦ finished (print (resumed j.jid j.pid j.cmdline) s')
    ]
resume_job false i pid reports s =
    wait_for pid reports (print (kill_sent pid sigcont) (set_state s i fg))

-- The job that the argument of bg and fg names, and the pid that the signal goes to; `none` is an
-- access through NULL.
unfoldable pub named_job : (scan_int : Str → ℤ) → Str → List Job → Option (ℕ × ℤ)
named_job scan_int [] js = elim (get_job_pid js (scan_int [])) [
  | none ↦ none
  | some i ↦ some (i, scan_int [])
]
named_job scan_int (c ∷ arg) js =
    if c == b'%'
    then elim (get_job_jid js (scan_int arg)) [
      | none ↦ none
      | some i ↦ elim (get_elem? js i) [ none ↦ none | some j ↦ some (i, pos j.pid) ]
    ]
    else elim (get_job_pid js (scan_int (c ∷ arg))) [
      | none ↦ none
      | some i ↦ some (i, scan_int (c ∷ arg))
    ]

unfoldable pub exec_bgfg :
    (scan_int : Str → ℤ) → (to_bg : Bool) → Option Str → List (List Child) → Shell → Run
exec_bgfg scan_int to_bg none reports s = faults
exec_bgfg scan_int to_bg (some arg) reports s = elim (named_job scan_int arg s.jobs) [
  | none ↦ faults
  | some (i, pid) ↦ resume_job to_bg i pid reports s
]

-- How a file is opened: O_RDONLY or O_WRONLY, both with O_CREAT and O_TRUNC.
pub data OpenMode : Type 0 where
  read_trunc write_trunc : OpenMode

-- The path may be NULL. `none` is the error return -1.
abbrev pub Open : Type 0
Open = Option Str → OpenMode → Option ℕ

-- The lines of `listjobs` put behind what was printed.
abbrev pub print_all : List Message → Shell → Shell
print_all [] s = s
print_all (m ∷ ms) s = print_all ms (print m s)

abbrev second : List Str → Option Str
second [] = none
second (a ∷ []) = none
second (a ∷ b ∷ rest) = some b

-- `exec_builtin`. For jobs the output file is opened by the name in `tok.infile`, as the source has it.
unfoldable pub exec_builtin :
    (scan_int : Str → ℤ) → Open → Builtin → Tokens → List (List Child) → Shell → Run
exec_builtin scan_int open_file builtin_quit tok reports s = exits s 0
exec_builtin scan_int open_file builtin_jobs tok reports s = elim (tok.outfile) [
  | none ↦ finished (print_all (list_jobs s.jobs 1) s)
  | some f ↦ elim (open_file tok.infile write_trunc) [
    | none ↦ finished s
    | some fd ↦ finished (print_all (list_jobs s.jobs fd) s)
  ]
]
exec_builtin scan_int open_file builtin_bg tok reports s =
    exec_bgfg scan_int true (second tok.argv) reports s
exec_builtin scan_int open_file builtin_fg tok reports s =
    exec_bgfg scan_int false (second tok.argv) reports s
exec_builtin scan_int open_file builtin_none tok reports s = finished s

-- The child's `redirect`: the descriptors that are put in the place of 0 and 1, or the message with
-- which it exits. The output file is opened by the name in `tok.infile`, as the source has it.
pub data Redirected : Type 0 where
  dups : List (ℕ × ℕ) → Redirected
  dies : Str → Redirected

abbrev redirect_output : Open → Tokens → List (ℕ × ℕ) → Redirected
redirect_output open_file tok done = elim (tok.outfile) [
  | none ↦ dups done
  | some f ↦ elim (open_file tok.infile write_trunc) [
    | none ↦ dies (codes "Output file error")
    | some fd ↦ dups (done ++ ((fd, 1) ∷ []))
  ]
]

unfoldable pub redirect : Open → Tokens → Redirected
redirect open_file tok = elim (tok.infile) [
  | none ↦ redirect_output open_file tok []
  | some f ↦ elim (open_file (some f) read_trunc) [
    | none ↦ dies (codes "Input file error")
    | some fd ↦ redirect_output open_file tok ((fd, 0) ∷ [])
  ]
]

unfoldable pub run_tokens :
    (scan_int : Str → ℤ)
    → Open
    → Str
    → (is_bg : Bool) → Tokens
    → Option Builtin
    → ℤ
    → List (List Child)
    → Shell
    → Run
run_tokens scan_int open_file cmdline is_bg tok none pid reports s = finished s
run_tokens scan_int open_file cmdline is_bg tok (some builtin_none) pid reports s =
    elim (tok.argv) [ [] ↦ finished s | a ∷ rest ↦ exec_others cmdline is_bg pid reports s ]
run_tokens scan_int open_file cmdline is_bg tok (some b) pid reports s = elim (tok.argv) [
  | [] ↦ finished s
  | a ∷ rest ↦ exec_builtin scan_int open_file b tok reports s
]

-- `eval`: an error and an empty line do nothing.
unfoldable pub eval : (scan_int : Str → ℤ) → Open → Str → ℤ → List (List Child) → Shell → Run
unfolding run_tokens
eval scan_int open_file cmdline pid reports s = elim (parse_line cmdline) [
  | refused e ↦ finished s
  | stuck ↦ finished s
  | parsed is_bg tok b ↦ run_tokens scan_int open_file cmdline is_bg tok b pid reports s
]
