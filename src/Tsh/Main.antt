-- ===== src/Tsh/Main.antt =====
-- The main routine of shell lab/tsh.c: its options and the read/eval loop. What getopt finds on the
-- command line and what happens while the shell runs are lists; `fork` is what fork returns where the
-- shell is in that state with these events to come.
pub mod Session
use computer_systems_practic.Prelude.{
  ℕ, Bool, true, false, Option, none, some, List, [], ◌∷◌, if◌then◌else◌, ◌>>=◌,
}
use computer_systems_practic.Tsh.Jobs.{ℤ, Shell, print, prompted, ended, init_jobs}
use computer_systems_practic.Tsh.ParseLine.{Str}
use computer_systems_practic.Tsh.Eval.{
  Child, Run, finished, waiting, exits, faults, Open, eval, sigchld_handler, forward_signal,
}

-- The options -h, -v and -p, and any other.
pub data Flag : Type 0 where
  flag_h flag_v flag_p flag_other : Flag

pub record Options : Type 0 where
  pub verbose : Bool
  pub emit_prompt : Bool

-- none is `usage`, which exits.
unfoldable pub parse_flags : List Flag → Options → Option Options
parse_flags [] o = some o
parse_flags (flag_h ∷ fs) o = none
parse_flags (flag_v ∷ fs) o = parse_flags fs (record o { verbose = true })
parse_flags (flag_p ∷ fs) o = parse_flags fs (record o { emit_prompt = false })
parse_flags (flag_other ∷ fs) o = none

-- What the shell meets at the prompt: a line that fgets stores, with the reports of children that come
-- in while `eval` waits; SIGCHLD; SIGINT or SIGTSTP; SIGQUIT; or an error of fgets. After the last one
-- comes the end of the input.
pub data Event : Type 0 where
  typed : Str → List (List Child) → Event
  child_changed : List Child → Event
  keyed : (signal : ℕ) → Event
  quit_sent read_error : Event

-- cmdline[strlen(cmdline) - 1] = '\0', which writes before the array where the line is empty.
unfoldable pub cut_newline : Str → Option Str
cut_newline [] = none
cut_newline (c ∷ []) = some []
cut_newline (c ∷ d ∷ s) = cut_newline (d ∷ s) >>= λ t. some (c ∷ t)

-- `usage`, `app_error` and `sigquit_handler` print and exit with status 1.
abbrev pub usage : Shell → Run
usage s = exits s 1

abbrev pub app_error : Shell → Run
app_error s = exits s 1

abbrev pub sigquit_handler : Shell → Run
sigquit_handler s = exits s 1

abbrev pub show_prompt : Options → Shell → Shell
show_prompt o s = if o.emit_prompt then print prompted s else s

module _ (scan_int : Str → ℤ) (open_file : Open) (fork : List Event → Shell → ℤ) where
  -- The loop, behind the prompt.
  unfoldable pub shell_loop : Options → List Event → Shell → Run
  unfolding cut_newline eval sigchld_handler forward_signal
  shell_loop o [] s = exits (print ended s) 0
  shell_loop o (typed line reports ∷ es) s = elim (cut_newline line) [
    | none ↦ faults
    | some cmdline ↦ elim (eval scan_int open_file cmdline (fork es s) reports s) [
      | finished s' ↦ shell_loop o es (show_prompt o s')
      | waiting s' ↦ waiting s'
      | exits s' status ↦ exits s' status
      | faults ↦ faults
    ]
  ]
  shell_loop o (child_changed cs ∷ es) s = elim (sigchld_handler cs s) [
    | none ↦ faults
    | some s' ↦ shell_loop o es s'
  ]
  shell_loop o (keyed signal ∷ es) s = shell_loop o es (forward_signal signal s)
  shell_loop o (quit_sent ∷ es) s = sigquit_handler s
  shell_loop o (read_error ∷ es) s = app_error s

  unfoldable pub main : List Flag → List Event → Shell → Run
  unfolding parse_flags init_jobs shell_loop
  main flags es s = elim (parse_flags flags (record { verbose = s.verbose; emit_prompt = true })) [
    | none ↦ usage s
    | some o ↦ shell_loop o es (show_prompt o (init_jobs (record s { verbose = o.verbose })))
  ]
