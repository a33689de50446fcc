-- ===== src/Tsh/Main/Session.antt =====
-- A whole session of tsh.c.
use computer_systems_practic.Prelude.{ℕ, ◌<◌, ◌≡◌, ◌⊎◌, none, some, List, [], ◌∷◌}
use computer_systems_practic.Tsh.Jobs.{Shell, print, ended, fg_pid}
use computer_systems_practic.Tsh.ParseLine.{Str, parse_line}
use computer_systems_practic.Tsh.Jobs.Invariant.{IsShell}
use computer_systems_practic.Tsh.Eval.{Run, waiting, exits, faults}
use computer_systems_practic.Tsh.Eval.Reap.{OnlyFg, HasStopped, SomeStopped}
use computer_systems_practic.Tsh.Eval.Foreground.{NoFg}
use computer_systems_practic.Tsh.Eval.Prompt.{IsQuit, UsesJob}
use computer_systems_practic.Tsh.Main.{
  Flag, flag_h, flag_other, Event, typed, child_changed, quit_sent, read_error, cut_newline,
}

-- An event of the list is of the kind P.
abbrev pub SomeEvent : (P : Event → Type 0) → List Event → Type 0
SomeEvent P [] = ⊥
SomeEvent P (e ∷ es) = P e ⊎ SomeEvent P es

-- A line with the command quit.
abbrev pub IsQuitLine : Event → Type 0
IsQuitLine (typed line reports) =
    (cmdline : Str) × (cut_newline line ≡ some cmdline) × IsQuit (parse_line cmdline)
IsQuitLine _ = ⊥

-- SIGQUIT, or an error of fgets.
abbrev pub IsAbort : Event → Type 0
IsAbort quit_sent = Unit
IsAbort read_error = Unit
IsAbort _ = ⊥

-- An empty line, a line with the command bg or fg, or a report of a child that has stopped.
abbrev pub IsRisk : Event → Type 0
IsRisk (typed line reports) =
    (cut_newline line ≡ none)
    ⊎ (((cmdline : Str) × (cut_newline line ≡ some cmdline) × UsesJob (parse_line cmdline))
        ⊎ SomeStopped reports)
IsRisk (child_changed cs) = HasStopped cs
IsRisk _ = ⊥

-- How a session with the events ends: at the end of the input, if there is no abort, at quit or by an
-- abort, each with no foreground job and a well-formed list; in the wait for the foreground job, which is in the
-- well-formed list and the only one; or, after an event that can do it, in undefined behaviour.
pub data IsEnd (es : List Event) : Run → Type 0 where
  ended_by_input :
      {s : Shell}
      → IsShell s
      → NoFg s.jobs
      → ¬ SomeEvent IsAbort es
      → IsEnd es (exits (print ended s) 0)
  ended_by_quit :
      {s : Shell} → IsShell s → NoFg s.jobs → SomeEvent IsQuitLine es → IsEnd es (exits s 0)
  ended_by_abort :
      {s : Shell} → IsShell s → NoFg s.jobs → SomeEvent IsAbort es → IsEnd es (exits s 1)
  ended_in_wait :
      {s : Shell} (p : ℕ)
      → IsShell s
      → OnlyFg p s.jobs
      → 0 < p
      → fg_pid s.jobs ≡ p
      → IsEnd es (waiting s)
  ended_by_fault : SomeEvent IsRisk es → IsEnd es faults

-- The flags that `usage` answers: -h, and any other than -v and -p.
abbrev pub IsRefused : List Flag → Type 0
IsRefused [] = ⊥
IsRefused (flag_h ∷ fs) = Unit
IsRefused (flag_other ∷ fs) = Unit
IsRefused (_ ∷ fs) = IsRefused fs
