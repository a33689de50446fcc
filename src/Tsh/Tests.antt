-- ===== src/Tsh/Tests.antt =====
-- Runs of the shell, and its theorems at concrete inputs.
use computer_systems_practic.Prelude.{
  ◌+◌, ◌++◌, false, ℕ, ◌<◌, ◌≡◌, ◌≢◌, ◌⊎◌, refl, true, false, none, some, List, [], ◌∷◌, arith,
  get_elem?, All, codes,
}
use computer_systems_practic.Tsh.Jobs.{
  ℤ, pos, JobState, bg, st, Job, Shell, cleared, find, add_job, delete_job,
}
use computer_systems_practic.Tsh.Jobs.Invariant.{IsShell, add_job-job_of, delete_job-job_of}
use computer_systems_practic.Tsh.Jobs.Reused.{add_job_reuses_jid}
use computer_systems_practic.Tsh.ParseLine.{
  Str, builtin_none, parsed, refused, unmatched, ambiguous, no_file_name, parse_line, builtin_of,
  skip_delims, split_delim, split_quote, take_token, record_token, round, ends_in_amp, drop_last,
  finish_args,
}
use computer_systems_practic.Tsh.ParseLine.Total.{IsParsed, parse_line-IsParsed}
use computer_systems_practic.Tsh.ParseLine.Words.{write_words, plain_tokens, parse_line-write_words}
use computer_systems_practic.Tsh.Main.{Event, typed, child_changed, keyed}
use computer_systems_practic.Tsh.Jobs.Lookup.{job_of}
use computer_systems_practic.Tsh.Eval.{was_stopped, eval, Open}
use computer_systems_practic.Tsh.Eval.Foreground.{IsRun}
use computer_systems_practic.Tsh.Eval.Reap.{SomeStopped}
use computer_systems_practic.Tsh.Eval.Prompt.{IsQuit, UsesJob, eval-IsRun}

abbrev job : ℕ → ℕ → JobState → Job
job pid jid state = record { pid = pid; jid = jid; state = state; cmdline = [] }

abbrev shell : List Job → ℕ → Shell
shell js n = record { jobs = js; next_jid = n; verbose = false; output = [] }

abbrev free : List Job
free =
    cleared ∷ cleared ∷ cleared ∷ cleared ∷ cleared ∷ cleared ∷ cleared ∷ cleared ∷ cleared
    ∷ cleared ∷ cleared ∷ cleared ∷ cleared ∷ cleared ∷ []

-- Two jobs, one stopped and one running, and fourteen free entries.
abbrev two_jobs : Shell
two_jobs = shell (job 100 1 st ∷ job 101 2 bg ∷ free) 3

two_jobs-IsShell : IsShell two_jobs
two_jobs-IsShell = record {
  jobs = record { size = refl; slots = grind arith; distinct = ground arith };
  next_pos = omega arith;
}

-- echo 'a b' < in > out &
parse_redirections :
    parse_line (codes "echo 'a b' < in > out &")
    ≡ parsed true
        (record {
          argv = codes "echo" ∷ codes "a b" ∷ [];
          infile = some (codes "in");
          outfile = some (codes "out");
        })
        (some builtin_none)
unfolding parse_line skip_delims split_delim split_quote take_token record_token round ends_in_amp
    drop_last finish_args builtin_of
parse_redirections = refl

parse_errors :
    (parse_line (codes "echo 'a b") ≡ refused (unmatched 39))
    × (parse_line (codes "cat < a < b") ≡ refused ambiguous)
    × (parse_line (codes "cat <") ≡ refused no_file_name)
unfolding parse_line skip_delims split_delim split_quote take_token record_token round ends_in_amp
    drop_last finish_args builtin_of
parse_errors = (refl, refl, refl)

add_job-job_of_example :
    let r = add_job two_jobs (pos 102) bg [] in
    (r.1 ≡ 0) × (r.0.jobs ≡ two_jobs.jobs) × All (λ j. j.pid ≢ 0) two_jobs.jobs
    ⊎ (r.1 ≡ 1) × (job_of r.0.jobs 102 ≡ some (job 102 3 bg)) × (r.0.next_jid ≡ 4)
add_job-job_of_example = add_job-job_of two_jobs 102 102 bg [] (omega arith) (omega arith) refl

delete_job-job_of_example :
    let r = delete_job two_jobs (pos 100) in
    (some (job 100 1 st) ≡ none) × (r ≡ (two_jobs, 0))
    ⊎ (some (job 100 1 st) ≢ none)
      × (r.1 ≡ 1)
      × (job_of r.0.jobs 101 ≡ some (job 101 2 bg))
      × All (λ j. j.jid < r.0.next_jid) r.0.jobs
delete_job-job_of_example =
    delete_job-job_of two_jobs 100 101 (omega arith) (omega arith) two_jobs-IsShell.jobs.distinct

-- Jid 1 is in use, and `nextjid` has come to 17 by a deletion.
abbrev late : Shell
late = shell (job 100 1 st ∷ job 101 16 bg ∷ free) 17

add_job_reuses_jid_example :
    let r = (add_job (add_job late (pos 102) bg []).0 (pos 103) bg []).0 in
    (i : ℕ) × (new : Job) × (0 ≢ i)
    × (get_elem? r.jobs 0 ≡ some (job 100 1 st))
    × (get_elem? r.jobs i ≡ some new)
    × (new.jid ≡ 1)
    × (0 < new.pid)
unfolding add_job find
add_job_reuses_jid_example =
    add_job_reuses_jid late 102 103 0 (job 100 1 st) bg bg [] [] (omega arith) (omega arith)
      (omega arith) refl (omega arith) refl refl refl

parse_line-IsParsed_example : IsParsed (parse_line (codes "ls -l > 'x"))
parse_line-IsParsed_example = parse_line-IsParsed (codes "ls -l > 'x")

parse_line-write_words_example :
    (parse_line ([] ++ write_words (codes "ls" ∷ codes "-l" ∷ []))
      ≡ parsed false (plain_tokens (codes "ls" ∷ codes "-l" ∷ [])) (some (builtin_of (codes "ls"))))
    × (parse_line ([] ++ write_words (codes "ls" ∷ codes "-l" ∷ codes "&" ∷ []))
        ≡ parsed true
            (plain_tokens (codes "ls" ∷ codes "-l" ∷ []))
            (some (builtin_of (codes "ls"))))
parse_line-write_words_example =
    parse_line-write_words [] (codes "ls") (codes "-l" ∷ []) tt
      ((refl, refl, refl, refl, (refl, tt)), ((refl, refl, refl, refl, (refl, tt)), tt))
      (omega arith) (unfold ends_in_amp in refl)

-- A stand-in for `sscanf` that reads every argument as 7.
abbrev seven : Str → ℤ
seven arg = pos 7

abbrev no_file : Open
no_file path mode = none

eval-IsRun_example :
    IsRun
      (IsQuit (parse_line (codes "sleep 5")))
      (UsesJob (parse_line (codes "sleep 5"))
        ⊎ SomeStopped ((record { pid = 102; status = was_stopped } ∷ []) ∷ []))
      (eval seven no_file
        (codes "sleep 5")
        (pos 102)
        ((record { pid = 102; status = was_stopped } ∷ []) ∷ [])
        two_jobs)
eval-IsRun_example =
    eval-IsRun seven no_file (codes "sleep 5") (pos 102)
      ((record { pid = 102; status = was_stopped } ∷ []) ∷ []) two_jobs two_jobs-IsShell
      (grind arith) (omega arith, refl)

-- A fork that returns a pid above all the pids in the list.
abbrev sum_pids : List Job → ℕ
sum_pids [] = 0
sum_pids (j ∷ js) = j.pid + sum_pids js

abbrev next_pid : List Event → Shell → ℤ
next_pid es s = pos (sum_pids s.jobs + 1)

abbrev events : List Event
events =
    typed (codes "sleep 5 &" ++ 10 ∷ []) []
    ∷ child_changed (record { pid = 1; status = was_stopped } ∷ [])
    ∷ keyed 2
    ∷ typed (codes "jobs" ++ 10 ∷ []) []
    ∷ []
