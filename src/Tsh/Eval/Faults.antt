-- ===== src/Tsh/Eval/Faults.antt =====
-- Where the commands of tsh.c go wrong: accesses through NULL, and the file that a redirection opens.
use computer_systems_practic.Prelude.{ℕ, ◌≡◌, Bool, none, some, List, [], ◌∷◌, arith, codes}
use computer_systems_practic.Tsh.Jobs.{ℤ, Shell, get_job_pid, get_job_jid}
use computer_systems_practic.Tsh.ParseLine.{Str}
use computer_systems_practic.Tsh.Eval.{
  Child, faults, exec_bgfg, named_job, Open, write_trunc, read_trunc, dups, dies, redirect,
}

-- bg and fg of a jid or a pid that no job has make an access through NULL.
exec_bgfg-faults :
    (scan_int : Str → ℤ) (to_bg : Bool) (c : ℕ) (arg : Str) (reports : List (List Child))
    (s : Shell)
    → get_job_jid s.jobs (scan_int arg) ≡ none
    → get_job_pid s.jobs (scan_int (c ∷ arg)) ≡ none
    → exec_bgfg scan_int to_bg (some (c ∷ arg)) reports s ≡ faults
unfolding exec_bgfg named_job
exec_bgfg-faults scan_int to_bg c arg reports s no_jid no_pid = ground arith

-- With an output file and no input file, `redirect` opens NULL for the output. Where `open` refuses
-- NULL the child exits with the message "Output file error", whatever the output file is called.
redirect_output_only :
    (open_file : Open) (args : List Str) (file : Str)
    → open_file none write_trunc ≡ none
    → redirect open_file (record { argv = args; infile = none; outfile = some file })
      ≡ dies (codes "Output file error")
unfolding redirect
redirect_output_only open_file args file refuses = ground arith

-- With both files, the input file is opened a second time, for writing, and takes the place of
-- standard output; the output file is not opened.
redirect_both :
    (open_file : Open) (args : List Str) (input output : Str) (fd fd' : ℕ)
    → open_file (some input) read_trunc ≡ some fd
    → open_file (some input) write_trunc ≡ some fd'
    → redirect open_file (record { argv = args; infile = some input; outfile = some output })
      ≡ dups ((fd, 0) ∷ (fd', 1) ∷ [])
unfolding redirect
redirect_both open_file args input output fd fd' r w = ground arith
