-- ===== src/Csim/Tests.antt =====
-- Runs of the simulator, and its theorems at concrete inputs.
use computer_systems_practic.Prelude.{
  ℕ, ◌+◌, ◌≤◌, ◌≡◌, refl, Option, none, some, List, [], ◌∷◌, arith, length, replicate,
}
use computer_systems_practic.Csim.{
  Param, Cache, hit, miss, Inst, Opt, parsed, exits, overruns, opt_s, opt_lines, opt_b, opt_t,
  opt_v, opt_h, parse_arg, parse_opts, strncpy_len, create_cache, execute_inst, run_trace,
  access_set, set_index, tag_of, empty_line, search_step, on_hit, on_miss, on_evict,
}
use computer_systems_practic.Csim.Parse.Accepts.{Judged, parse_arg_counts}
use computer_systems_practic.Csim.Index.{Fits}
use computer_systems_practic.Csim.Shape.{Access, access_set-Access}
use computer_systems_practic.Csim.Invariant.{KeepsCache, execute_inst-IsCache, create_cache-IsCache}
use computer_systems_practic.Csim.Counts.{references, run_trace_total}
use computer_systems_practic.Csim.Reuse.{execute_inst_again}
use computer_systems_practic.Csim.Recency.{held, access_all, access_all_drops_recent}

-- ./csim -s 1 -E 2 -b 4.
abbrev small : Param
small = record { v = 0; s = 1; lines = 2; b = 4; hits = 0; misses = 0; evicts = 0 }

small-Fits : Fits small
small-Fits = record { s_pos = omega arith; s_small = omega arith; below_64 = omega arith }

abbrev load : ℕ → Inst
load a = record { opt = b'L'; addr = a }

abbrev modify : ℕ → Inst
modify a = record { opt = b'M'; addr = a }

-- A stand-in for `sscanf`: the operation is the second character, the address the third.
abbrev scan : List ℕ → Inst
scan (sp ∷ op ∷ addr ∷ rest) = record { opt = op; addr = addr }
scan line = record { opt = 0; addr = 0 }

abbrev trace : List (List ℕ)
trace =
    (b' ' ∷ b'L' ∷ 16 ∷ [])
    ∷ (b'I' ∷ b' ' ∷ 7 ∷ [])
    ∷ (b' ' ∷ b'M' ∷ 32 ∷ [])
    ∷ (b' ' ∷ b'S' ∷ 18 ∷ [])
    ∷ (b' ' ∷ b'L' ∷ 80 ∷ [])
    ∷ (b' ' ∷ b'L' ∷ 112 ∷ [])
    ∷ []

counters : Option (Cache × Param) → Option (ℕ × ℕ × ℕ)
counters none = none
counters (some (c, p)) = some (p.hits, p.misses, p.evicts)

-- Two hits, four misses, one eviction.
counted_run : counters (run_trace scan trace (create_cache small) small) ≡ some (2, 4, 1)
unfolding counters run_trace create_cache execute_inst set_index tag_of access_set search_step
    on_hit on_miss on_evict
counted_run = refl

-- Help, a text that is too long for the buffer, a missing option, and the four options that csim.c asks for.
parse_runs :
    (parse_arg length (opt_h ∷ []) small [] ≡ exits 0)
    × (parse_arg length (opt_t (9 ∷ 9 ∷ []) ∷ []) small (0 ∷ []) ≡ overruns)
    × (parse_arg length (opt_v ∷ opt_s (1 ∷ []) ∷ []) small [] ≡ exits 1)
    × (parse_arg length
          (opt_s [] ∷ opt_lines (1 ∷ []) ∷ opt_b (1 ∷ 1 ∷ []) ∷ opt_t (9 ∷ []) ∷ [])
          small
          (0 ∷ 0 ∷ [])
        ≡ parsed
            (record { v = 0; s = 0; lines = 1; b = 2; hits = 0; misses = 0; evicts = 0 })
            (9 ∷ 0 ∷ []))
unfolding parse_arg parse_opts strncpy_len
parse_runs = (refl, refl, refl, refl)

access_set-Access_example :
    Access 1
      (load 16)
      (empty_line ∷ empty_line ∷ [])
      small
      (access_set 1 (load 16) (empty_line ∷ empty_line ∷ []) small)
access_set-Access_example =
    access_set-Access 1 (load 16) (empty_line ∷ empty_line ∷ []) small (omega arith)

execute_inst-IsCache_example :
    KeepsCache small (execute_inst (create_cache small) (modify 16) small)
execute_inst-IsCache_example =
    execute_inst-IsCache (create_cache small) (modify 16) small (omega arith) small-Fits
      (create_cache-IsCache small small-Fits)

run_trace_total_example :
    (cache' : Cache) × (param' : Param) × (run_trace scan trace (create_cache small) small
      ≡ some (cache', param'))
    × (param'.hits + param'.misses ≡ references scan trace)
    × (param'.evicts ≤ param'.misses)
run_trace_total_example = run_trace_total scan trace small (omega arith) small-Fits refl refl refl

-- The state after the first reference to the block of address 16.
abbrev one_line : Cache
one_line = (empty_line ∷ empty_line ∷ []) ∷ (held 0 1 ∷ empty_line ∷ []) ∷ []

abbrev one_miss : Param
one_miss = record small { misses = 1 }

first_reference :
    execute_inst (create_cache small) (load 16) small ≡ some (one_line, one_miss, miss)
unfolding create_cache execute_inst set_index tag_of access_set search_step on_miss
first_reference = refl

execute_inst_again_example :
    (cache2 : Cache) × (param2 : Param) × (execute_inst one_line (modify 18) one_miss
      ≡ some (cache2, param2, hit))
    × (param2.misses ≡ 1)
    × (param2.evicts ≡ 0)
execute_inst_again_example =
    execute_inst_again (create_cache small) (load 16) (modify 18) small (omega arith) small-Fits
      (create_cache-IsCache small small-Fits) refl first_reference

access_all_drops_recent_example :
    access_all (5 ∷ 6 ∷ 5 ∷ 7 ∷ []) (load 0) (empty_line ∷ empty_line ∷ []) small
    ≡ some (held 7 3 ∷ held 6 2 ∷ [])
access_all_drops_recent_example =
    access_all_drops_recent 5 6 7 (load 0) small (omega arith) (omega arith) (omega arith)

abbrev four_times : List Opt
four_times = opt_s (1 ∷ []) ∷ opt_s (1 ∷ []) ∷ opt_v ∷ opt_s (1 ∷ []) ∷ opt_t (1 ∷ []) ∷ []

abbrev buffer : List ℕ
buffer = replicate 100 0

parse_arg_counts_example : Judged 100 0 four_times small (parse_arg length four_times small buffer)
parse_arg_counts_example = parse_arg_counts length four_times small buffer (omega arith)
