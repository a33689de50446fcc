-- ===== src/Tsh/Jobs.antt =====
-- The job list of shell lab/tsh.c and the helper routines that manipulate it.
-- A pid that is passed in may be negative. A stored pid is 0 or one that passed `pid < 1`, hence a
-- natural number. `nextjid` and the jids stay far below the range of int.
pub mod Lookup
pub mod Invariant
pub mod Reused
use computer_systems_practic.Prelude.{
  ℕ, zero, suc, ◌+◌, Bool, true, false, Option, none, some, List, [], ◌∷◌, ◌++◌, ◌==◌, ltb,
  if◌then◌else◌, get_elem?, set, replicate,
}

-- A C int that may be negative: `negsuc n` is -(n + 1).
pub data ℤ : Type 0 where
  pos : ℕ → ℤ
  negsuc : ℕ → ℤ

pub data JobState : Type 0 where
  undef fg bg st : JobState

pub record Job : Type 0 where
  pub pid : ℕ
  pub jid : ℕ
  pub state : JobState
  pub cmdline : List ℕ

-- What the shell prints, the prompt and the newline at the end of the input included, and the signals
-- that it sends with `kill`.
pub data Message : Type 0 where
  added : (jid pid : ℕ) → List ℕ → Message
  too_many : Message
  listed : (fd jid pid : ℕ) → JobState → List ℕ → Message
  terminated stopped : (jid : ℕ) → (pid : ℕ) → (signal : ℕ) → Message
  background : (jid : ℕ) → (pid : ℤ) → List ℕ → Message
  resumed : (jid pid : ℕ) → List ℕ → Message
  kill_sent : ℤ → (signal : ℕ) → Message
  prompted ended : Message

abbrev pub max_jobs : ℕ
max_jobs = 16

-- The globals `job_list`, `nextjid` and `verbose`, and the output so far, the last message first.
pub record Shell : Type 0 where
  pub jobs : List Job
  pub next_jid : ℕ
  pub verbose : Bool
  pub output : List Message

abbrev pub print : Message → Shell → Shell
print m s = record s { output = m ∷ s.output }

-- `clearjob` makes this of any entry.
abbrev pub cleared : Job
cleared = record { pid = 0; jid = 0; state = undef; cmdline = [] }

unfoldable pub init_jobs : Shell → Shell
init_jobs s = record s { jobs = replicate max_jobs cleared }

-- for (i = 0; i < MAXJOBS; i++) if (test(job_list[i])) return i;
unfoldable pub find : (Job → Bool) → List Job → Option ℕ
find test [] = none
find test (j ∷ js) =
    let rest = find test js in
    if test j then some 0 else elim rest [ none ↦ none | some i ↦ some (suc i) ]

unfoldable pub max_jid_from : ℕ → List Job → ℕ
max_jid_from max [] = max
max_jid_from max (j ∷ js) = max_jid_from (if ltb max j.jid then j.jid else max) js

unfoldable pub max_jid : List Job → ℕ
unfolding max_jid_from
max_jid js = max_jid_from 0 js

abbrev pub has_pid : ℕ → Job → Bool
has_pid pid j = j.pid == pid

abbrev pub has_jid : ℕ → Job → Bool
has_jid jid j = j.jid == jid

abbrev pub is_fg : JobState → Bool
is_fg fg = true
is_fg undef = false
is_fg bg = false
is_fg st = false

-- The new entry of `addjob`, and `nextjid` after it.
abbrev pub new_job : Shell → ℕ → JobState → List ℕ → Job
new_job s pid state cmdline = record {
  pid = pid;
  jid = s.next_jid;
  state = state;
  cmdline = cmdline;
}

abbrev pub bump_jid : ℕ → ℕ
bump_jid n = if ltb max_jobs (n + 1) then 1 else n + 1

abbrev add_at : Shell → ℕ → Job → Shell
add_at s i j =
    let s' = record s { jobs = set s.jobs i j; next_jid = bump_jid s.next_jid } in
    if s.verbose then print (added j.jid j.pid j.cmdline) s' else s'

-- The functions return 1 or 0 beside the new state.
unfoldable pub add_job : Shell → ℤ → JobState → List ℕ → Shell × ℕ
add_job s (negsuc n) state cmdline = (s, 0)
add_job s (pos pid) state cmdline = if ltb pid 1 then (s, 0) else elim (find (has_pid 0) s.jobs) [
  | none ↦ (print too_many s, 0)
  | some i ↦ (add_at s i (new_job s pid state cmdline), 1)
]

unfoldable pub delete_job : Shell → ℤ → Shell × ℕ
delete_job s (negsuc n) = (s, 0)
delete_job s (pos pid) = if ltb pid 1 then (s, 0) else elim (find (has_pid pid) s.jobs) [
  | none ↦ (s, 0)
  | some i ↦
      let jobs' = set s.jobs i cleared in
      (record s { jobs = jobs'; next_jid = max_jid jobs' + 1 }, 1)
]

-- The field of the entry at an index that a loop returned.
abbrev pub field_at : (Job → ℕ) → List Job → Option ℕ → ℕ
field_at f js none = 0
field_at f js (some i) = elim (get_elem? js i) [ none ↦ 0 | some j ↦ f j ]

unfoldable pub fg_pid : List Job → ℕ
fg_pid js = field_at (λ j. j.pid) js (find (λ j. is_fg j.state) js)

-- A pointer into the list is the index of its entry; `none` is NULL.
unfoldable pub get_job_pid : List Job → ℤ → Option ℕ
get_job_pid js (negsuc n) = none
get_job_pid js (pos pid) = if ltb pid 1 then none else find (has_pid pid) js

unfoldable pub get_job_jid : List Job → ℤ → Option ℕ
get_job_jid js (negsuc n) = none
get_job_jid js (pos jid) = if ltb jid 1 then none else find (has_jid jid) js

unfoldable pub pid_to_jid : List Job → ℤ → ℕ
pid_to_jid js (negsuc n) = 0
pid_to_jid js (pos pid) = if ltb pid 1 then 0 else field_at (λ j. j.jid) js (find (has_pid pid) js)

-- `listjobs`: the lines that it writes to a descriptor, in order.
unfoldable pub list_jobs : List Job → ℕ → List Message
list_jobs [] fd = []
list_jobs (j ∷ js) fd =
    let rest = list_jobs js fd in
    if j.pid == 0 then rest else listed fd j.jid j.pid j.state j.cmdline ∷ rest
