-- ===== src/Tsh/Jobs/Reused.antt =====
-- Where `addjob` of tsh.c gives out a jid that is in use.
use computer_systems_practic.Prelude.{
  ℕ, ◌≤◌, ◌<◌, ◌≡◌, ◌≢◌, refl, inl, inr, some, List, arith, get_elem?, true, get_elem?-lt,
  get_elem?-set_self, get_elem?-set_ne, Option-cases, ◌∙◌, sym, ap,
}
use computer_systems_practic.Tsh.Jobs.{
  pos, Job, JobState, Shell, find, has_pid, new_job, bump_jid, add_job, max_jobs,
}
use computer_systems_practic.Tsh.Jobs.Lookup.{find-some}
use computer_systems_practic.Tsh.Jobs.Invariant.{add_job_full, add_job_free, add_at_jobs}

-- A successful `addjob` fills a free entry, gives it `nextjid`, and touches no other entry.
pub record Placed (s : Shell) (r : Shell) : Type 0 where
  pub slot : ℕ
  pub job : Job
  pub placed : get_elem? r.jobs slot ≡ some job
  pub jid : job.jid ≡ s.next_jid
  pub others :
      (k : ℕ) (j : Job)
      → get_elem? s.jobs k ≡ some j
      → 0 < j.pid
      → (k ≢ slot) × (get_elem? r.jobs k ≡ some j)
  pub live : 0 < job.pid
  pub next : r.next_jid ≡ bump_jid s.next_jid

pub add_job-Placed :
    (s : Shell) (p : ℕ) (state : JobState) (cmdline : List ℕ)
    → 0 < p
    → (add_job s (pos p) state cmdline).1 ≡ 1
    → Placed s (add_job s (pos p) state cmdline).0
add_job-Placed s p state cmdline pp done = elim (Option-cases (find (has_pid 0) s.jobs)) [
  | inl full ↦
      let e = add_job_full s p state cmdline pp full in
      absurd (omega (arith, sym done ∙ ap (λ (r : Shell × ℕ). r.1) e))
  | inr (i, free) ↦
      let new = new_job s p state cmdline in
      let after = add_at_jobs s i new in
      let (old, at, t) = find-some (has_pid 0) s.jobs i free in
      rw (add_job_free s p state cmdline i pp free) (record {
        slot = i;
        job = new;
        placed = rw (after.0) (get_elem?-set_self s.jobs i new (get_elem?-lt s.jobs i at));
        jid = refl;
        others = λ k j g live.
            let ne : k ≢ i = λ e. taken g at t live e in
            (ne, rw (after.0) (get_elem?-set_ne s.jobs i k new (λ e. ne (sym e)) ∙ g));
        live = pp;
        next = after.1;
      })
]
  where
    taken :
        {k i : ℕ} {j old : Job}
        → get_elem? s.jobs k ≡ some j
        → get_elem? s.jobs i ≡ some old
        → has_pid 0 old ≡ true
        → 0 < j.pid
        → k ≡ i
        → ⊥
    taken {j} {old} g at t live e = let same : old ≡ j = cc in ground arith

-- When `nextjid` is at least 16 and a job has jid 1, two more jobs that fit the list leave two
-- different entries with jid 1: the first addition sets `nextjid` back to 1 without a look at the
-- list.
pub add_job_reuses_jid :
    (s : Shell) (p q k : ℕ) (j : Job) (state state' : JobState) (c c' : List ℕ)
    → 0 < p
    → 0 < q
    → max_jobs ≤ s.next_jid
    → get_elem? s.jobs k ≡ some j
    → 0 < j.pid
    → j.jid ≡ 1
    → (add_job s (pos p) state c).1 ≡ 1
    → (add_job (add_job s (pos p) state c).0 (pos q) state' c').1 ≡ 1
    → let r = (add_job (add_job s (pos p) state c).0 (pos q) state' c').0 in
      (i : ℕ) × (new : Job) × (k ≢ i)
      × (get_elem? r.jobs k ≡ some j)
      × (get_elem? r.jobs i ≡ some new)
      × (new.jid ≡ j.jid)
      × (0 < new.pid)
add_job_reuses_jid s p q k j state state' c c' pp qp high at live one first second =
    let s1 = (add_job s (pos p) state c).0 in
    let a = add_job-Placed s p state c pp first in
    let b = add_job-Placed s1 q state' c' qp second in
    let wrapped : s1.next_jid ≡ 1 = ground (arith, a.next) in
    let kept = a.others k j at live in
    let kept' = b.others k j kept.1 live in
    (b.slot, b.job, kept'.0, kept'.1, b.placed, b.jid ∙ wrapped ∙ sym one, b.live)
