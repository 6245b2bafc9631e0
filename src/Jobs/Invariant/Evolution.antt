-- ===== src/Jobs/Invariant/Evolution.antt =====
-- How a step may change the jobs and the registry of src/jobs/manager.ts when it starts no job.
use hugin_agent.Prelude.{
  ℕ, ◌≤◌, ◌≡◌, inl, inr, refl, sym, ap, ◌∙◌, String, true, some, List, get_elem?, set,
  get_elem?-set_self, get_elem?-set_ne, get_elem?-lt, Bool-cases, ◌==◌, arith,
}
use hugin_agent.Prelude.Map
use hugin_agent.Jobs.Types.{JobState}
use hugin_agent.Jobs.Registry
use hugin_agent.Jobs.Manager.{Manager, write_job, unregister}

-- A job stays the same attempt, stays fenced once it is, and never counts back.
pub record Keeps (st st' : JobState) : Type 0 where
  pub same_attempt : st'.attempt_id ≡ st.attempt_id
  pub stays_fenced : st.fenced ≡ true → st'.fenced ≡ true
  pub seq_le : st.seq ≤ st'.seq

abbrev pub KeepsJobs : List JobState → List JobState → Type 0
KeepsJobs h h' =
    (ref : ℕ) (st : JobState)
    → get_elem? h ref ≡ some st
    → (st' : JobState) × (get_elem? h' ref ≡ some st') × Keeps st st'

pub record Evolves (m m' : Manager) : Type 0 where
  pub jobs : KeepsJobs m.heap m'.heap
  pub subset :
      (id : String) (ref : ℕ)
      → Registry.get m'.registry id ≡ some ref
      → Registry.get m.registry id ≡ some ref
  pub size_le : Registry.size m'.registry ≤ Registry.size m.registry
  pub max_kept : m'.registry.max_concurrent ≡ m.registry.max_concurrent

pub Keeps-refl : (st : JobState) → Keeps st st
Keeps-refl st = record { same_attempt = refl; stays_fenced = λ f. f; seq_le = omega arith }

Keeps-trans : (a b c : JobState) → Keeps a b → Keeps b c → Keeps a c
Keeps-trans a b c k l = record {
  same_attempt = l.same_attempt ∙ k.same_attempt;
  stays_fenced = λ f. l.stays_fenced (k.stays_fenced f);
  seq_le = omega (arith, k.seq_le, l.seq_le);
}

pub KeepsJobs-trans : (a b c : List JobState) → KeepsJobs a b → KeepsJobs b c → KeepsJobs a c
KeepsJobs-trans a b c k l ref st at =
    let (st', at', k') = k ref st at in
    let (st'', at'', l') = l ref st' at' in (st'', at'', Keeps-trans st st' st'' k' l')

pub Evolves-same : (m m' : Manager) → m'.registry ≡ m.registry → m'.heap ≡ m.heap → Evolves m m'
Evolves-same m m' r h = record {
  jobs = λ ref st at. (st, ap (λ (js : List JobState). get_elem? js ref) h ∙ at, Keeps-refl st);
  subset = λ id ref e. ap (λ (x : Registry.Registry). Registry.get x id) (sym r) ∙ e;
  size_le = rw r (omega arith);
  max_kept = ap (λ (x : Registry.Registry). x.max_concurrent) r;
}

pub Evolves-trans : (a b c : Manager) → Evolves a b → Evolves b c → Evolves a c
Evolves-trans a b c e f = record {
  jobs = KeepsJobs-trans a.heap b.heap c.heap e.jobs f.jobs;
  subset = λ id ref h. e.subset id ref (f.subset id ref h);
  size_le = omega (arith, e.size_le, f.size_le);
  max_kept = f.max_kept ∙ e.max_kept;
}

KeepsJobs-set :
    (h : List JobState) (ref : ℕ) (st st' : JobState)
    → get_elem? h ref ≡ some st
    → Keeps st st'
    → KeepsJobs h (set h ref st')
KeepsJobs-set h ref st st' at k r s here = elim (Bool-cases (r == ref)) [
  | inl same ↦ (
    st',
    ground (arith, get_elem?-set_self h ref st' (get_elem?-lt h ref at), same),
    ground (arith, at, here, same, k),
  )
  | inr other ↦
      (s, ground (arith, get_elem?-set_ne h ref r st' (λ e. ground arith), here), Keeps-refl s)
]

write_job-Evolves :
    (ref : ℕ) (st st' : JobState) (m : Manager)
    → get_elem? m.heap ref ≡ some st
    → Keeps st st'
    → Evolves m (write_job ref st' m)
unfolding write_job
write_job-Evolves ref st st' m at k = record {
  jobs = KeepsJobs-set m.heap ref st st' at k;
  subset = λ id r h. h;
  size_le = omega arith;
  max_kept = refl;
}

unregister-Evolves : (id : String) (m : Manager) → Evolves m (unregister id m)
unfolding unregister Registry.get Registry.size
unregister-Evolves id m = record {
  jobs = λ ref st at. (st, at, Keeps-refl st);
  subset = λ j ref h. ground (arith, Map.get-remove m.registry.jobs id j);
  size_le = Map.size-remove-le m.registry.jobs id;
  max_kept = refl;
}

-- One job is rewritten.
pub Evolves-set :
    (m m' : Manager) (ref : ℕ) (st st' : JobState)
    → get_elem? m.heap ref ≡ some st
    → Keeps st st'
    → m'.heap ≡ set m.heap ref st'
    → m'.registry ≡ m.registry
    → Evolves m m'
Evolves-set m m' ref st st' at k h r =
    Evolves-trans m (write_job ref st' m) m' (write_job-Evolves ref st st' m at k)
      (Evolves-same (write_job ref st' m) m' (unfold write_job in r) (unfold write_job in h))

-- One attempt leaves the registry.
pub Evolves-drop :
    (m m' : Manager) (id : String)
    → m'.heap ≡ m.heap
    → m'.registry ≡ Registry.remove m.registry id
    → Evolves m m'
Evolves-drop m m' id h r =
    Evolves-trans m (unregister id m) m' (unregister-Evolves id m)
      (Evolves-same (unregister id m) m' (unfold unregister in r) (unfold unregister in h))
