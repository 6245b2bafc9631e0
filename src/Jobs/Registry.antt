-- ===== src/Jobs/Registry.antt =====
-- The live-job registry: src/jobs/registry.ts, and the lease test of src/jobs/lease.ts. A job is a
-- mutable object that callbacks hold on to, so the map goes to references into the manager's heap.
use hugin_agent.Prelude.{ℕ, String, Bool, Option, List, map, leb, str_eq}
use hugin_agent.Prelude.Map
use hugin_agent.Prelude.Map.{Map}

pub record Registry : Type 0 where
  pub jobs : Map ℕ
  pub max_concurrent : ℕ

unfoldable pub get : Registry → String → Option ℕ
get r id = Map.get r.jobs id

unfoldable pub has : Registry → String → Bool
has r id = Map.has r.jobs id

-- `this.jobs.set(state.attempt_id, state)`, with the state's id and reference.
unfoldable pub add : Registry → String → ℕ → Registry
add r id ref = record r { jobs = Map.set r.jobs id ref }

unfoldable pub remove : Registry → String → Registry
remove r id = record r { jobs = Map.remove r.jobs id }

unfoldable pub size : Registry → ℕ
size r = Map.size r.jobs

unfoldable pub at_capacity : Registry → Bool
unfolding size
at_capacity r = leb r.max_concurrent (size r)

unfoldable pub all : Registry → List ℕ
all r = map (λ e. e.1) r.jobs

unfoldable pub lease_matches : String → String → Bool
lease_matches current incoming = str_eq current incoming
