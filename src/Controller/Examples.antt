-- ===== src/Controller/Examples.antt =====
-- Runs of the client-go controller on a cluster in memory.
mod Syncs
mod Runs
mod Ways
mod Lives
mod Stops
mod Events
mod News
mod Queues
mod Rounds
use kubernetes_programming.Prelude.{
  Bytes, codes, [], ◌∷◌, Option, none, some, ◌≡◌, refl, ap, ◌+◌, ◌*◌, str_eq,
}
use kubernetes_programming.Clock.{Instant, second}
use kubernetes_programming.Api.{At, no_meta, phase_running}
use kubernetes_programming.Kube.{Pod, ok}
use kubernetes_programming.Kube.Memory.{
  Memory, memory, machinery, put, find_at, create_result-cached, update_result-cached,
}
use kubernetes_programming.Text.{split}
use kubernetes_programming.Controller.{owned_pod, sync_handler}
use kubernetes_programming.Kube.Laws.{KeepsCache}

abbrev pub ns : Bytes
ns = codes "d"

abbrev pub n : Bytes
n = codes "a"

abbrev pub key : Bytes
key = codes "d/a"

abbrev pub moment : Bytes
moment = codes "2019-07-03T02:00:00Z"

-- That instant.
abbrev pub due : Instant
due = (62_167_219_200 + 1_562_119_200) * second

abbrev pub early : Instant
early = (62_167_219_200 + 1_562_119_190) * second

abbrev pub sample : Bytes → At
sample phase = record {
  type_meta = record { kind = codes "At"; api_version = codes "v" };
  meta = record no_meta { name = n; namespace = ns };
  spec = record { schedule = moment; command = codes "echo hi" };
  status = record { phase = phase };
}

abbrev pub no_pods : Bytes → Bytes → Option Pod
no_pods a b = none

abbrev pub sched : Bytes → Bytes → Bytes
sched a b = moment

-- The At is stored and listed with the phase.
abbrev pub world : Bytes → (Bytes → Bytes → Option Pod) → Memory
world phase pods = record {
  phases = put (λ a b. none) ns n phase;
  pods = pods;
  cached = sample phase ∷ [];
}

-- The pod that a sync creates, and that pod when it has ended.
abbrev pub fresh_pod : Pod
fresh_pod = owned_pod machinery (sample phase_running)

abbrev pub ended_pod : Pod
ended_pod = record fresh_pod { phase = codes "Succeeded" }

abbrev pub ended_world : Memory
ended_world = world phase_running (put no_pods ns (codes "a-pod") ended_pod)

abbrev pub sync : Instant → Memory → Memory
sync now w = (sync_handler machinery memory now key w).1

pub memory-KeepsCache : KeepsCache memory
memory-KeepsCache = record {
  get = λ a b w c d. refl;
  create = λ p w a b. ap (λ l. find_at l a b) (create_result-cached p _ w);
  update = λ at w a b. ap (λ l. find_at l a b) (update_result-cached at _ w);
}

pub key-splits : machinery.split_key key ≡ some (ns, n)
unfolding split
key-splits = refl

pub sample-listed :
    (phase : Bytes) (pods : Bytes → Bytes → Option Pod)
    → memory.lister_get ns n (world phase pods) ≡ ok (sample phase)
unfolding find_at str_eq
sample-listed phase pods = refl
