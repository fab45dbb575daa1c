-- ===== src/Manager/Examples.antt =====
-- main with both certificates, and with the default flags.
use kubernetes_programming.Prelude.{codes, true, false, ℕ, ◌+◌, ◌∷◌, ◌++◌, some, ◌≡◌, refl, str_eq}
use kubernetes_programming.Manager.{
  Watcher, Heap, values, Flags, default_flags, ManagerOptions, Libraries, run_manager, start_up,
  main,
}
use kubernetes_programming.Manager.Options.{Watched, watched, wanted, webhook_sees, tls_served}
use kubernetes_programming.Manager.Plan.{Runs, whole_plan, main-Runs}

abbrev flags : Flags
flags = record default_flags { webhook_cert_path = codes "w"; metrics_cert_path = codes "m" }

-- The world counts the calls. Starting the manager fails.
abbrev libs : Libraries ℕ
libs = record {
  add_client_types = λ w. (true, w);
  add_registered = λ v ts w. (true, w);
  parse_flags = λ f. flags;
  growth = λ n. n;
  join = λ d f. d ++ b'/' ∷ f;
  new_watcher = λ c k w. (true, w + 1);
  new_manager = λ o h w. (true, w + 1);
  setup_controller = λ w. (true, w + 1);
  add = λ c w. (true, w + 1);
  add_healthz_check = λ n w. (true, w + 1);
  add_readyz_check = λ n w. (true, w + 1);
  start = λ w. (false, w + 1);
}

abbrev webhook : Watcher
webhook = record { cert_file = codes "w/tls.crt"; key_file = codes "w/tls.key" }

abbrev metrics : Watcher
metrics = record { cert_file = codes "m/tls.crt"; key_file = codes "m/tls.key" }

webhook-Watched :
    Watched libs flags.webhook_cert_path flags.webhook_cert_name flags.webhook_cert_key 0
      (some webhook)
      1
unfolding str_eq
webhook-Watched = watched refl refl

metrics-Watched :
    Watched libs flags.metrics_cert_path flags.metrics_cert_name flags.metrics_cert_key 1
      (some metrics)
      2
unfolding str_eq
metrics-Watched = watched refl refl

tls_served_example :
    (o : ManagerOptions) × (h : Heap) × (start_up libs flags 0
      ≡ run_manager libs o h (some webhook) (some metrics) 2)
    × (values h o.webhook_tls ≡ webhook_sees 1 false (some webhook) (some metrics))
    × (values h o.metrics_tls ≡ wanted false (some metrics))
    × (o.filter_provider ≡ true)
    × (o.secure_serving ≡ true)
tls_served_example = tls_served libs flags webhook-Watched metrics-Watched

main-Runs_example : Runs (whole_plan libs flags) 0 (main libs 0)
main-Runs_example = main-Runs libs 0
