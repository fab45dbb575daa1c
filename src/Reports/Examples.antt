-- ===== src/Reports/Examples.antt =====
-- Reports on one pod and one At.
use kubernetes_programming.Prelude.{Bytes, codes, ℕ, ◌+◌, List, [], ◌∷◌, ◌++◌, ◌≡◌, refl}
use kubernetes_programming.Prelude.Int.{ℤ, pos, negsuc, ◌+ℤ◌}
use kubernetes_programming.Clock.{Duration}
use kubernetes_programming.Api.{At, no_meta}
use kubernetes_programming.Kube.{Pod}
use kubernetes_programming.Clientset.Rest.{Result, made, failed}
use kubernetes_programming.Clientset.Examples.{types, lib, config}
use kubernetes_programming.Reports.{decimal, fatal, ListFlags}
use kubernetes_programming.Reports.Pods
use kubernetes_programming.Reports.Pods.{
  PodsLib, create_kubernetes_client, config_built, wrap32, get_total_restarts,
}
use kubernetes_programming.Reports.Ats
use kubernetes_programming.Reports.Ats.{AtsLib}
use kubernetes_programming.Reports.Totals.{sum, restarts_total}
use kubernetes_programming.Reports.Listing.{PodReport, main-PodReport}
use kubernetes_programming.Reports.AtListing.{AtReport, main-AtReport}

-- Two counts whose sum is past the range of an int32.
abbrev large : List ℤ
large = pos 2_147_483_647 ∷ pos 5 ∷ []

restarts_total_example : get_total_restarts large ≡ wrap32 (sum large)
restarts_total_example = restarts_total large

restarts_wrap : get_total_restarts large ≡ negsuc 2_147_483_643
unfolding get_total_restarts wrap32 ◌+ℤ◌
restarts_wrap = refl

abbrev small : List ℤ
small = pos 3 ∷ pos 4 ∷ []

abbrev pod : Pod
pod = record {
  meta = record no_meta { name = codes "web"; namespace = codes "d" };
  containers = [];
  restart_policy = codes "Always";
  node_name = codes "node";
  phase = codes "Running";
  pod_ip = [];
  restart_counts = small;
  creation_timestamp = 1_000;
}

-- Five seconds and a half after its creation.
abbrev later : ℕ
later = 5_500_001_000

abbrev show_int : ℤ → Bytes
show_int (pos n) = decimal n
show_int (negsuc n) = b'-' ∷ decimal (n + 1)

abbrev show_duration : Duration → Bytes
show_duration d = show_int d ++ codes "ns"

-- The configuration is the path, which may not be empty, and so is the client.
abbrev unless_empty : Bytes → Result Bytes Bytes
unless_empty [] = failed (codes "no configuration")
unless_empty (x ∷ xs) = made (x ∷ xs)

abbrev pods_lib : PodsLib Bytes Bytes Bytes
pods_lib = record {
  build_config_from_flags = λ url path. unless_empty path;
  new_for_config = λ c. made c;
  list = λ c ns. made (pod ∷ []);
}

abbrev given : ListFlags → ListFlags
given f = record f { kubeconfig = codes "/config" }

main-PodReport_example :
    PodReport show_int show_duration pods_lib
      (codes "/config")
      []
      later
      (Pods.main show_int show_duration pods_lib given later)
main-PodReport_example = main-PodReport show_int show_duration pods_lib given later

no_path :
    Pods.main show_int show_duration pods_lib (λ f. record f { kubeconfig = [] }) later ≡ fatal []
unfolding Pods.main create_kubernetes_client config_built Pods.after_client
no_path = refl

abbrev at : At
at = record {
  type_meta = record { kind = codes "At"; api_version = codes "v" };
  meta = record no_meta { name = codes "a"; namespace = codes "d" };
  spec = record { schedule = codes "2019-07-03T02:00:00Z"; command = codes "echo hi" };
  status = record { phase = [] };
}

abbrev ats_lib : AtsLib types
ats_lib = record {
  build_config_from_flags = λ url path. made (config (pos 10) []);
  list = λ c. made (at ∷ []);
}

main-AtReport_example :
    AtReport lib ats_lib
      (codes "/config")
      (codes "default")
      0
      (Ats.main lib ats_lib given (λ parts. codes "joined") (codes "/home") 0)
unfolding Ats.default_flags
main-AtReport_example = main-AtReport lib ats_lib given (λ parts. codes "joined") (codes "/home") 0
