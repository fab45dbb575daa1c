-- ===== src/Reports/Pods.antt =====
-- main.go.
use kubernetes_programming.Prelude.{
  Bytes, codes, ℕ, ◌-◌, ◌%◌, ◌^◌, List, [], ◌∷◌, ◌++◌, ltb, if◌then◌else◌, str_eq, length, not,
}
use kubernetes_programming.Prelude.Int.{ℤ, pos, negsuc, ◌+ℤ◌}
use kubernetes_programming.Clock.{Instant, Duration, sub, truncate, second}
use kubernetes_programming.Kube.{Pod}
use kubernetes_programming.Clientset.Rest.{Result, made, failed}
use kubernetes_programming.Reports.{decimal, Run, fatal, ListFlags}

-- An int32 is the integer that it stands for; arithmetic wraps.
abbrev pub u32_mod : ℕ
u32_mod = 2 ^ 32

abbrev pub from_u32 : ℕ → ℤ
from_u32 u = if ltb u (2 ^ 31) then pos u else negsuc (u32_mod - u - 1)

unfoldable pub wrap32 : ℤ → ℤ
wrap32 (pos n) = from_u32 (n % u32_mod)
wrap32 (negsuc n) = from_u32 (u32_mod - 1 - n % u32_mod)

unfoldable pub total_from : ℤ → List ℤ → ℤ
total_from total [] = total
total_from total (c ∷ cs) = total_from (wrap32 (total +ℤ c)) cs

unfoldable pub get_total_restarts : List ℤ → ℤ
unfolding total_from
get_total_restarts statuses = total_from (pos 0) statuses

pub record PodInfo : Type 0 where
  pub name : Bytes
  pub namespace : Bytes
  pub node_name : Bytes
  pub phase : Bytes
  pub pod_ip : Bytes
  pub restarts : ℤ
  pub age : Duration
  pub created_at : Instant

unfoldable pub extract_pod_info : Pod → Instant → PodInfo
unfolding get_total_restarts
extract_pod_info pod now = record {
  name = pod.meta.name;
  namespace = pod.meta.namespace;
  node_name = pod.node_name;
  phase = pod.phase;
  pod_ip = pod.pod_ip;
  restarts = get_total_restarts pod.restart_counts;
  age = truncate (sub now pod.creation_timestamp) second;
  created_at = pod.creation_timestamp;
}

abbrev line : Bytes → Bytes → Bytes
line label text = label ++ text ++ b'\n' ∷ []

abbrev pub default_flags : ListFlags
default_flags = record { kubeconfig = codes "/Users/viskumar/.kube/config"; namespace = [] }

-- clientcmd.BuildConfigFromFlags, kubernetes.NewForConfig, and the List of the pods of a namespace.
pub record PodsLib (C K E : Type 0) : Type 0 where
  pub build_config_from_flags : Bytes → Bytes → Result E C
  pub new_for_config : C → Result E K
  pub list : K → Bytes → Result E (List Pod)

pub data ClientError (E : Type 0) : Type 0 where
  config_failed : E → ClientError E
  client_failed : E → ClientError E

module _ {C K E : Type 0} (lib : PodsLib C K E) where
  unfoldable pub client_made : Result E K → Result (ClientError E) K
  client_made (failed e) = failed (client_failed e)
  client_made (made client) = made client

  unfoldable pub config_built : Result E C → Result (ClientError E) K
  unfolding client_made
  config_built (failed e) = failed (config_failed e)
  config_built (made config) = client_made (lib.new_for_config config)

  unfoldable pub create_kubernetes_client : Bytes → Result (ClientError E) K
  unfolding config_built
  create_kubernetes_client path = config_built (lib.build_config_from_flags [] path)

pub no_pods_line : Bytes → Bytes
no_pods_line namespace =
    if not (str_eq namespace [])
    then codes "No pods found in namespace '" ++ namespace ++ codes "'\n"
    else codes "No pods found in the cluster\n"

-- %d and Duration.String are the standard library's.
module _ (show_int : ℤ → Bytes) (show_duration : Duration → Bytes) where
  unfoldable pub print_pod_info : PodInfo → List Bytes
  print_pod_info info =
      line (codes "Pod: ") info.name
      ∷ line (codes "  Namespace: ") info.namespace
      ∷ (if not (str_eq info.node_name [])
          then line (codes "  Node: ") info.node_name
          else codes "  Node: <unscheduled>\n")
      ∷ line (codes "  Phase: ") info.phase
      ∷ (if not (str_eq info.pod_ip [])
          then line (codes "  IP: ") info.pod_ip
          else codes "  IP: <none>\n")
      ∷ line (codes "  Restarts: ") (show_int info.restarts)
      ∷ line (codes "  Age: ") (show_duration info.age ++ b'\n' ∷ [])
      ∷ []

  unfoldable pub print_all : List Pod → Instant → List Bytes → List Bytes
  print_all [] now out = out
  print_all (pod ∷ pods) now out =
      print_all pods now (out ++ print_pod_info (extract_pod_info pod now))

  pub total_line : ℕ → Bytes → Bytes
  total_line n namespace =
      if not (str_eq namespace [])
      then codes "Total: " ++ decimal n ++ codes " pods in namespace '" ++ namespace ++ codes "'\n"
      else codes "Total: " ++ decimal n ++ codes " pods across all namespaces\n"

  unfoldable pub list_pods : List Pod → Bytes → Instant → Run
  list_pods [] namespace now = record { output = no_pods_line namespace ∷ []; exit = 0 }
  list_pods (pod ∷ pods) namespace now = record {
    output =
        print_all (pod ∷ pods) now
          ((codes "Found " ++ decimal (length (pod ∷ pods)) ++ codes " pods:\n\n") ∷ [])
        ++ total_line (length (pod ∷ pods)) namespace ∷ [];
    exit = 0;
  }

  module _ {C K E : Type 0} (lib : PodsLib C K E) where
    unfoldable pub after_list : Result E (List Pod) → Bytes → Instant → Run
    unfolding list_pods
    after_list (failed e) namespace now = fatal []
    after_list (made pods) namespace now = list_pods pods namespace now

    unfoldable pub after_client : Result (ClientError E) K → Bytes → Instant → Run
    unfolding after_list
    after_client (failed e) namespace now = fatal []
    after_client (made client) namespace now = after_list (lib.list client namespace) namespace now

    -- `now` is the time when the pods have been listed.
    unfoldable pub main : (ListFlags → ListFlags) → Instant → Run
    unfolding after_client after_list list_pods create_kubernetes_client
    main parse now =
        let f = parse default_flags in
        after_client (create_kubernetes_client lib f.kubeconfig) f.namespace now
