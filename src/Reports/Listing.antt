-- ===== src/Reports/Listing.antt =====
-- What the report on pods prints, and how it exits.
use kubernetes_programming.Prelude.{
  Bytes, codes, refl, ℕ, ◌+◌, List, [], ◌∷◌, ◌++◌, append_assoc, append-nil, ◌≡◌, length, ◌∙◌, sym,
}
use kubernetes_programming.Prelude.Int.{ℤ}
use kubernetes_programming.Clock.{Instant, Duration}
use kubernetes_programming.Kube.{Pod}
use kubernetes_programming.Clientset.Rest.{Result, made, failed}
use kubernetes_programming.Reports.{decimal, Run, ListFlags}
use kubernetes_programming.Reports.Pods
use kubernetes_programming.Reports.Pods.{
  default_flags, PodsLib, client_made, config_built, create_kubernetes_client, list_pods,
  no_pods_line, extract_pod_info, print_pod_info, print_all, total_line,
}

-- One block of lines for each element, `f` being given its position.
unfoldable pub blocks : {A : Type 0} → (ℕ → A → List Bytes) → ℕ → List A → List Bytes
blocks f n [] = []
blocks f n (x ∷ xs) = f n x ++ blocks f (n + 1) xs

module _ (show_int : ℤ → Bytes) (show_duration : Duration → Bytes) where
  abbrev pub pod_block : Instant → ℕ → Pod → List Bytes
  pod_block now _ pod = print_pod_info show_int show_duration (extract_pod_info pod now)

  print_all-blocks :
      (pods : List Pod) (now : Instant) (n : ℕ) (out : List Bytes)
      → print_all show_int show_duration pods now out ≡ out ++ blocks (pod_block now) n pods
  unfolding print_all blocks
  print_all-blocks [] now n out = sym (append-nil out)
  print_all-blocks (pod ∷ pods) now n out =
      print_all-blocks pods now (n + 1) _ ∙ append_assoc out _ _

  abbrev pub found_line : ℕ → Bytes
  found_line n = codes "Found " ++ decimal n ++ codes " pods:\n\n"

  list_pods-blocks :
      (pod : Pod) (pods : List Pod) (namespace : Bytes) (now : Instant)
      → list_pods show_int show_duration (pod ∷ pods) namespace now ≡ record {
        output =
            found_line (length (pod ∷ pods)) ∷ blocks (pod_block now) 0 (pod ∷ pods)
            ++ total_line show_int show_duration (length (pod ∷ pods)) namespace ∷ [];
        exit = 0;
      }
  unfolding list_pods
  list_pods-blocks pod pods namespace now = λ i. record {
    output =
        print_all-blocks (pod ∷ pods) now 0 (found_line (length (pod ∷ pods)) ∷ []) i
        ++ total_line show_int show_duration (length (pod ∷ pods)) namespace ∷ [];
    exit = 0;
  }

  list_pods-none :
      (namespace : Bytes) (now : Instant)
      → list_pods show_int show_duration [] namespace now
        ≡ record { output = no_pods_line namespace ∷ []; exit = 0 }
  unfolding list_pods
  list_pods-none namespace now = refl

  module _ {C K E : Type 0} (lib : PodsLib C K E) where
    -- What the command prints, and its exit status.
    pub data PodReport (path namespace : Bytes) (now : Instant) : Run → Type 0 where
      no_config :
          {e : E}
          → lib.build_config_from_flags [] path ≡ failed e
          → PodReport path namespace now (record { output = []; exit = 1 })
      no_client :
          {c : C} {e : E}
          → lib.build_config_from_flags [] path ≡ made c
          → lib.new_for_config c ≡ failed e
          → PodReport path namespace now (record { output = []; exit = 1 })
      no_list :
          {c : C} {client : K} {e : E}
          → lib.build_config_from_flags [] path ≡ made c
          → lib.new_for_config c ≡ made client
          → lib.list client namespace ≡ failed e
          → PodReport path namespace now (record { output = []; exit = 1 })
      no_pods :
          {c : C} {client : K}
          → lib.build_config_from_flags [] path ≡ made c
          → lib.new_for_config c ≡ made client
          → lib.list client namespace ≡ made []
          → PodReport path namespace now (record { output = no_pods_line namespace ∷ []; exit = 0 })
      some_pods :
          {c : C} {client : K} {pod : Pod} {pods : List Pod}
          → lib.build_config_from_flags [] path ≡ made c
          → lib.new_for_config c ≡ made client
          → lib.list client namespace ≡ made (pod ∷ pods)
          → PodReport path namespace now (record {
            output =
                found_line (length (pod ∷ pods)) ∷ blocks (pod_block now) 0 (pod ∷ pods)
                ++ total_line show_int show_duration (length (pod ∷ pods)) namespace ∷ [];
            exit = 0;
          })

    module _ (path namespace : Bytes) (now : Instant) (c : C)
        (built : lib.build_config_from_flags [] path ≡ made c) where
      after_list-PodReport :
          (client : K) (x : Result E (List Pod))
          → lib.new_for_config c ≡ made client
          → lib.list client namespace ≡ x
          → PodReport path namespace now
              (Pods.after_list show_int show_duration lib x namespace now)
      unfolding Pods.after_list
      after_list-PodReport client (failed e) k h = no_list built k h
      after_list-PodReport client (made []) k h =
          rw (list_pods-none namespace now) (no_pods built k h)
      after_list-PodReport client (made (pod ∷ pods)) k h =
          rw (list_pods-blocks pod pods namespace now) (some_pods built k h)

      after_client-PodReport :
          (x : Result E K)
          → lib.new_for_config c ≡ x
          → PodReport path namespace now
              (Pods.after_client show_int show_duration lib (client_made lib x) namespace now)
      unfolding Pods.after_client client_made
      after_client-PodReport (failed e) k = no_client built k
      after_client-PodReport (made client) k = after_list-PodReport client _ k refl

    after_config-PodReport :
        (path namespace : Bytes) (now : Instant) (x : Result E C)
        → lib.build_config_from_flags [] path ≡ x
        → PodReport path namespace now
            (Pods.after_client show_int show_duration lib (config_built lib x) namespace now)
    unfolding Pods.after_client config_built
    after_config-PodReport path namespace now (failed e) h = no_config h
    after_config-PodReport path namespace now (made c) h =
        after_client-PodReport path namespace now c h _ refl

    -- The command for pods builds a configuration from its flag and a client and lists the pods of the
    -- namespace of its flag. It prints nothing and fails if one of these fails; it prints one line and
    -- succeeds if there are no pods; and otherwise it prints a line with their number, then the block
    -- of each pod in the order of the list, then the line with the total, and succeeds.
    pub main-PodReport :
        (parse : ListFlags → ListFlags) (now : Instant)
        → let f = parse default_flags in
          PodReport f.kubeconfig f.namespace now (Pods.main show_int show_duration lib parse now)
    unfolding Pods.main create_kubernetes_client
    main-PodReport parse now = after_config-PodReport _ _ now _ refl
