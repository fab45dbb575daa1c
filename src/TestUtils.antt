-- ===== src/TestUtils.antt =====
-- cnat-kubebuilder/test/utils/utils.go: the helpers of the end-to-end tests. Processes, the working
-- directory, the environment and files are an interface over an unknown world.
pub mod Lines
pub mod Crds
pub mod Uncomment
mod Examples
use kubernetes_programming.Prelude.{
  Bytes, codes, Bool, true, false, List, [], ◌∷◌, ◌++◌, Option, none, some, ◌||◌, not,
  if◌then◌else◌, str_eq,
}
use kubernetes_programming.Text.{split, join, contains}

-- exec.Cmd: the arguments, the directory and the environment.
pub record Command : Type 0 where
  pub args : List Bytes
  pub dir : Bytes
  pub env : List Bytes

-- What a command printed, and its error.
pub record Finished : Type 0 where
  pub output : Bytes
  pub error : Option Bytes

pub record System (W : Type 0) : Type 0 where
  pub combined_output : Command → W → Finished × W
  -- os.Getwd; the directory is empty if there is an error
  pub getwd : W → Bytes × Bool
  pub chdir : Bytes → W → W
  pub environ : W → List Bytes
  pub lookup_env : Bytes → W → Option Bytes
  -- strings.Replace(wd, "/test/e2e", "", -1)
  pub drop_all : Bytes → Bytes → Bytes

-- GetNonEmptyLines.
keep_non_empty : List Bytes → List Bytes → List Bytes
keep_non_empty [] res = res
keep_non_empty (e ∷ es) res = keep_non_empty es (if not (str_eq e []) then res ++ e ∷ [] else res)

unfoldable pub get_non_empty_lines : Bytes → List Bytes
unfolding keep_non_empty
get_non_empty_lines output = keep_non_empty (split output b'\n') []

-- The nested loops over the wanted CRDs and the lines of the output.
any_line : Bytes → List Bytes → Bool
any_line crd [] = false
any_line crd (line ∷ lines) = contains line crd || any_line crd lines

unfoldable pub any_crd : List Bytes → List Bytes → Bool
unfolding any_line
any_crd [] lines = false
any_crd (crd ∷ crds) lines = any_line crd lines || any_crd crds lines

abbrev pub prometheus_crds : List Bytes
prometheus_crds =
    codes "prometheuses.monitoring.coreos.com"
    ∷ codes "prometheusrules.monitoring.coreos.com"
    ∷ codes "prometheusagents.monitoring.coreos.com"
    ∷ []

abbrev pub cert_manager_crds : List Bytes
cert_manager_crds =
    codes "certificates.cert-manager.io"
    ∷ codes "issuers.cert-manager.io"
    ∷ codes "clusterissuers.cert-manager.io"
    ∷ codes "certificaterequests.cert-manager.io"
    ∷ codes "orders.acme.cert-manager.io"
    ∷ codes "challenges.acme.cert-manager.io"
    ∷ []

abbrev pub prometheus_operator_url : Bytes
prometheus_operator_url =
    codes
      "https://github.com/prometheus-operator/prometheus-operator/releases/download/v0.77.1/bundle.yaml"

abbrev pub certmanager_url : Bytes
certmanager_url =
    codes "https://github.com/cert-manager/cert-manager/releases/download/v1.16.3/cert-manager.yaml"

abbrev pub kubectl : List Bytes → List Bytes
kubectl args = codes "kubectl" ∷ args

-- What is concluded from the error and the output of the listing.
verdict : List Bytes → Option Bytes → Bytes → Bool
verdict crds (some _) output = false
verdict crds none output = any_crd crds (get_non_empty_lines output)

module _ {W : Type 0} (sys : System W) where
  -- GetProjectDir; the error is given beside the directory.
  unfoldable pub get_project_dir : W → Bytes × Bool
  get_project_dir w =
      let (wd, failed) = sys.getwd w in
      if failed then (wd, true) else (sys.drop_all wd (codes "/test/e2e"), false)

  failed_message : Bytes → Finished → Option Bytes
  failed_message command f = elim f.error [
    | none ↦ none
    | some e ↦ some (command ++ codes " failed with error: (" ++ e ++ codes ") " ++ f.output)
  ]

  -- Run: an error of GetProjectDir is dropped and one of Chdir is only printed.
  unfoldable pub run : List Bytes → W → Finished × W
  unfolding get_project_dir failed_message
  run args w =
      let dir = (get_project_dir w).0 in
      let moved = sys.chdir dir w in
      let (f, w') =
        sys.combined_output
          (record {
            args = args;
            dir = dir;
            env = sys.environ moved ++ codes "GO111MODULE=on" ∷ [];
          })
          moved in
      (record { output = f.output; error = failed_message (join args b' ') f }, w')

  unfoldable pub install_prometheus_operator : W → Option Bytes × W
  install_prometheus_operator w =
      let (f, w') = run (kubectl (codes "create" ∷ codes "-f" ∷ prometheus_operator_url ∷ [])) w in
      (f.error, w')

  -- The error is only printed as a warning.
  unfoldable pub uninstall_prometheus_operator : W → W
  uninstall_prometheus_operator w =
      (run (kubectl (codes "delete" ∷ codes "-f" ∷ prometheus_operator_url ∷ [])) w).1

  found : List Bytes → Finished × W → Bool × W
  unfolding verdict
  found crds (f, w) = (verdict crds f.error f.output, w)

  unfoldable pub is_prometheus_crds_installed : W → Bool × W
  unfolding found
  is_prometheus_crds_installed w = found prometheus_crds (
      run
        (kubectl (
          codes "get"
          ∷ codes "crds"
          ∷ codes "-o"
          ∷ codes "custom-columns=NAME:.metadata.name"
          ∷ []))
        w)

  unfoldable pub uninstall_cert_manager : W → W
  uninstall_cert_manager w =
      (run (kubectl (codes "delete" ∷ codes "-f" ∷ certmanager_url ∷ [])) w).1

  wait_for_webhook : Finished × W → Option Bytes × W
  wait_for_webhook (f, w) = elim f.error [
    | some e ↦ (some e, w)
    | none ↦
        let (g, w') =
          run
            (kubectl (
              codes "wait"
              ∷ codes "deployment.apps/cert-manager-webhook"
              ∷ codes "--for"
              ∷ codes "condition=Available"
              ∷ codes "--namespace"
              ∷ codes "cert-manager"
              ∷ codes "--timeout"
              ∷ codes "5m"
              ∷ []))
            w in
        (g.error, w')
  ]

  unfoldable pub install_cert_manager : W → Option Bytes × W
  unfolding wait_for_webhook
  install_cert_manager w =
      wait_for_webhook (run (kubectl (codes "apply" ∷ codes "-f" ∷ certmanager_url ∷ [])) w)

  unfoldable pub is_cert_manager_crds_installed : W → Bool × W
  unfolding found
  is_cert_manager_crds_installed w =
      found cert_manager_crds (run (kubectl (codes "get" ∷ codes "crds" ∷ [])) w)

  cluster_name : Option Bytes → Bytes
  cluster_name none = codes "kind"
  cluster_name (some v) = v

  unfoldable pub load_image_to_kind_cluster_with_name : Bytes → W → Option Bytes × W
  unfolding cluster_name
  load_image_to_kind_cluster_with_name name w =
      let (f, w') =
        run
          (codes "kind"
            ∷ codes "load"
            ∷ codes "docker-image"
            ∷ name
            ∷ codes "--name"
            ∷ cluster_name (sys.lookup_env (codes "KIND_CLUSTER") w)
            ∷ [])
          w in
      (f.error, w')
