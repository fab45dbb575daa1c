-- ===== src/Reports/Ats.antt =====
-- pkg/main.go.
use kubernetes_programming.Prelude.{
  Bytes, codes, ℕ, some, ◌+◌, List, [], ◌∷◌, ◌++◌, if◌then◌else◌, str_eq, length, not,
}
use kubernetes_programming.Api.{At}
use kubernetes_programming.Clientset.Rest.{RestTypes, Config, RestLib, Result, made, failed}
use kubernetes_programming.Clientset.Typed.{ats}
use kubernetes_programming.Clientset.Versioned.{Clientset, NewError, new_for_config}
use kubernetes_programming.Reports.{decimal, Run, fatal, ListFlags}

-- `join` stands for filepath.Join.
unfoldable pub get_default_kubeconfig : (List Bytes → Bytes) → Bytes → Bytes
get_default_kubeconfig join home =
    if not (str_eq home []) then join (home ∷ codes ".kube" ∷ codes "config" ∷ []) else []

-- `home` is the value of HOME.
unfoldable pub default_flags : (List Bytes → Bytes) → Bytes → ListFlags
unfolding get_default_kubeconfig
default_flags join home = record {
  kubeconfig = get_default_kubeconfig join home;
  namespace = codes "default";
}

-- What one round of the loop prints; `n` is i+1.
unfoldable pub print_at : ℕ → At → List Bytes
print_at n at =
    (decimal n ++ codes ". Name: " ++ at.meta.name ++ codes "\n")
    ∷ (codes "   Schedule: " ++ at.spec.schedule ++ codes "\n")
    ∷ (codes "   Command: " ++ at.spec.command ++ codes "\n")
    ∷ (if not (str_eq at.status.phase [])
        then (codes "   Phase: " ++ at.status.phase ++ codes "\n") ∷ codes "\n" ∷ []
        else codes "\n" ∷ [])

unfoldable pub print_ats : ℕ → List At → List Bytes → List Bytes
print_ats i [] out = out
print_ats i (at ∷ items) out = print_ats (i + 1) items (out ++ print_at (i + 1) at)

unfoldable pub show_ats : List At → List Bytes → List Bytes
unfolding print_ats
show_ats [] out = out ++ codes "No At resources found\n" ∷ []
show_ats (at ∷ items) out =
    print_ats 0 (at ∷ items)
      (out ++ (codes "Found " ++ decimal (length (at ∷ items)) ++ codes " At resource(s):\n") ∷ [])

-- clientcmd.BuildConfigFromFlags and the List of the Ats that a client is for.
pub record AtsLib (t : RestTypes) : Type 0 where
  pub build_config_from_flags : Bytes → Bytes → Result t.Error (Config t)
  pub list : t.AtClient → Result t.Error (List At)

module _ {t : RestTypes} (r : RestLib t) (lib : AtsLib t) where
  unfoldable pub after_list : Result t.Error (List At) → List Bytes → Run
  unfolding show_ats
  after_list (failed e) out = fatal out
  after_list (made items) out = record { output = show_ats items out; exit = 0 }

  unfoldable pub after_clientset : Bytes → Result (NewError t.Error) (Clientset t) → Run
  unfolding after_list
  after_clientset namespace (failed e) = fatal []
  after_clientset namespace (made client) =
      after_list (lib.list (ats r (some client.cnat_v1alpha1) namespace))
        ((codes "Fetching 'At' resources from namespace '" ++ namespace ++ codes "'...\n") ∷ [])

  unfoldable pub after_config : Bytes → t.World → Result t.Error (Config t) → Run
  unfolding after_clientset
  after_config namespace w (failed e) = fatal []
  after_config namespace w (made config) = after_clientset namespace (new_for_config r config w).0

  unfoldable pub main : (ListFlags → ListFlags) → (List Bytes → Bytes) → Bytes → t.World → Run
  unfolding after_config
  main parse join home w =
      let f = parse (default_flags join home) in
      after_config f.namespace w (lib.build_config_from_flags [] f.kubeconfig)
