-- ===== src/Reports/AtListing.antt =====
-- What the report on Ats prints, and how it exits.
use kubernetes_programming.Prelude.{
  Bytes, codes, some, refl, ℕ, ◌+◌, List, [], ◌∷◌, ◌++◌, append_assoc, append-nil, ◌≡◌, length, ◌∙◌,
  sym,
}
use kubernetes_programming.Api.{At}
use kubernetes_programming.Clientset.Rest.{RestTypes, Config, RestLib, Result, made, failed}
use kubernetes_programming.Clientset.Typed.{ats}
use kubernetes_programming.Clientset.Versioned.{Clientset, NewError, new_for_config}
use kubernetes_programming.Reports.{decimal, Run, ListFlags}
use kubernetes_programming.Reports.Ats
use kubernetes_programming.Reports.Ats.{default_flags, AtsLib, show_ats, print_at, print_ats}
use kubernetes_programming.Reports.Listing.{blocks}

print_ats-blocks :
    (i : ℕ) (ats : List At) (out : List Bytes)
    → print_ats i ats out ≡ out ++ blocks (λ n. print_at (n + 1)) i ats
unfolding print_ats blocks
print_ats-blocks i [] out = sym (append-nil out)
print_ats-blocks i (at ∷ ats) out = print_ats-blocks (i + 1) ats _ ∙ append_assoc out _ _

abbrev pub fetching_line : Bytes → Bytes
fetching_line namespace =
    codes "Fetching 'At' resources from namespace '" ++ namespace ++ codes "'...\n"

show_ats-blocks :
    (at : At) (items : List At) (l : Bytes)
    → show_ats (at ∷ items) (l ∷ [])
      ≡ l
        ∷ (codes "Found " ++ decimal (length (at ∷ items)) ++ codes " At resource(s):\n")
        ∷ blocks (λ n. print_at (n + 1)) 0 (at ∷ items)
unfolding show_ats
show_ats-blocks at items l =
    print_ats-blocks 0 (at ∷ items)
      (l ∷ (codes "Found " ++ decimal (length (at ∷ items)) ++ codes " At resource(s):\n") ∷ [])

show_ats-none : (l : Bytes) → show_ats [] (l ∷ []) ≡ l ∷ codes "No At resources found\n" ∷ []
unfolding show_ats
show_ats-none l = refl

module _ {t : RestTypes} (r : RestLib t) (lib : AtsLib t) where
  -- What the command prints, and its exit status.
  pub data AtReport (path namespace : Bytes) (w : t.World) : Run → Type 0 where
    no_config :
        {e : t.Error}
        → lib.build_config_from_flags [] path ≡ failed e
        → AtReport path namespace w (record { output = []; exit = 1 })
    no_clientset :
        {c : Config t} {e : NewError t.Error}
        → lib.build_config_from_flags [] path ≡ made c
        → (new_for_config r c w).0 ≡ failed e
        → AtReport path namespace w (record { output = []; exit = 1 })
    no_list :
        {c : Config t} {client : Clientset t} {e : t.Error}
        → lib.build_config_from_flags [] path ≡ made c
        → (new_for_config r c w).0 ≡ made client
        → lib.list (ats r (some client.cnat_v1alpha1) namespace) ≡ failed e
        → AtReport path namespace w (record { output = fetching_line namespace ∷ []; exit = 1 })
    no_ats :
        {c : Config t} {client : Clientset t}
        → lib.build_config_from_flags [] path ≡ made c
        → (new_for_config r c w).0 ≡ made client
        → lib.list (ats r (some client.cnat_v1alpha1) namespace) ≡ made []
        → AtReport path namespace w (record {
          output = fetching_line namespace ∷ codes "No At resources found\n" ∷ [];
          exit = 0;
        })
    some_ats :
        {c : Config t} {client : Clientset t} {at : At} {items : List At}
        → lib.build_config_from_flags [] path ≡ made c
        → (new_for_config r c w).0 ≡ made client
        → lib.list (ats r (some client.cnat_v1alpha1) namespace) ≡ made (at ∷ items)
        → AtReport path namespace w (record {
          output =
              fetching_line namespace
              ∷ (codes "Found " ++ decimal (length (at ∷ items)) ++ codes " At resource(s):\n")
              ∷ blocks (λ n. print_at (n + 1)) 0 (at ∷ items);
          exit = 0;
        })

  module _ (path namespace : Bytes) (w : t.World) (c : Config t)
      (built : lib.build_config_from_flags [] path ≡ made c) where
    after_list-AtReport :
        (client : Clientset t) (x : Result t.Error (List At))
        → (new_for_config r c w).0 ≡ made client
        → lib.list (ats r (some client.cnat_v1alpha1) namespace) ≡ x
        → AtReport path namespace w (Ats.after_list r lib x (fetching_line namespace ∷ []))
    unfolding Ats.after_list
    after_list-AtReport client (failed e) k h = no_list built k h
    after_list-AtReport client (made []) k h =
        rw (show_ats-none (fetching_line namespace)) (no_ats built k h)
    after_list-AtReport client (made (at ∷ items)) k h =
        rw (show_ats-blocks at items (fetching_line namespace)) (some_ats built k h)

    after_clientset-AtReport :
        (x : Result (NewError t.Error) (Clientset t))
        → (new_for_config r c w).0 ≡ x
        → AtReport path namespace w (Ats.after_clientset r lib namespace x)
    unfolding Ats.after_clientset
    after_clientset-AtReport (failed e) k = no_clientset built k
    after_clientset-AtReport (made client) k = after_list-AtReport client _ k refl

  after_config-AtReport :
      (path namespace : Bytes) (w : t.World) (x : Result t.Error (Config t))
      → lib.build_config_from_flags [] path ≡ x
      → AtReport path namespace w (Ats.after_config r lib namespace w x)
  unfolding Ats.after_config
  after_config-AtReport path namespace w (failed e) h = no_config h
  after_config-AtReport path namespace w (made c) h =
      after_clientset-AtReport path namespace w c h _ refl

  -- The command for Ats builds a configuration from its flag, whose default is getDefaultKubeconfig's,
  -- and a clientset, prints a line with the namespace of its flag and lists its Ats. It fails if one of
  -- these fails, having printed that line only if there is a clientset. Otherwise it succeeds, and says
  -- that there are no Ats, or gives their number and then the block of each At in the order of the
  -- list, numbered from 1.
  pub main-AtReport :
      (parse : ListFlags → ListFlags) (join : List Bytes → Bytes) (home : Bytes) (w : t.World)
      → let f = parse (default_flags join home) in
        AtReport f.kubeconfig f.namespace w (Ats.main r lib parse join home w)
  unfolding Ats.main
  main-AtReport parse join home w = after_config-AtReport _ _ w _ refl
