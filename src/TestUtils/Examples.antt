-- ===== src/TestUtils/Examples.antt =====
-- The helpers on a system that answers every command alike, and on files that are all the same.
use kubernetes_programming.Prelude.{
  length, Bytes, codes, true, false, [], ◌∷◌, ◌++◌, none, some, ◌≡◌, ◌↔◌, refl,
}
use kubernetes_programming.Text.{split, index, has_prefix, scan_lines}
use kubernetes_programming.TestUtils.{
  System, kubectl, run, prometheus_crds, cert_manager_crds, is_prometheus_crds_installed,
  is_cert_manager_crds_installed,
}
use kubernetes_programming.TestUtils.Crds.{Shows, crds_installed_iff}
use kubernetes_programming.Text.Index.{NoneBefore}
use kubernetes_programming.TestUtils.Uncomment.{
  Files, write_back, uncomment_code, without_prefix, uncomments,
}

-- The world is what every command prints.
abbrev sys : System Bytes
sys = record {
  combined_output = λ c w. (record { output = w; error = none }, w);
  getwd = λ w. (codes "/repo", false);
  chdir = λ d w. w;
  environ = λ w. [];
  lookup_env = λ name w. none;
  drop_all = λ s t. s;
}

abbrev listing : Bytes
listing = codes "NAME\nissuers.cert-manager.io 2024\n\n"

crds_installed_iff_example :
    (((is_prometheus_crds_installed sys listing).0 ≡ true)
      ↔ Shows prometheus_crds
          (run sys
            (kubectl (
              codes "get"
              ∷ codes "crds"
              ∷ codes "-o"
              ∷ codes "custom-columns=NAME:.metadata.name"
              ∷ []))
            listing).0)
    × (((is_cert_manager_crds_installed sys listing).0 ≡ true)
        ↔ Shows cert_manager_crds (run sys (kubectl (codes "get" ∷ codes "crds" ∷ [])) listing).0)
crds_installed_iff_example = crds_installed_iff sys listing

-- The world is the content of the one file.
abbrev files : Files Bytes
files = record { read = λ name w. some w; write = λ name s w. (none, s) }

abbrev content : Bytes
content = codes "a\n#- b\n#- c\nd"

abbrev target : Bytes
target = codes "#- b\n#- c"

target_found : index content target ≡ some 2
unfolding index has_prefix
target_found = refl

target_lines : scan_lines target ≡ codes "#- b" ∷ codes "#- c" ∷ []
unfolding scan_lines split
target_lines = refl

uncomments_example :
    (before after : Bytes) × (content ≡ before ++ (target ++ after))
    × NoneBefore (length before) content target
    × (uncomment_code files (codes "f") target (codes "#") content
        ≡ write_back files (codes "f") (
            files.write
              (codes "f")
              (before ++ without_prefix (codes "#") (codes "#- b" ∷ codes "#- c" ∷ []) ++ after)
              content))
uncomments_example =
    uncomments files (codes "f") target (codes "#") content (codes "#- b") (codes "#- c" ∷ []) 2
      content refl target_found target_lines
