-- ===== src/TestUtils/Crds.antt =====
-- The CRD checks succeed exactly when a wanted CRD is listed.
use kubernetes_programming.Prelude.{
  Bytes, codes, Bool, true, List, [], ◌∷◌, ◌≡◌, ◌↔◌, ◌⊎◌, inl, inr, none, some, refl, arith, ◌||◌,
  Option,
}
use kubernetes_programming.Text.{contains}
use kubernetes_programming.TestUtils.{
  System, Finished, kubectl, any_line, any_crd, verdict, run, get_non_empty_lines, prometheus_crds,
  is_prometheus_crds_installed, cert_manager_crds, is_cert_manager_crds_installed,
}

-- An element of the list has the property.
pub data Some {A : Type 0} (P : A → Type 0) : List A → Type 0 where
  here : {x : A} {xs : List A} → P x → Some P (x ∷ xs)
  there : {x : A} {xs : List A} → Some P xs → Some P (x ∷ xs)

or_cases : (a b : Bool) → (a || b) ≡ true → (a ≡ true) ⊎ (b ≡ true)
or_cases a b h = ground arith

any_line→Some :
    (crd : Bytes) (lines : List Bytes)
    → any_line crd lines ≡ true
    → Some (λ line. contains line crd ≡ true) lines
unfolding any_line
any_line→Some crd [] h = cc
any_line→Some crd (line ∷ lines) h = elim (or_cases _ _ h) [
  | inl e ↦ here e
  | inr e ↦ there (any_line→Some crd lines e)
]

Some→any_line :
    (crd : Bytes) {lines : List Bytes}
    → Some (λ line. contains line crd ≡ true) lines
    → any_line crd lines ≡ true
unfolding any_line
Some→any_line crd (here e) = rw e
Some→any_line crd (there s) = ground (arith, Some→any_line crd s)

-- A line of the output holds a wanted name.
abbrev pub Listed : List Bytes → List Bytes → Type 0
Listed crds lines = Some (λ crd. Some (λ line. contains line crd ≡ true) lines) crds

any_crd→Listed : (crds lines : List Bytes) → any_crd crds lines ≡ true → Listed crds lines
unfolding any_crd
any_crd→Listed [] lines h = cc
any_crd→Listed (crd ∷ crds) lines h = elim (or_cases _ _ h) [
  | inl e ↦ here (any_line→Some crd lines e)
  | inr e ↦ there (any_crd→Listed crds lines e)
]

Listed→any_crd :
    (lines : List Bytes) {crds : List Bytes} → Listed crds lines → any_crd crds lines ≡ true
unfolding any_crd
Listed→any_crd lines (here {x} e) = rw (Some→any_line x e)
Listed→any_crd lines (there s) = ground (arith, Listed→any_crd lines s)

-- The command succeeded and its output lists a wanted name.
abbrev pub Shows : List Bytes → Finished → Type 0
Shows crds f = (f.error ≡ none) × Listed crds (get_non_empty_lines f.output)

verdict_iff :
    (crds : List Bytes) (e : Option Bytes) (output : Bytes)
    → (verdict crds e output ≡ true) ↔ ((e ≡ none) × Listed crds (get_non_empty_lines output))
unfolding verdict
verdict_iff crds (some e) output = (λ h. cc, λ h. cc (h.0))
verdict_iff crds none output = (λ h. (refl, any_crd→Listed crds _ h), λ h. Listed→any_crd _ h.1)

module _ {W : Type 0} (sys : System W) where
  -- The Prometheus CRDs count as installed exactly when `kubectl get crds` succeeds and one of the
  -- three names stands in a line of its output; and so for cert-manager with its six names.
  pub crds_installed_iff :
      (w : W)
      → (((is_prometheus_crds_installed sys w).0 ≡ true)
          ↔ Shows prometheus_crds
              (run sys
                (kubectl (
                  codes "get"
                  ∷ codes "crds"
                  ∷ codes "-o"
                  ∷ codes "custom-columns=NAME:.metadata.name"
                  ∷ []))
                w).0)
        × (((is_cert_manager_crds_installed sys w).0 ≡ true)
            ↔ Shows cert_manager_crds (run sys (kubectl (codes "get" ∷ codes "crds" ∷ [])) w).0)
  unfolding is_prometheus_crds_installed is_cert_manager_crds_installed
  crds_installed_iff w = (verdict_iff prometheus_crds _ _, verdict_iff cert_manager_crds _ _)
