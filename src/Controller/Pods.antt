-- ===== src/Controller/Pods.antt =====
-- What one call of `syncHandler` may do to the stored pods.
use kubernetes_programming.Prelude.{
  Bytes, some, none, ◌≡◌, ◌⊎◌, inl, inr, refl, ◌∙◌, subst, Bool-cases, Option,
}
use kubernetes_programming.Clock.{Instant}
use kubernetes_programming.Api.{
  At, PhaseCase, pending, running, done, other, phase_case, deep_equal,
}
use kubernetes_programming.Kube.{
  Pod, not_found, failure, Result, Result-cases, ok, err, Machinery, Cluster,
}
use kubernetes_programming.Kube.Laws.{View, IsServer, SamePods, same_key, same_key→eq}
use kubernetes_programming.Controller.{
  Flow, leave, fall, owned_pod, default_phase, running_case, after_get, after_create, switch,
  updated, save, sync_at, from_lister, from_key, sync_handler,
}
use kubernetes_programming.Controller.Edges.{pod_namespace, pod_name}

module _ {W : Type 0} (m : Machinery) (k : Cluster W) (v : View W) (s : IsServer k v) where
  -- The pod of `at` was missing and is there now.
  abbrev pub Launches : At → W → W → Bytes → Bytes → Type 0
  Launches at w w' ns n =
      (phase_case (default_phase at).status.phase ≡ running)
      × (pod_namespace m at ≡ ns)
      × (pod_name m at ≡ n)
      × (v.pod_of w ns n ≡ none)
      × ((p : Pod) × (v.pod_of w' ns n ≡ some p))

  abbrev PodMoves : At → W → W → Type 0
  PodMoves at w w' = (ns n : Bytes) → (v.pod_of w' ns n ≡ v.pod_of w ns n) ⊎ Launches at w w' ns n

  after_create-pods :
      (at : At) (w w' : W)
      → SamePods v w w'
      → phase_case (default_phase at).status.phase ≡ running
      → v.pod_of w (pod_namespace m at) (pod_name m at) ≡ none
      → PodMoves at w (k.create_pod (owned_pod m (default_phase at)) w').1
  after_create-pods at w w' h c gone ns n =
      let pod = owned_pod m (default_phase at) in
      elim (Result-cases (k.create_pod pod w').0) [
        | inr (e, r) ↦ inl (s.create_err pod w' e r ns n ∙ h ns n)
        | inl (p, r) ↦ elim (Bool-cases (same_key pod.meta.namespace pod.meta.name ns n)) [
          | inr miss ↦ inl (s.create_ok pod w' p r ns n ∙ rw miss (h ns n))
          | inl hit ↦
              let (hns, hn) = same_key→eq _ _ _ _ hit in
              inr (
                c,
                hns,
                hn,
                subst (λ x. v.pod_of w x n ≡ none) hns
                    (subst (λ x. v.pod_of w (pod_namespace m at) x ≡ none) hn gone),
                (p, s.create_ok pod w' p r ns n ∙ rw hit),
              )
        ]
      ]

  after_create-world : (at : At) (x : Result Pod × W) → (after_create m k at x).1 ≡ x.1
  unfolding after_create
  after_create-world at (ok _, w) = refl
  after_create-world at (err _, w) = refl

  after_get-pods :
      (at : At) (w w' : W) (r : Result Pod)
      → SamePods v w w'
      → phase_case (default_phase at).status.phase ≡ running
      → (r ≡ err not_found → v.pod_of w (pod_namespace m at) (pod_name m at) ≡ none)
      → PodMoves at w (after_get m k (default_phase at) (r, w')).1
  unfolding after_get
  after_get-pods at w w' (err not_found) h c gone ns n =
      rw after_create-world (after_create-pods at w w' h c (gone refl) ns n)
  after_get-pods at w w' (err (failure e)) h c gone ns n = inl (h ns n)
  after_get-pods at w w' (ok p) h c gone ns n = inl (h ns n)

  running_case-pods :
      (at : At) (w : W)
      → phase_case (default_phase at).status.phase ≡ running
      → PodMoves at w (running_case m k (default_phase at) w).1
  unfolding running_case
  running_case-pods at w c =
      let ns = pod_namespace m at in
      let n = pod_name m at in
      after_get-pods at w (k.get_pod ns n w).1 (k.get_pod ns n w).0 (s.get_pods ns n w) c
        (s.get_missing ns n w)

  switch-pods :
      (now : Instant) (at : At) (w : W) (c : PhaseCase)
      → phase_case (default_phase at).status.phase ≡ c
      → PodMoves at w (switch m k now c (default_phase at) w).1
  unfolding switch
  switch-pods now at w pending h ns n = inl refl
  switch-pods now at w running h ns n = running_case-pods at w h ns n
  switch-pods now at w done h ns n = inl refl
  switch-pods now at w other h ns n = inl refl

  updated-world : (x : Result At × W) → (updated m k x).1 ≡ x.1
  unfolding updated
  updated-world (ok _, w) = refl
  updated-world (err _, w) = refl

  -- Saving changes no pod.
  save-pods :
      (at : At) (f : Flow × W) (ns n : Bytes) → v.pod_of (save m k at f).1 ns n ≡ v.pod_of f.1 ns n
  unfolding save
  save-pods at (leave r, w) ns n = refl
  save-pods at (fall instance, w) ns n = elim (Bool-cases (deep_equal at instance)) [
    | inl e ↦ rw e
    | inr e ↦ rw (e, updated-world) (s.update_pods instance w ns n)
  ]

  sync_at-pods : (now : Instant) (at : At) (w : W) → PodMoves at w (sync_at m k now at w).1
  unfolding sync_at
  sync_at-pods now at w ns n = rw save-pods (switch-pods now at w _ refl ns n)

  from_lister-pods :
      (now : Instant) (ns' n' : Bytes) (w : W) (r : Result At)
      → k.lister_get ns' n' w ≡ r
      → (ns n : Bytes)
      → (v.pod_of (from_lister m k now r w).1 ns n ≡ v.pod_of w ns n)
        ⊎ ((at : At) × (k.lister_get ns' n' w ≡ ok at)
            × Launches at w (from_lister m k now r w).1 ns n)
  unfolding from_lister
  from_lister-pods now ns' n' w (err not_found) l ns n = inl refl
  from_lister-pods now ns' n' w (err (failure e)) l ns n = inl refl
  from_lister-pods now ns' n' w (ok at) l ns n = elim (sync_at-pods now at w ns n) [
    | inl same ↦ inl same
    | inr h ↦ inr (at, l, h)
  ]

  from_key-pods :
      (now : Instant) (key : Option (Bytes × Bytes)) (w : W) (ns n : Bytes)
      → (v.pod_of (from_key m k now key w).1 ns n ≡ v.pod_of w ns n)
        ⊎ ((ns' n' : Bytes) × (at : At) × (key ≡ some (ns', n'))
            × (k.lister_get ns' n' w ≡ ok at)
            × Launches at w (from_key m k now key w).1 ns n)
  unfolding from_key
  from_key-pods now none w ns n = inl refl
  from_key-pods now (some (ns', n')) w ns n = elim (from_lister-pods now ns' n' w _ refl ns n) [
    | inl same ↦ inl same
    | inr (at, l, h) ↦ inr (ns', n', at, refl, l, h)
  ]

  -- A call of the sync handler leaves every stored pod as it was and creates at most the pod of the At
  -- that its key names, if that At is RUNNING and no pod was stored under the pod's name.
  pub sync_handler-pods :
      (now : Instant) (key : Bytes) (w : W) (ns n : Bytes)
      → (v.pod_of (sync_handler m k now key w).1 ns n ≡ v.pod_of w ns n)
        ⊎ ((ns' n' : Bytes) × (at : At) × (m.split_key key ≡ some (ns', n'))
            × (k.lister_get ns' n' w ≡ ok at)
            × Launches at w (sync_handler m k now key w).1 ns n)
  unfolding sync_handler
  sync_handler-pods now key w = from_key-pods now (m.split_key key) w
