-- ===== src/Controller/Completion.antt =====
-- The way of one At from its schedule to DONE, over the syncs that lead there.
use kubernetes_programming.Prelude.{Bytes, some_inj, true, none, some, Option, ◌≡◌, refl, sym, ◌∙◌}
use kubernetes_programming.Clock.{Instant}
use kubernetes_programming.Api.{
  At, phase_running, phase_done, with_phase, pending, running, phase_case,
}
use kubernetes_programming.Kube.{Pod, not_found, ok, err, Machinery, Cluster}
use kubernetes_programming.Kube.Laws.{View, IsServer, ListsByKey, same_key_refl}
use kubernetes_programming.Controller.{stop, owned_pod, is_terminated, default_phase, sync_handler}
use kubernetes_programming.Controller.Edges.{IsDue, default_phase-meta}
use kubernetes_programming.Controller.Progress.{
  phase_case_running, sync_starts, sync_launches, sync_finishes,
}

-- An API server that is up: it finds the pods that it has, makes those that it does not have, and
-- takes the status of an At that is sent with the version that it has.
pub record IsUp {W : Type 0} (k : Cluster W) (v : View W)
    (version_of : W → Bytes → Bytes → Option Bytes) : Type 0 where
  pub finds :
      (ns n : Bytes) (w : W) (p : Pod) → v.pod_of w ns n ≡ some p → (k.get_pod ns n w).0 ≡ ok p
  pub misses :
      (ns n : Bytes) (w : W) → v.pod_of w ns n ≡ none → (k.get_pod ns n w).0 ≡ err not_found
  pub creates :
      (pod : Pod) (w : W)
      → v.pod_of w pod.meta.namespace pod.meta.name ≡ none
      → (p : Pod) × ((k.create_pod pod w).0 ≡ ok p)
  pub updates :
      (at : At) (w : W)
      → version_of w at.meta.namespace at.meta.name ≡ some at.meta.resource_version
      → (a : At) × ((k.update_status at w).0 ≡ ok a)
  pub get_version :
      (a b : Bytes) (w : W) (ns n : Bytes) → version_of (k.get_pod a b w).1 ns n ≡ version_of w ns n

-- The cache shows the At as it is stored.
pub record IsShown {W : Type 0} (k : Cluster W) (v : View W)
    (version_of : W → Bytes → Bytes → Option Bytes) (ns n : Bytes) (at : At) (w : W) : Type 0 where
  pub listed : k.lister_get ns n w ≡ ok at
  pub shows : v.phase_of w ns n ≡ some at.status.phase
  pub current : version_of w ns n ≡ some at.meta.resource_version

-- The world after a sync, and the pod stored under the name of an At's pod.
abbrev pub synced : {W : Type 0} → Machinery → Cluster W → Bytes → Instant → W → W
synced m k key now w = (sync_handler m k now key w).1

abbrev pub pod_at : {W : Type 0} → Machinery → View W → At → W → Option Pod
pod_at m v at w = let pod = owned_pod m at in v.pod_of w pod.meta.namespace pod.meta.name

module _ {W : Type 0} (m : Machinery) (k : Cluster W) (v : View W)
    (version_of : W → Bytes → Bytes → Option Bytes) (s : IsServer k v) (keyed : ListsByKey k)
    (up : IsUp k v version_of) where
  module _ (key ns n : Bytes) (splits : m.split_key key ≡ some (ns, n)) where
    accepts :
        (at instance : At) (w u : W)
        → IsShown k v version_of ns n at w
        → instance.meta ≡ at.meta
        → version_of u ns n ≡ version_of w ns n
        → (a : At) × ((k.update_status instance u).0 ≡ ok a)
    accepts at instance w u h e q =
        let (x, y) = keyed ns n w at h.listed in
        up.updates instance u (rw (e, x, y) (q ∙ h.current))

    landed :
        (at instance a : At) (w u : W)
        → IsShown k v version_of ns n at w
        → instance.meta ≡ at.meta
        → (k.update_status instance u).0 ≡ ok a
        → v.phase_of (k.update_status instance u).1 ns n ≡ some instance.status.phase
    landed at instance a w u h e r =
        let (x, y) = keyed ns n w at h.listed in
        s.update_ok instance u a r ns n ∙ rw (e, x, y, same_key_refl ns n) refl

    running_now :
        (at : At) (w : W)
        → IsShown k v version_of ns n at w
        → v.phase_of w ns n ≡ some phase_running
        → phase_case at.status.phase ≡ running
    running_now at w h e = rw (some_inj (sym h.shows ∙ e), phase_case_running)

    started :
        (now : Instant) (at : At) (w : W)
        → IsShown k v version_of ns n at w
        → phase_case (default_phase at).status.phase ≡ pending
        → IsDue now at
        → ((sync_handler m k now key w).0 ≡ stop)
          × (v.phase_of (sync_handler m k now key w).1 ns n ≡ some phase_running)
    started now at w h c d =
        let instance = with_phase (default_phase at) phase_running in
        let (a, r) = accepts at instance w w h (default_phase-meta at) refl in
        rw (sync_starts m k now key ns n w at splits h.listed a c d r)
          (refl, landed at instance a w w h (default_phase-meta at) r)

    launched :
        (now : Instant) (at : At) (w : W)
        → IsShown k v version_of ns n at w
        → phase_case at.status.phase ≡ running
        → let pod = owned_pod m at in
          v.pod_of w pod.meta.namespace pod.meta.name ≡ none
          → ((sync_handler m k now key w).0 ≡ stop)
            × (v.phase_of (sync_handler m k now key w).1 ns n ≡ some at.status.phase)
            × (p : Pod) × (v.pod_of (sync_handler m k now key w).1 pod.meta.namespace pod.meta.name
                ≡ some p)
    launched now at w h c g =
        let pod = owned_pod m at in
        let a = pod.meta.namespace in
        let b = pod.meta.name in
        let looked = k.get_pod a b w in
        let (p, r) = up.creates pod looked.1 (s.get_pods a b w a b ∙ g) in
        rw (sync_launches m k now key ns n w at splits h.listed p c (up.misses a b w g) r) (
          refl,
          s.create_phases pod looked.1 ns n ∙ s.get_phases a b w ns n ∙ h.shows,
          p,
          s.create_ok pod looked.1 p r a b ∙ rw (same_key_refl a b) refl,
        )

    -- If the API server is up and the cache is fresh, a sync that finds the At RUNNING, and under the
    -- name of its pod one that has terminated, stores DONE and leaves all pods as they are, with no
    -- error. Nothing is assumed of what controls that pod.
    pub any_pod_finishes :
        (now : Instant) (at : At) (w : W) (p : Pod)
        → IsShown k v version_of ns n at w
        → phase_case at.status.phase ≡ running
        → let pod = owned_pod m at in
          v.pod_of w pod.meta.namespace pod.meta.name ≡ some p
          → is_terminated p ≡ true
          → ((sync_handler m k now key w).0 ≡ stop)
            × (v.phase_of (sync_handler m k now key w).1 ns n ≡ some phase_done)
            × ((a b : Bytes) → v.pod_of (sync_handler m k now key w).1 a b ≡ v.pod_of w a b)
    any_pod_finishes now at w p h c g t =
        let pod = owned_pod m at in
        let x = pod.meta.namespace in
        let y = pod.meta.name in
        let looked = k.get_pod x y w in
        let instance = with_phase at phase_done in
        let (a, r) = accepts at instance w looked.1 h refl (up.get_version x y w ns n) in
        rw (sync_finishes m k now key ns n w at splits h.listed p a c (up.finds x y w p g) t r) (
          refl,
          landed at instance a w looked.1 h refl r,
          λ a b. s.update_pods instance looked.1 a b ∙ s.get_pods x y w a b,
        )

    -- If the API server is up and no sync comes on an outdated cache: the first sync of a PENDING At
    -- that is due stores RUNNING; a sync that finds it so and no pod under its pod's name creates that
    -- pod; and a sync that then finds the pod terminated stores DONE. None of the three returns an
    -- error or asks for another call.
    pub completes :
        (now₁ now₂ now₃ : Instant) (at₁ at₂ at₃ : At) (w₁ w₂ w₃ : W) (q : Pod)
        → IsShown k v version_of ns n at₁ w₁
        → phase_case (default_phase at₁).status.phase ≡ pending
        → IsDue now₁ at₁
        → IsShown k v version_of ns n at₂ w₂
        → v.phase_of w₂ ns n ≡ v.phase_of (synced m k key now₁ w₁) ns n
        → pod_at m v at₂ w₂ ≡ none
        → IsShown k v version_of ns n at₃ w₃
        → v.phase_of w₃ ns n ≡ v.phase_of (synced m k key now₂ w₂) ns n
        → pod_at m v at₃ w₃ ≡ some q
        → is_terminated q ≡ true
        → ((sync_handler m k now₁ key w₁).0 ≡ stop)
          × (v.phase_of (synced m k key now₁ w₁) ns n ≡ some phase_running)
          × ((sync_handler m k now₂ key w₂).0 ≡ stop)
          × ((p : Pod) × (pod_at m v at₂ (synced m k key now₂ w₂) ≡ some p))
          × ((sync_handler m k now₃ key w₃).0 ≡ stop)
          × (v.phase_of (synced m k key now₃ w₃) ns n ≡ some phase_done)
    completes now₁ now₂ now₃ at₁ at₂ at₃ w₁ w₂ w₃ q h₁ c d h₂ e₁ g h₃ e₂ x t =
        let (a, b) = started now₁ at₁ w₁ h₁ c d in
        let second = running_now at₂ w₂ h₂ (e₁ ∙ b) in
        let (a', b', p, o) = launched now₂ at₂ w₂ h₂ second g in
        let third = running_now at₃ w₃ h₃ (e₂ ∙ b' ∙ sym h₂.shows ∙ e₁ ∙ b) in
        let (a'', b'', _) = any_pod_finishes now₃ at₃ w₃ q h₃ third x t in
        (a, b, a', (p, o), a'', b'')
