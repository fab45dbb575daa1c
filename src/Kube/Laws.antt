-- ===== src/Kube/Laws.antt =====
-- The documented behaviour of the calls that theorems rest on, over what can be seen of a world.
use kubernetes_programming.Prelude.{
  Bytes, Bool, true, arith, str_eq→eq, str_eq_refl, Option, none, some, ◌≡◌, ◌&&◌, str_eq,
  if◌then◌else◌,
}
use kubernetes_programming.Api.{At}
use kubernetes_programming.Kube.{Pod, ApiError, not_found, ok, err, Cluster}

-- What the API server stores under a namespace and a name: an At's phase, and a pod.
pub record View (W : Type 0) : Type 0 where
  pub phase_of : W → Bytes → Bytes → Option Bytes
  pub pod_of : W → Bytes → Bytes → Option Pod

abbrev pub same_key : Bytes → Bytes → Bytes → Bytes → Bool
same_key ns n ns' n' = str_eq ns ns' && str_eq n n'

abbrev pub SamePhases : {W : Type 0} → View W → W → W → Type 0
SamePhases v w w' = (ns n : Bytes) → v.phase_of w' ns n ≡ v.phase_of w ns n

abbrev pub SamePods : {W : Type 0} → View W → W → W → Type 0
SamePods v w w' = (ns n : Bytes) → v.pod_of w' ns n ≡ v.pod_of w ns n

-- A read changes nothing, an error changes nothing, a Create makes the pod that was missing and an
-- UpdateStatus sets the phase of the At that it names.
pub record IsServer {W : Type 0} (k : Cluster W) (v : View W) : Type 0 where
  pub get_phases : (ns n : Bytes) (w : W) → SamePhases v w (k.get_pod ns n w).1
  pub get_pods : (ns n : Bytes) (w : W) → SamePods v w (k.get_pod ns n w).1
  pub get_ok :
      (ns n : Bytes) (w : W) (p : Pod) → (k.get_pod ns n w).0 ≡ ok p → v.pod_of w ns n ≡ some p
  pub get_missing :
      (ns n : Bytes) (w : W) → (k.get_pod ns n w).0 ≡ err not_found → v.pod_of w ns n ≡ none
  pub create_phases : (pod : Pod) (w : W) → SamePhases v w (k.create_pod pod w).1
  pub create_err :
      (pod : Pod) (w : W) (e : ApiError)
      → (k.create_pod pod w).0 ≡ err e
      → SamePods v w (k.create_pod pod w).1
  pub create_ok :
      (pod : Pod) (w : W) (p : Pod)
      → (k.create_pod pod w).0 ≡ ok p
      → (ns n : Bytes)
      → v.pod_of (k.create_pod pod w).1 ns n
        ≡ (if same_key pod.meta.namespace pod.meta.name ns n then some p else v.pod_of w ns n)
  pub update_pods : (at : At) (w : W) → SamePods v w (k.update_status at w).1
  pub update_err :
      (at : At) (w : W) (e : ApiError)
      → (k.update_status at w).0 ≡ err e
      → SamePhases v w (k.update_status at w).1
  pub update_ok :
      (at : At) (w : W) (a : At)
      → (k.update_status at w).0 ≡ ok a
      → (ns n : Bytes)
      → v.phase_of (k.update_status at w).1 ns n ≡ (
          if same_key at.meta.namespace at.meta.name ns n
          then some at.status.phase
          else v.phase_of w ns n)

pub same_key→eq : (ns n ns' n' : Bytes) → same_key ns n ns' n' ≡ true → (ns ≡ ns') × (n ≡ n')
same_key→eq ns n ns' n' h = ground (arith, str_eq→eq ns ns', str_eq→eq n n')

pub same_key_refl : (ns n : Bytes) → same_key ns n ns n ≡ true
same_key_refl ns n = ground (arith, str_eq_refl ns, str_eq_refl n)

-- The lister finds an object under its own namespace and name.
abbrev pub ListsByKey : {W : Type 0} → Cluster W → Type 0
ListsByKey {W} k =
    (ns n : Bytes) (w : W) (at : At)
    → k.lister_get ns n w ≡ ok at
    → (at.meta.namespace ≡ ns) × (at.meta.name ≡ n)

-- The three calls do not touch the lister's cache.
pub record KeepsCache {W : Type 0} (k : Cluster W) : Type 0 where
  pub get :
      (a b : Bytes) (w : W) (ns n : Bytes)
      → k.lister_get ns n (k.get_pod a b w).1 ≡ k.lister_get ns n w
  pub create :
      (p : Pod) (w : W) (ns n : Bytes)
      → k.lister_get ns n (k.create_pod p w).1 ≡ k.lister_get ns n w
  pub update :
      (at : At) (w : W) (ns n : Bytes)
      → k.lister_get ns n (k.update_status at w).1 ≡ k.lister_get ns n w
