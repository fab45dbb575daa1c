-- ===== src/Kube.antt =====
-- What the controllers use of Kubernetes' own libraries, none of which is modelled: the Pod type,
-- API errors by what the code asks of them, and the calls as an interface over an unknown world.
pub mod Laws
pub mod Memory
pub mod Versioned
use kubernetes_programming.Prelude.{Bytes, codes, List, [], ℕ, Option, ◌≡◌, refl, ◌⊎◌, inl, inr}
use kubernetes_programming.Prelude.Int.{ℤ}
use kubernetes_programming.Api.{At, ObjectMeta, OwnerReference}

pub record Container : Type 0 where
  pub name : Bytes
  pub image : Bytes
  pub command : List Bytes

-- corev1.Pod: metadata, the fields of the spec and of the status that the program names.
pub record Pod : Type 0 where
  pub meta : ObjectMeta
  pub containers : List Container
  pub restart_policy : Bytes
  pub node_name : Bytes
  pub phase : Bytes
  pub pod_ip : Bytes
  pub restart_counts : List ℤ
  pub creation_timestamp : ℕ

abbrev pub pod_failed : Bytes
pod_failed = codes "Failed"

abbrev pub pod_succeeded : Bytes
pod_succeeded = codes "Succeeded"

-- An API error: whether errors.IsNotFound holds of it is all that the program asks.
pub data ApiError : Type 0 where
  not_found : ApiError
  failure : ℕ → ApiError

pub data Result (A : Type 0) : Type 0 where
  ok : A → Result A
  err : ApiError → Result A

-- What an event handler is given (interface{}).
pub data Object : Type 0 where
  an_at : At → Object
  a_pod : Pod → Object
  tombstone : Object → Object
  foreign : ℕ → Object

-- schema.GroupVersionKind.
pub record GroupVersionKind : Type 0 where
  pub group : Bytes
  pub version : Bytes
  pub kind : Bytes

-- The libraries' functions on keys and owners.
pub record Machinery : Type 0 where
  -- cache.SplitMetaNamespaceKey and cache.MetaNamespaceKeyFunc
  pub split_key : Bytes → Option (Bytes × Bytes)
  pub meta_key : Object → Option Bytes
  -- metav1.NewControllerRef and metav1.GetControllerOf
  pub new_controller_ref : At → GroupVersionKind → OwnerReference
  pub get_controller_of : Pod → Option OwnerReference

-- The calls on the API server and on the lister's cache. A call may change the world.
pub record Cluster (W : Type 0) : Type 0 where
  -- atLister.Ats(namespace).Get(name)
  pub lister_get : Bytes → Bytes → W → Result At
  -- kubeClientset.CoreV1().Pods(namespace).Get(name) and Create(pod)
  pub get_pod : Bytes → Bytes → W → Result Pod × W
  pub create_pod : Pod → W → Result Pod × W
  -- cnatClientset.CnatV1alpha1().Ats(at.Namespace).UpdateStatus(at)
  pub update_status : At → W → Result At × W

pub ok_inj : {A : Type 0} {a b : A} → ok a ≡ ok b → a ≡ b
ok_inj h = cc

pub Result-cases :
    {A : Type 0} (r : Result A) → ((a : A) × (r ≡ ok a)) ⊎ ((e : ApiError) × (r ≡ err e))
Result-cases (ok a) = inl (a, refl)
Result-cases (err e) = inr (e, refl)
