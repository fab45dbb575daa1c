-- ===== src/Controller/Examples/News.antt =====
-- NewController over a world that is the handlers of both informers.
use kubernetes_programming.Prelude.{
  Bytes, Bool, true, false, arith, str_eq, str_eq_refl, ◌&&◌, ◌||◌, List, [], ◌∷◌, ◌++◌, refl, ◌≡◌,
}
use kubernetes_programming.Schemes.{
  GroupVersion, GoType, at, at_list, kubebuilder_at, kubebuilder_at_list, SchemeLib, AddsAll,
}
use kubernetes_programming.Schemes.Examples.{in_order, in_order-AddsAll}
use kubernetes_programming.Kube.Memory.{Memory, memory, machinery}
use kubernetes_programming.Controller.Run.{Cache, ats, pods}
use kubernetes_programming.Controller.New.{
  ResourceEventHandlerFuncs, ControllerTypes, ControllerLib, new_controller,
}
use kubernetes_programming.Controller.New.Wired.{IsWiring, KeepsTypes, Wired, new_controller-Wired}
use kubernetes_programming.Controller.Examples.Events.{queue}

abbrev Handler : Type 0
Handler = ResourceEventHandlerFuncs (List Bytes) Memory

record Informers : Type 0 where
  at_handlers : List Handler
  pod_handlers : List Handler
  types : List (GroupVersion × GoType)

abbrev types : ControllerTypes
types = record {
  KubeClientset = Bytes;
  CnatClientset = Bytes;
  AtLister = Bytes;
  PodLister = Bytes;
  Synced = Bytes;
  Queue = List Bytes;
  Broadcaster = Bytes;
  Recorder = Bytes;
  Error = Bytes;
  World = Informers;
  State = Memory;
}

abbrev add_to : Cache → Handler → Informers → Informers
add_to ats h w = record w { at_handlers = w.at_handlers ++ h ∷ [] }
add_to pods h w = record w { pod_handlers = w.pod_handlers ++ h ∷ [] }

abbrev types_at : GroupVersion → List GoType → List (GroupVersion × GoType)
types_at v [] = []
types_at v (x ∷ xs) = (v, x) ∷ types_at v xs

abbrev add_types : GroupVersion → List GoType → Informers → Informers
add_types v xs w = record w { types = types_at v xs ++ w.types }

abbrev schemes : SchemeLib Informers Bytes
schemes = in_order add_types (λ v w. w)

schemes-AddsAll : AddsAll schemes
schemes-AddsAll = in_order-AddsAll add_types (λ v w. w)

abbrev type_eq : GoType → GoType → Bool
type_eq at at = true
type_eq at_list at_list = true
type_eq kubebuilder_at kubebuilder_at = true
type_eq kubebuilder_at_list kubebuilder_at_list = true
type_eq _ _ = false

type_eq_refl : (x : GoType) → type_eq x x ≡ true
type_eq_refl at = refl
type_eq_refl at_list = refl
type_eq_refl kubebuilder_at = refl
type_eq_refl kubebuilder_at_list = refl

abbrev is_known : List (GroupVersion × GoType) → GroupVersion → GoType → Bool
is_known [] v x = false
is_known ((u, y) ∷ xs) v x =
    (str_eq u.group v.group && str_eq u.version v.version && type_eq y x) || is_known xs v x

adds_known :
    (v : GroupVersion) (x y : GoType) (xs : List (GroupVersion × GoType))
    → (is_known ((v, x) ∷ (v, y) ∷ xs) v x ≡ true) × (is_known ((v, x) ∷ (v, y) ∷ xs) v y ≡ true)
adds_known v x y xs = (
  ground (arith, str_eq_refl v.group, str_eq_refl v.version, type_eq_refl x),
  ground (arith, str_eq_refl v.group, str_eq_refl v.version, type_eq_refl y),
)

abbrev lib : ControllerLib types
lib = record {
  schemes = schemes;
  new_broadcaster = λ w. ([], w);
  start_logging = λ b w. w;
  start_recording = λ b k w. w;
  new_recorder = λ b s w. (s, w);
  at_lister = λ w. ([], w);
  pod_lister = λ w. ([], w);
  has_synced = λ c w. ([], w);
  new_queue = λ s w. ([], w);
  add_event_handler = add_to;
}

abbrev handlers_of : Cache → Informers → List Handler
handlers_of ats w = w.at_handlers
handlers_of pods w = w.pod_handlers

add_same :
    (c : Cache) (h : Handler) (w : Informers)
    → handlers_of c (add_to c h w) ≡ handlers_of c w ++ h ∷ []
add_same ats h w = refl
add_same pods h w = refl

same_handlers :
    (c : Cache) (v : GroupVersion) (xs : List GoType) (w : Informers)
    → handlers_of c (add_types v xs w) ≡ handlers_of c w
same_handlers ats v xs w = refl
same_handlers pods v xs w = refl

lib-IsWiring : IsWiring lib handlers_of
lib-IsWiring = record {
  add_same = add_same;
  add_ats = λ h w. refl;
  add_pods = λ h w. refl;
  known_types = same_handlers;
  group_version = λ c v w. refl;
  broadcaster = λ c w. refl;
  logging = λ c b w. refl;
  recording = λ c b x w. refl;
  recorder = λ c b x w. refl;
  queue = λ c x w. refl;
  at_lister = λ c w. refl;
  pod_lister = λ c w. refl;
  synced = λ c d w. refl;
}

same_types :
    (c : Cache) (h : Handler) (v : GroupVersion) (x : GoType) (w : Informers)
    → is_known (add_to c h w).types v x ≡ is_known w.types v x
same_types ats h v x w = refl
same_types pods h v x w = refl

lib-KeepsTypes : KeepsTypes lib (λ w. is_known w.types)
lib-KeepsTypes = record {
  adds = λ v x y w. adds_known v x y w.types;
  version = λ u v x w. refl;
  broadcaster = λ v x w. refl;
  logging = λ b v x w. refl;
  recording = λ b k v x w. refl;
  recorder = λ b s v x w. refl;
  queue = λ s v x w. refl;
  at_lister = λ v x w. refl;
  pod_lister = λ v x w. refl;
  synced = λ d v x w. refl;
  handlers = same_types;
}

abbrev bare : Informers
bare = record { at_handlers = []; pod_handlers = []; types = [] }

new_controller-Wired_example :
    Wired lib queue machinery memory handlers_of lib-IsWiring schemes-AddsAll
      (λ w. is_known w.types)
      lib-KeepsTypes
      []
      []
      bare
      (new_controller lib queue machinery memory [] [] bare)
new_controller-Wired_example =
    new_controller-Wired lib queue machinery memory handlers_of lib-IsWiring schemes-AddsAll
      (λ w. is_known w.types) lib-KeepsTypes [] [] bare
