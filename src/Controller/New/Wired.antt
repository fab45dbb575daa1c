-- ===== src/Controller/New/Wired.antt =====
-- What the controller that NewController makes is told.
use kubernetes_programming.Prelude.{
  Bytes, Bool, true, none, some, List, [], ◌∷◌, ◌++◌, ◌≡◌, refl, ◌∙◌, ap,
}
use kubernetes_programming.Kube.{Machinery, Cluster}
use kubernetes_programming.Controller.Queue.{WorkQueue}
use kubernetes_programming.Controller.Handlers.{
  Event, added, updated, deleted, on_at_event, on_pod_event,
}
use kubernetes_programming.Controller.Run.{Cache, ats, pods}
use kubernetes_programming.Controller.New.{
  ResourceEventHandlerFuncs, ControllerTypes, ControllerLib, Controller, at_handlers, pod_handlers,
  make_controller, new_controller,
}
use kubernetes_programming.Schemes.{
  GroupVersion, GoType, at, at_list, scheme_group_version, AddsAll, add_known_types,
}
use kubernetes_programming.Clientset.Scheme.{must, add_to_scheme-known}
use kubernetes_programming.Clientset.Rest.{Exit, returned}

-- How an informer calls handlers; a nil func is not called.
abbrev pub dispatch : {Q W : Type 0} → ResourceEventHandlerFuncs Q W → Event → W → Q → Q
dispatch h (added o) w q = elim h.add_func [ none ↦ q | some f ↦ f o w q ]
dispatch h (updated old new) w q = elim h.update_func [ none ↦ q | some f ↦ f old new w q ]
dispatch h (deleted o) w q = elim h.delete_func [ none ↦ q | some f ↦ f o w q ]

abbrev pub deliver : {Q W : Type 0} → List (ResourceEventHandlerFuncs Q W) → Event → W → Q → Q
deliver [] e w q = q
deliver (h ∷ hs) e w q = deliver hs e w (dispatch h e w q)

-- The documented behaviour of AddEventHandler: an informer calls the handlers that were added to it,
-- in order. The other calls add none.
pub record IsWiring {t : ControllerTypes} (lib : ControllerLib t)
    (handlers_of : Cache → t.World → List (ResourceEventHandlerFuncs t.Queue t.State))
    : Type 0 where
  pub add_same :
      (c : Cache) (h : ResourceEventHandlerFuncs t.Queue t.State) (w : t.World)
      → handlers_of c (lib.add_event_handler c h w) ≡ handlers_of c w ++ h ∷ []
  pub add_ats :
      (h : ResourceEventHandlerFuncs t.Queue t.State) (w : t.World)
      → handlers_of pods (lib.add_event_handler ats h w) ≡ handlers_of pods w
  pub add_pods :
      (h : ResourceEventHandlerFuncs t.Queue t.State) (w : t.World)
      → handlers_of ats (lib.add_event_handler pods h w) ≡ handlers_of ats w
  pub known_types :
      (c : Cache) (v : GroupVersion) (ts : List GoType) (w : t.World)
      → handlers_of c (lib.schemes.add_known_types v ts w) ≡ handlers_of c w
  pub group_version :
      (c : Cache) (v : GroupVersion) (w : t.World)
      → handlers_of c (lib.schemes.add_to_group_version v w) ≡ handlers_of c w
  pub broadcaster :
      (c : Cache) (w : t.World) → handlers_of c (lib.new_broadcaster w).1 ≡ handlers_of c w
  pub logging :
      (c : Cache) (b : t.Broadcaster) (w : t.World)
      → handlers_of c (lib.start_logging b w) ≡ handlers_of c w
  pub recording :
      (c : Cache) (b : t.Broadcaster) (x : t.KubeClientset) (w : t.World)
      → handlers_of c (lib.start_recording b x w) ≡ handlers_of c w
  pub recorder :
      (c : Cache) (b : t.Broadcaster) (x : Bytes) (w : t.World)
      → handlers_of c (lib.new_recorder b x w).1 ≡ handlers_of c w
  pub queue :
      (c : Cache) (x : Bytes) (w : t.World) → handlers_of c (lib.new_queue x w).1 ≡ handlers_of c w
  pub at_lister : (c : Cache) (w : t.World) → handlers_of c (lib.at_lister w).1 ≡ handlers_of c w
  pub pod_lister : (c : Cache) (w : t.World) → handlers_of c (lib.pod_lister w).1 ≡ handlers_of c w
  pub synced : (c d : Cache) (w : t.World) → handlers_of c (lib.has_synced d w).1 ≡ handlers_of c w

-- Which types the scheme of client-go knows. What AddKnownTypes adds it knows from then on, and no other
-- call makes it forget a type.
pub record KeepsTypes {t : ControllerTypes} (lib : ControllerLib t)
    (known : t.World → GroupVersion → GoType → Bool) : Type 0 where
  pub adds :
      (v : GroupVersion) (x y : GoType) (w : t.World)
      → (known (lib.schemes.add_known_types v (x ∷ y ∷ []) w) v x ≡ true)
        × (known (lib.schemes.add_known_types v (x ∷ y ∷ []) w) v y ≡ true)
  pub version :
      (u v : GroupVersion) (x : GoType) (w : t.World)
      → known (lib.schemes.add_to_group_version u w) v x ≡ known w v x
  pub broadcaster :
      (v : GroupVersion) (x : GoType) (w : t.World)
      → known (lib.new_broadcaster w).1 v x ≡ known w v x
  pub logging :
      (b : t.Broadcaster) (v : GroupVersion) (x : GoType) (w : t.World)
      → known (lib.start_logging b w) v x ≡ known w v x
  pub recording :
      (b : t.Broadcaster) (k : t.KubeClientset) (v : GroupVersion) (x : GoType) (w : t.World)
      → known (lib.start_recording b k w) v x ≡ known w v x
  pub recorder :
      (b : t.Broadcaster) (s : Bytes) (v : GroupVersion) (x : GoType) (w : t.World)
      → known (lib.new_recorder b s w).1 v x ≡ known w v x
  pub queue :
      (s : Bytes) (v : GroupVersion) (x : GoType) (w : t.World)
      → known (lib.new_queue s w).1 v x ≡ known w v x
  pub at_lister :
      (v : GroupVersion) (x : GoType) (w : t.World) → known (lib.at_lister w).1 v x ≡ known w v x
  pub pod_lister :
      (v : GroupVersion) (x : GoType) (w : t.World) → known (lib.pod_lister w).1 v x ≡ known w v x
  pub synced :
      (d : Cache) (v : GroupVersion) (x : GoType) (w : t.World)
      → known (lib.has_synced d w).1 v x ≡ known w v x
  pub handlers :
      (d : Cache) (h : ResourceEventHandlerFuncs t.Queue t.State) (v : GroupVersion) (x : GoType)
      (w : t.World)
      → known (lib.add_event_handler d h w) v x ≡ known w v x

module _ {t : ControllerTypes} (lib : ControllerLib t) (queue : WorkQueue t.Queue) (m : Machinery)
    (k : Cluster t.State)
    (handlers_of : Cache → t.World → List (ResourceEventHandlerFuncs t.Queue t.State))
    (wiring : IsWiring lib handlers_of) (all : AddsAll lib.schemes)
    (known : t.World → GroupVersion → GoType → Bool) (types : KeepsTypes lib known) where
  -- A controller that is told what the informers see.
  pub data Wired (kube : t.KubeClientset) (cnat : t.CnatClientset) (w : t.World)
      : Exit t.Error (Controller t) × t.World → Type 0 where
    wired :
        {c : Controller t} {w' : t.World}
        → known w' scheme_group_version at ≡ true
        → known w' scheme_group_version at_list ≡ true
        → c.kube_clientset ≡ kube
        → c.cnat_clientset ≡ cnat
        → ((e : Event) (u : t.State) (q : t.Queue)
            → deliver (handlers_of ats w') e u q
              ≡ on_at_event queue m k e (deliver (handlers_of ats w) e u q))
        → ((e : Event) (u : t.State) (q : t.Queue)
            → deliver (handlers_of pods w') e u q
              ≡ on_pod_event queue m k e u (deliver (handlers_of pods w) e u q))
        → Wired kube cnat w (returned c, w')

  deliver-append :
      (hs : List (ResourceEventHandlerFuncs t.Queue t.State))
      (h : ResourceEventHandlerFuncs t.Queue t.State) (e : Event) (u : t.State) (q : t.Queue)
      → deliver (hs ++ h ∷ []) e u q ≡ dispatch h e u (deliver hs e u q)
  deliver-append [] h e u q = refl
  deliver-append (x ∷ hs) h e u q = deliver-append hs h e u (dispatch x e u q)

  at_handlers-dispatch :
      (e : Event) (u : t.State) (q : t.Queue)
      → dispatch (at_handlers lib queue m k) e u q ≡ on_at_event queue m k e q
  unfolding at_handlers on_at_event
  at_handlers-dispatch (added o) u q = refl
  at_handlers-dispatch (updated old new) u q = refl
  at_handlers-dispatch (deleted o) u q = refl

  pod_handlers-dispatch :
      (e : Event) (u : t.State) (q : t.Queue)
      → dispatch (pod_handlers lib queue m k) e u q ≡ on_pod_event queue m k e u q
  unfolding pod_handlers on_pod_event
  pod_handlers-dispatch (added o) u q = refl
  pod_handlers-dispatch (updated old new) u q = refl
  pod_handlers-dispatch (deleted o) u q = refl

  made_at :
      (kube : t.KubeClientset) (cnat : t.CnatClientset) (w : t.World)
      → handlers_of ats (make_controller lib queue m k kube cnat w).1
        ≡ handlers_of ats w ++ at_handlers lib queue m k ∷ []
  unfolding make_controller
  made_at kube cnat w = simp (
    wiring.add_pods, wiring.add_same, wiring.queue, wiring.synced, wiring.pod_lister,
    wiring.at_lister, wiring.recorder, wiring.recording, wiring.logging, wiring.broadcaster,
  )

  made_pods :
      (kube : t.KubeClientset) (cnat : t.CnatClientset) (w : t.World)
      → handlers_of pods (make_controller lib queue m k kube cnat w).1
        ≡ handlers_of pods w ++ pod_handlers lib queue m k ∷ []
  unfolding make_controller
  made_pods kube cnat w = simp (
    wiring.add_same, wiring.add_ats, wiring.queue, wiring.synced, wiring.pod_lister,
    wiring.at_lister, wiring.recorder, wiring.recording, wiring.logging, wiring.broadcaster,
  )

  -- The world once the types have been added to the scheme, which goes on to tell the same handlers.
  with_types : t.World → t.World
  with_types w = (add_known_types lib.schemes w).1

  with_types_same : (c : Cache) (w : t.World) → handlers_of c (with_types w) ≡ handlers_of c w
  unfolding with_types add_known_types
  with_types_same c w = simp (wiring.group_version, wiring.known_types)

  new_controller-make :
      (kube : t.KubeClientset) (cnat : t.CnatClientset) (w : t.World)
      → let (c, w') = make_controller lib queue m k kube cnat (with_types w) in
        new_controller lib queue m k kube cnat w ≡ (returned c, w')
  unfolding new_controller must with_types add_known_types
  new_controller-make kube cnat w = rw (add_to_scheme-known lib.schemes all w) refl

  made_known :
      (kube : t.KubeClientset) (cnat : t.CnatClientset) (w : t.World) (v : GroupVersion)
      (x : GoType)
      → known (make_controller lib queue m k kube cnat w).1 v x ≡ known w v x
  unfolding make_controller
  made_known kube cnat w v x = simp (
    types.handlers, types.queue, types.synced, types.pod_lister, types.at_lister, types.recorder,
    types.recording, types.logging, types.broadcaster,
  )

  with_types_known :
      (w : t.World)
      → (known (with_types w) scheme_group_version at ≡ true)
        × (known (with_types w) scheme_group_version at_list ≡ true)
  unfolding with_types add_known_types
  with_types_known w =
      let v = scheme_group_version in
      let (a, b) = types.adds v at at_list w in
      (types.version v v at _ ∙ a, types.version v v at_list _ ∙ b)

  -- If the scheme builder applies what is registered with it, NewController never panics: the
  -- scheme of client-go then knows At and AtList, which no other call makes it forget. It returns a
  -- controller with the clients it was given, and from then on every event that the informer of Ats
  -- delivers runs the handler for Ats, and every one of the informer of pods that for pods, after the
  -- handlers that were there before.
  pub new_controller-Wired :
      (kube : t.KubeClientset) (cnat : t.CnatClientset) (w : t.World)
      → Wired kube cnat w (new_controller lib queue m k kube cnat w)
  unfolding make_controller
  new_controller-Wired kube cnat w = rw (new_controller-make kube cnat w) (
      wired (made_known kube cnat (with_types w) scheme_group_version at ∙ (with_types_known w).0)
        (made_known kube cnat (with_types w) scheme_group_version at_list ∙ (with_types_known w).1)
        refl refl
        (λ e u q.
          ap (λ hs. deliver hs e u q)
            (made_at kube cnat (with_types w)
              ∙ ap (λ hs. hs ++ at_handlers lib queue m k ∷ []) (with_types_same ats w))
          ∙ deliver-append (handlers_of ats w) _ e u q
          ∙ at_handlers-dispatch e u _)
        (λ e u q.
          ap (λ hs. deliver hs e u q)
            (made_pods kube cnat (with_types w)
              ∙ ap (λ hs. hs ++ pod_handlers lib queue m k ∷ []) (with_types_same pods w))
          ∙ deliver-append (handlers_of pods w) _ e u q
          ∙ pod_handlers-dispatch e u _))
