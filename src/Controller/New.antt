-- ===== src/Controller/New.antt =====
-- controller.go: `Controller` and `NewController`, with what it makes and where it sets the handlers.
pub mod Wired
use kubernetes_programming.Prelude.{Bytes, codes, Option, none, some}
use kubernetes_programming.Kube.{Object, Machinery, Cluster}
use kubernetes_programming.Controller.Queue.{WorkQueue}
use kubernetes_programming.Controller.Handlers.{enqueue_at, enqueue_pod}
use kubernetes_programming.Controller.Run.{Cache, ats, pods}
use kubernetes_programming.Schemes.{SchemeLib}
use kubernetes_programming.Clientset.Scheme.{add_to_scheme, must}
use kubernetes_programming.Clientset.Rest.{Exit, returned}

-- cache.ResourceEventHandlerFuncs, over the state of the queue and of the world; a field that is not
-- set is nil.
pub record ResourceEventHandlerFuncs (Q W : Type 0) : Type 0 where
  pub add_func : Option (Object → W → Q → Q)
  pub update_func : Option (Object → Object → W → Q → Q)
  pub delete_func : Option (Object → W → Q → Q)

-- `World` is what the constructors change, `State` the cluster that the handlers see.
pub record ControllerTypes : Type 1 where
  pub KubeClientset : Type 0
  pub CnatClientset : Type 0
  pub AtLister : Type 0
  pub PodLister : Type 0
  pub Synced : Type 0
  pub Queue : Type 0
  pub Broadcaster : Type 0
  pub Recorder : Type 0
  pub Error : Type 0
  pub World : Type 0
  pub State : Type 0

-- The scheme of client-go, by what registers types with it; the record package, `new_recorder` being
-- for the component of that name; the two informers, which are made when they are first asked for, by
-- their caches; and workqueue.NewNamedRateLimitingQueue with the default limiter. `start_recording`
-- is StartRecordingToSink with the events of all namespaces.
pub record ControllerLib (t : ControllerTypes) : Type 0 where
  pub schemes : SchemeLib t.World t.Error
  pub new_broadcaster : t.World → t.Broadcaster × t.World
  pub start_logging : t.Broadcaster → t.World → t.World
  pub start_recording : t.Broadcaster → t.KubeClientset → t.World → t.World
  pub new_recorder : t.Broadcaster → Bytes → t.World → t.Recorder × t.World
  pub at_lister : t.World → t.AtLister × t.World
  pub pod_lister : t.World → t.PodLister × t.World
  pub has_synced : Cache → t.World → t.Synced × t.World
  pub new_queue : Bytes → t.World → t.Queue × t.World
  pub add_event_handler : Cache → ResourceEventHandlerFuncs t.Queue t.State → t.World → t.World

pub record Controller (t : ControllerTypes) : Type 0 where
  pub kube_clientset : t.KubeClientset
  pub cnat_clientset : t.CnatClientset
  pub at_lister : t.AtLister
  pub ats_synced : t.Synced
  pub pod_lister : t.PodLister
  pub pods_synced : t.Synced
  pub workqueue : t.Queue
  pub recorder : t.Recorder

abbrev pub controller_agent_name : Bytes
controller_agent_name = codes "cnat-controller"

module _ {t : ControllerTypes} (lib : ControllerLib t) (queue : WorkQueue t.Queue) (m : Machinery)
    (k : Cluster t.State) where
  unfoldable pub at_handlers : ResourceEventHandlerFuncs t.Queue t.State
  at_handlers = record {
    add_func = some (λ o w q. enqueue_at queue m k o q);
    update_func = some (λ old new w q. enqueue_at queue m k new q);
    delete_func = none;
  }

  unfoldable pub pod_handlers : ResourceEventHandlerFuncs t.Queue t.State
  pod_handlers = record {
    add_func = some (λ o w q. enqueue_pod queue m k o w q);
    update_func = some (λ old new w q. enqueue_pod queue m k new w q);
    delete_func = none;
  }

  -- What follows utilruntime.Must.
  unfoldable pub make_controller :
      t.KubeClientset → t.CnatClientset → t.World → Controller t × t.World
  unfolding at_handlers pod_handlers
  make_controller kube cnat w =
      let (broadcaster, w₁) = lib.new_broadcaster w in
      let w₂ = lib.start_logging broadcaster w₁ in
      let w₃ = lib.start_recording broadcaster kube w₂ in
      let (recorder, w₄) = lib.new_recorder broadcaster controller_agent_name w₃ in
      let (at_lister, w₅) = lib.at_lister w₄ in
      let (ats_synced, w₆) = lib.has_synced ats w₅ in
      let (pod_lister, w₇) = lib.pod_lister w₆ in
      let (pods_synced, w₈) = lib.has_synced pods w₇ in
      let (workqueue, w₉) = lib.new_queue (codes "Ats") w₈ in
      (
        record {
          kube_clientset = kube;
          cnat_clientset = cnat;
          at_lister = at_lister;
          ats_synced = ats_synced;
          pod_lister = pod_lister;
          pods_synced = pods_synced;
          workqueue = workqueue;
          recorder = recorder;
        },
        lib.add_event_handler pods pod_handlers (lib.add_event_handler ats at_handlers w₉),
      )

  unfoldable pub new_controller :
      t.KubeClientset → t.CnatClientset → t.World → Exit t.Error (Controller t) × t.World
  unfolding add_to_scheme must make_controller
  new_controller kube cnat w =
      must lib.schemes (add_to_scheme lib.schemes w)
        (λ w. let (c, w') = make_controller kube cnat w in (returned c, w'))
