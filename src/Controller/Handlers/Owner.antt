-- ===== src/Controller/Handlers/Owner.antt =====
-- A change of a pod brings the key of its At back to the queue.
use kubernetes_programming.Prelude.{
  Bytes, codes, Option, none, some, ◌≡◌, ◌⊎◌, inl, inr, refl, Bool-cases, str_eq, str_eq→eq,
  str_eq_refl, subst, ap, sym,
}
use kubernetes_programming.Kube.{Pod, Object, an_at, a_pod, Result, ok, err, Machinery, Cluster}
use kubernetes_programming.Api.{At, OwnerReference, ObjectMeta}
use kubernetes_programming.Controller.{at_kind, owned_pod}
use kubernetes_programming.Controller.Queue.{WorkQueue}
use kubernetes_programming.Controller.Handlers.{
  added, updated, pod_of_object, add_key, enqueue_at, enqueue_owner, enqueue_controlled,
  enqueue_decoded, enqueue_pod, on_pod_event,
}

module _ {Q W : Type 0} (queue : WorkQueue Q) (m : Machinery) (k : Cluster W) where
  -- Why a pod's event adds a key: its controller is an At, which the lister has, and the key is that At's.
  pub record Owns (o : Object) (w : W) (key : Bytes) : Type 0 where
    pub pod : Pod
    pub ref : OwnerReference
    pub at : At
    pub decoded : pod_of_object o ≡ some pod
    pub controlled : m.get_controller_of pod ≡ some ref
    pub kind : ref.kind ≡ codes "At"
    pub listed : k.lister_get pod.meta.namespace ref.name w ≡ ok at
    pub keyed : m.meta_key (an_at at) ≡ some key

  Adds : Object → W → Q → Q → Type 0
  Adds o w q q' = (q' ≡ q) ⊎ ((key : Bytes) × Owns o w key × (q' ≡ queue.add key q))

  module _ (o : Object) (w : W) (q : Q) where
    key-Adds :
        (pod : Pod) (ref : OwnerReference) (at : At) (key : Option Bytes)
        → pod_of_object o ≡ some pod
        → m.get_controller_of pod ≡ some ref
        → ref.kind ≡ codes "At"
        → k.lister_get pod.meta.namespace ref.name w ≡ ok at
        → m.meta_key (an_at at) ≡ key
        → Adds o w q (add_key queue m k key q)
    unfolding Adds add_key
    key-Adds pod ref at none d c t l e = inl refl
    key-Adds pod ref at (some key) d c t l e = inr (
      key,
      record {
        pod = pod;
        ref = ref;
        at = at;
        decoded = d;
        controlled = c;
        kind = t;
        listed = l;
        keyed = e;
      },
      refl,
    )

    owner-Adds :
        (pod : Pod) (ref : OwnerReference) (r : Result At)
        → pod_of_object o ≡ some pod
        → m.get_controller_of pod ≡ some ref
        → ref.kind ≡ codes "At"
        → k.lister_get pod.meta.namespace ref.name w ≡ r
        → Adds o w q (enqueue_owner queue m k r q)
    unfolding enqueue_owner enqueue_at Adds
    owner-Adds pod ref (err e) d c t l = inl refl
    owner-Adds pod ref (ok at) d c t l = key-Adds pod ref at _ d c t l refl

    controlled-Adds :
        (pod : Pod) (r : Option OwnerReference)
        → pod_of_object o ≡ some pod
        → m.get_controller_of pod ≡ r
        → Adds o w q (enqueue_controlled queue m k pod r w q)
    unfolding enqueue_controlled Adds
    controlled-Adds pod none d c = inl refl
    controlled-Adds pod (some ref) d c = elim (Bool-cases (str_eq ref.kind (codes "At"))) [
      | inl t ↦ rw t (owner-Adds pod ref _ d c (str_eq→eq _ _ t) refl)
      | inr f ↦ rw f (inl refl)
    ]

    decoded-Adds :
        (p : Option Pod) → pod_of_object o ≡ p → Adds o w q (enqueue_decoded queue m k p w q)
    unfolding enqueue_decoded Adds
    decoded-Adds none d = inl refl
    decoded-Adds (some pod) d = controlled-Adds pod _ d refl

  -- The handler of pods adds the key of the At that controls the pod, or nothing.
  pub enqueue_pod_adds :
      (o : Object) (w : W) (q : Q)
      → (enqueue_pod queue m k o w q ≡ q)
        ⊎ ((key : Bytes) × Owns o w key × (enqueue_pod queue m k o w q ≡ queue.add key q))
  unfolding enqueue_pod Adds
  enqueue_pod_adds o w q = decoded-Adds o w q _ refl

  -- If the handler is told of a pod that an At controls and that At is listed and has a key, the key
  -- is added.
  pub enqueue_pod_owned :
      (o : Object) (w : W) (q : Q) (key : Bytes)
      → Owns o w key
      → enqueue_pod queue m k o w q ≡ queue.add key q
  unfolding enqueue_pod
  enqueue_pod_owned o w q key h = rw (
    h.decoded,
    enqueue_decoded,
    h.controlled,
    enqueue_controlled,
    h.kind,
    str_eq_refl (codes "At"),
    h.listed,
    enqueue_owner,
    enqueue_at,
    h.keyed,
  )

  -- The handlers close the loop: every added or updated event of a pod that still has the metadata
  -- with which a sync creates it adds the key of its At, if the lister has the At (a deleted event
  -- adds nothing: no handler is set for it). Assumed of the
  -- libraries: the pod's controller is the reference that the sync has made, with the At's kind and
  -- name.
  pub owned_pod_requeues :
      (at : At) (pod : Pod) (old : Object) (w : W) (q : Q) (key : Bytes)
      → pod.meta ≡ (owned_pod m at).meta
      → m.get_controller_of pod ≡ some (m.new_controller_ref at at_kind)
      → (m.new_controller_ref at at_kind).kind ≡ at_kind.kind
      → (m.new_controller_ref at at_kind).name ≡ at.meta.name
      → k.lister_get at.meta.namespace at.meta.name w ≡ ok at
      → m.meta_key (an_at at) ≡ some key
      → (on_pod_event queue m k (added (a_pod pod)) w q ≡ queue.add key q)
        × (on_pod_event queue m k (updated old (a_pod pod)) w q ≡ queue.add key q)
  unfolding on_pod_event pod_of_object
  owned_pod_requeues at pod old w q key pm c kd nm l e =
      let owns : Owns (a_pod pod) w key = record {
        pod = pod;
        ref = m.new_controller_ref at at_kind;
        at = at;
        decoded = refl;
        controlled = c;
        kind = kd;
        listed =
            unfold owned_pod in
            rw (nm) (
              subst (λ (x : Bytes). k.lister_get x at.meta.name w ≡ ok at)
                (sym (ap (λ (x : ObjectMeta). x.namespace) pm)) l);
        keyed = e;
      } in
      (enqueue_pod_owned _ w q key owns, enqueue_pod_owned _ w q key owns)
