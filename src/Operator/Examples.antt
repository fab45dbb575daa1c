-- ===== src/Operator/Examples.antt =====
-- Both controllers on one cluster in memory.
use kubernetes_programming.Prelude.{
  Bytes, List, ◌++◌, append_assoc, codes, Bool, true, false, Option, str_eq, str_eq_refl, [], ◌∷◌,
  none, some, ◌≡◌, refl,
}
use kubernetes_programming.Api.{At, OwnerReference, no_meta, phase_running}
use kubernetes_programming.Text.{split}
use kubernetes_programming.Kube.{Pod}
use kubernetes_programming.Kube.Memory.{Memory, memory, machinery, put}
use kubernetes_programming.Controller.{at_kind, add_owner, sync_handler}
use kubernetes_programming.Operator.{Client, Owned, refused, owned, reconcile}
use kubernetes_programming.Clientset.Rest.{made}
use kubernetes_programming.Operator.Setup.{
  an_at, a_pod, Event, BuilderLib, setup_with_manager, Source, objects, owned_by, asked_by_all,
  IsBuilder, setup_with_manager-requests,
}
use kubernetes_programming.Operator.Equivalence.{Agree, Same, reconcile-Same}

-- A pod that has owners is refused, and so is one of another namespace.
abbrev owned_unless : Option (List OwnerReference) → Bool → At → Pod → Owned
owned_unless none true at p = owned (add_owner (machinery.new_controller_ref at at_kind) p)
owned_unless none false at p = refused 0
owned_unless (some _) b at p = refused 1

abbrev set_reference : At → Pod → Owned
set_reference at p =
    owned_unless p.meta.owner_references (str_eq p.meta.namespace at.meta.namespace) at p

set_fresh :
    (at : At) (p : Pod)
    → p.meta.owner_references ≡ none
    → p.meta.namespace ≡ at.meta.namespace
    → set_reference at p ≡ owned (add_owner (machinery.new_controller_ref at at_kind) p)
set_fresh at p h e = rw (h, e, str_eq_refl) refl

abbrev client : Client Memory
client = record {
  get_at = λ ns n w. (memory.lister_get ns n w, w);
  get_pod = memory.get_pod;
  create = memory.create_pod;
  status_update = memory.update_status;
  set_controller_reference = set_reference;
}

client-Agree : Agree machinery memory client
client-Agree = record {
  get_at = λ ns n w. refl;
  get_pod = λ ns n w. refl;
  create = λ p w. refl;
  status_update = λ at w. refl;
  reference = λ at p h e. set_fresh at p h e;
}

abbrev running_at : At
running_at = record {
  type_meta = record { kind = codes "At"; api_version = codes "v" };
  meta = record no_meta { name = codes "a"; namespace = codes "d" };
  spec = record { schedule = codes "2019-07-03T02:00:00Z"; command = codes "echo hi" };
  status = record { phase = phase_running };
}

abbrev world : Memory
world = record {
  phases = put (λ a b. none) (codes "d") (codes "a") phase_running;
  pods = λ a b. none;
  cached = running_at ∷ [];
}

key-splits : machinery.split_key (codes "d/a") ≡ some (codes "d", codes "a")
unfolding split
key-splits = refl

reconcile-Same_example :
    Same machinery memory client client-Agree
      (sync_handler machinery memory 0 (codes "d/a") world)
      (reconcile client 0 (codes "d") (codes "a") world)
reconcile-Same_example =
    reconcile-Same machinery memory client client-Agree 0 (codes "d/a") (codes "d") (codes "a")
      world key-splits

-- A builder is what it watches, and a manager what its controllers watch.
abbrev builder : BuilderLib (List Source) (List Source) Bytes Bytes
builder = record {
  new_controller_managed_by = λ mgr. [];
  for = λ k b. objects k ∷ b;
  named = λ s b. b;
  complete = λ r b mgr. made (mgr ++ b);
}

asked_by_all-append :
    (xs ys : List Source) (e : Event)
    → asked_by_all (xs ++ ys) e ≡ asked_by_all xs e ++ asked_by_all ys e
asked_by_all-append [] ys e = refl
asked_by_all-append (x ∷ xs) ys e = simp (asked_by_all-append xs ys e, append_assoc)

builder-complete :
    (b mgr mgr' : List Source) (e : Event)
    → builder.complete [] b mgr ≡ made mgr'
    → asked_by_all mgr' e ≡ asked_by_all mgr e ++ asked_by_all b e
builder-complete b mgr mgr' e h =
    let same : mgr ++ b ≡ mgr' = cc in rw (← same) (asked_by_all-append mgr b e)

builder-IsBuilder : IsBuilder builder (λ b. b) asked_by_all
builder-IsBuilder = record {
  fresh = λ mgr. refl;
  for = λ k b. refl;
  named = λ s b. refl;
  complete = λ r b mgr mgr' e h. builder-complete b mgr mgr' e h;
}

abbrev a_key : Bytes × Bytes
a_key = (codes "d", codes "a")

-- The manager watches something else already.
abbrev mgr : List Source
mgr = owned_by a_pod ∷ []

setup_with_manager-requests_example :
    let at : Event = record { kind = an_at; key = a_key; owner = some a_key } in
    let pod : Event = record { kind = a_pod; key = a_key; owner = some a_key } in
    (asked_by_all (mgr ++ objects an_at ∷ []) at ≡ asked_by_all mgr at ++ a_key ∷ [])
    × (asked_by_all (mgr ++ objects an_at ∷ []) pod ≡ asked_by_all mgr pod)
unfolding setup_with_manager
setup_with_manager-requests_example =
    setup_with_manager-requests builder (λ b. b) asked_by_all builder-IsBuilder [] mgr
      (mgr ++ objects an_at ∷ []) a_key (some a_key) refl
