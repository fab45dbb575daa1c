-- ===== src/Kube/Memory.antt =====
-- A cluster in memory that meets the laws: it shows that they can hold, and runs the examples.
use kubernetes_programming.Prelude.{
  Bytes, true, List, [], ◌∷◌, ◌++◌, Option, none, some, ◌≡◌, refl, arith, str_eq, if◌then◌else◌,
}
use kubernetes_programming.Text.{split}
use kubernetes_programming.Api.{At, OwnerReference}
use kubernetes_programming.Kube.{
  Pod, ApiError, not_found, failure, Result, ok, err, Object, an_at, a_pod, tombstone, foreign,
  Machinery, Cluster,
}
use kubernetes_programming.Kube.Laws.{View, IsServer, same_key, same_key→eq, ListsByKey}

-- Stored and cached objects, by namespace and name.
pub record Memory : Type 0 where
  pub phases : Bytes → Bytes → Option Bytes
  pub pods : Bytes → Bytes → Option Pod
  pub cached : List At

unfoldable pub find_at : List At → Bytes → Bytes → Result At
find_at [] ns n = err not_found
find_at (a ∷ l) ns n =
    let rest = find_at l ns n in if same_key a.meta.namespace a.meta.name ns n then ok a else rest

abbrev pub put :
    {A : Type 0} → (Bytes → Bytes → Option A) → Bytes → Bytes → A → Bytes → Bytes → Option A
put f a b v ns n = if same_key a b ns n then some v else f ns n

abbrev pub get_result : Option Pod → Result Pod
get_result none = err not_found
get_result (some p) = ok p

abbrev pub create_result : Pod → Option Pod → Memory → Result Pod × Memory
create_result p (some _) w = (err (failure 409), w)
create_result p none w = (ok p, record w { pods = put w.pods p.meta.namespace p.meta.name p })

abbrev pub update_result : At → Option Bytes → Memory → Result At × Memory
update_result at none w = (err not_found, w)
update_result at (some _) w =
    (ok at, record w { phases = put w.phases at.meta.namespace at.meta.name at.status.phase })

abbrev pub memory : Cluster Memory
memory = record {
  lister_get = λ ns n w. find_at w.cached ns n;
  get_pod = λ ns n w. (get_result (w.pods ns n), w);
  create_pod = λ p w. create_result p (w.pods p.meta.namespace p.meta.name) w;
  update_status = λ at w. update_result at (w.phases at.meta.namespace at.meta.name) w;
}

abbrev pub memory_view : View Memory
memory_view = record { phase_of = λ w. w.phases; pod_of = λ w. w.pods }

create_result-phases :
    (p : Pod) (o : Option Pod) (w : Memory) (ns n : Bytes)
    → (create_result p o w).1.phases ns n ≡ w.phases ns n
create_result-phases p none w ns n = refl
create_result-phases p (some _) w ns n = refl

create_result-err :
    (p : Pod) (o : Option Pod) (w : Memory) (e : ApiError)
    → (create_result p o w).0 ≡ err e
    → (ns n : Bytes) → (create_result p o w).1.pods ns n ≡ w.pods ns n
create_result-err p none w e h ns n = cc
create_result-err p (some _) w e h ns n = refl

create_result-ok :
    (p : Pod) (o : Option Pod) (w : Memory) (q : Pod)
    → (create_result p o w).0 ≡ ok q
    → (ns n : Bytes)
    → (create_result p o w).1.pods ns n
      ≡ (if same_key p.meta.namespace p.meta.name ns n then some q else w.pods ns n)
create_result-ok p none w q h ns n = ground arith
create_result-ok p (some _) w q h ns n = cc

update_result-pods :
    (at : At) (o : Option Bytes) (w : Memory) (ns n : Bytes)
    → (update_result at o w).1.pods ns n ≡ w.pods ns n
update_result-pods at none w ns n = refl
update_result-pods at (some _) w ns n = refl

update_result-err :
    (at : At) (o : Option Bytes) (w : Memory) (e : ApiError)
    → (update_result at o w).0 ≡ err e
    → (ns n : Bytes) → (update_result at o w).1.phases ns n ≡ w.phases ns n
update_result-err at none w e h ns n = refl
update_result-err at (some _) w e h ns n = cc

update_result-ok :
    (at : At) (o : Option Bytes) (w : Memory) (a : At)
    → (update_result at o w).0 ≡ ok a
    → (ns n : Bytes)
    → (update_result at o w).1.phases ns n ≡ (
        if same_key at.meta.namespace at.meta.name ns n
        then some at.status.phase
        else w.phases ns n)
update_result-ok at none w a h ns n = cc
update_result-ok at (some _) w a h ns n = refl

get_result-ok : (o : Option Pod) (p : Pod) → get_result o ≡ ok p → o ≡ some p
get_result-ok o p h = ground arith

get_result-missing : (o : Option Pod) → get_result o ≡ err not_found → o ≡ none
get_result-missing o h = ground arith

pub memory-IsServer : IsServer memory memory_view
memory-IsServer = record {
  get_phases = λ ns n w a b. refl;
  get_pods = λ ns n w a b. refl;
  get_ok = λ ns n w p h. get_result-ok _ p h;
  get_missing = λ ns n w h. get_result-missing _ h;
  create_phases = λ p w. create_result-phases p _ w;
  create_err = λ p w e h. create_result-err p _ w e h;
  create_ok = λ p w q h. create_result-ok p _ w q h;
  update_pods = λ at w. update_result-pods at _ w;
  update_err = λ at w e h. update_result-err at _ w e h;
  update_ok = λ at w a h. update_result-ok at _ w a h;
}

find_at-keyed :
    (l : List At) (ns n : Bytes) (at : At)
    → find_at l ns n ≡ ok at
    → (at.meta.namespace ≡ ns) × (at.meta.name ≡ n)
unfolding find_at
find_at-keyed [] ns n at h = cc
find_at-keyed (a ∷ l) ns n at h =
    ground (arith, same_key→eq a.meta.namespace a.meta.name ns n, find_at-keyed l ns n at)

pub find_at_single :
    (a at : At) (ns n : Bytes)
    → find_at (a ∷ []) ns n ≡ ok at
    → (at ≡ a) × (a.meta.namespace ≡ ns) × (a.meta.name ≡ n)
unfolding find_at
find_at_single a at ns n h = ground (arith, same_key→eq a.meta.namespace a.meta.name ns n)

pub create_result-cached :
    (p : Pod) (o : Option Pod) (w : Memory) → (create_result p o w).1.cached ≡ w.cached
create_result-cached p none w = refl
create_result-cached p (some _) w = refl

pub update_result-cached :
    (at : At) (o : Option Bytes) (w : Memory) → (update_result at o w).1.cached ≡ w.cached
update_result-cached at none w = refl
update_result-cached at (some _) w = refl

pub memory-ListsByKey : ListsByKey memory
memory-ListsByKey ns n w at h = find_at-keyed w.cached ns n at h

abbrev split_parts : List Bytes → Option (Bytes × Bytes)
split_parts (n ∷ []) = some ([], n)
split_parts (ns ∷ n ∷ []) = some (ns, n)
split_parts _ = none

abbrev join_key : Bytes → Bytes → Bytes
join_key ns n = if str_eq ns [] then n else ns ++ b'/' ∷ n

abbrev object_key : Object → Option Bytes
object_key (an_at a) = some (join_key a.meta.namespace a.meta.name)
object_key (a_pod p) = some (join_key p.meta.namespace p.meta.name)
object_key (tombstone o) = none
object_key (foreign n) = none

abbrev controlling : List OwnerReference → Option OwnerReference
controlling [] = none
controlling (r ∷ rs) = let rest = controlling rs in if r.controller then some r else rest

abbrev controlled_by : Option (List OwnerReference) → Option OwnerReference
controlled_by none = none
controlled_by (some rs) = controlling rs

abbrev pub machinery : Machinery
machinery = record {
  split_key = λ key. split_parts (split key b'/');
  meta_key = object_key;
  new_controller_ref = λ at gvk. record {
    api_version = gvk.group ++ b'/' ∷ gvk.version;
    kind = gvk.kind;
    name = at.meta.name;
    uid = at.meta.uid;
    controller = true;
  };
  get_controller_of = λ p. controlled_by p.meta.owner_references;
}
