-- ===== src/Informers/Examples.antt =====
-- Factories over informers that are their own description.
mod Runs
use kubernetes_programming.Prelude.{
  Bytes, codes, Bool, true, false, ℕ, ◌+◌, ◌≤◌, List, [], ◌∷◌, none, some, ◌≡◌, refl, str_eq,
  if◌then◌else◌,
}
use kubernetes_programming.Prelude.Int.{pos}
use kubernetes_programming.Prelude.Maps.{find, is_set}
use kubernetes_programming.Clock.{Duration}
use kubernetes_programming.Informers.{InformerLib, SharedInformerFactory, informer_for}
use kubernetes_programming.Informers.Start.{
  launches, flag, Call, starts, shuts_down, returns, asks, after_all, runs_once,
}
use kubernetes_programming.Informers.Share.{informer_for_shares}
use kubernetes_programming.Informers.Ats.{
  Handle, informer, for_resource, ats_resource, same_resource,
}
use kubernetes_programming.Informers.Resource.{for_resource_shares}

-- An informer remembers its resync period and whether it has been given a transform; a request is its
-- namespace and options.
abbrev pub lib : InformerLib
lib = record {
  Client = ℕ;
  Informer = Duration × Bool;
  Transform = ℕ;
  Context = ℕ;
  Options = ℕ;
  Listed = Bytes × ℕ;
  Watched = Bytes × ℕ;
  background = 0;
  list_ats = λ c ns x o. (ns, o);
  watch_ats = λ c ns x o. (ns, o);
  new_shared_index_informer = λ lw c d ixs. (d, false);
  set_transform = λ i t. (i.0, true);
}

abbrev pub pods : Bytes
pods = codes "Pod"

abbrev pub make_pods : ℕ → Duration → Duration × Bool
make_pods c d = (d, false)

abbrev slow_pods : ℕ → Duration → Duration × Bool
slow_pods c d = (pos 9, false)

abbrev pub empty : SharedInformerFactory lib
empty = record {
  client = 1;
  namespace = [];
  tweak_list_options = none;
  default_resync = pos 30;
  custom_resync = [];
  transform = none;
  informers = [];
  started_informers = [];
  wg = 0;
  shutting_down = false;
}

abbrev pub with_pods : SharedInformerFactory lib
with_pods = record empty { informers = (pods, (pos 30, false)) ∷ [] }

-- Start, a second informer, Start again, Shutdown, Start.
abbrev calls : List (Call lib)
calls = starts ∷ asks (codes "At") make_pods ∷ starts ∷ returns ∷ shuts_down ∷ starts ∷ []

runs_once_example :
    (launches pods (after_all lib calls with_pods).1 ≤ 1)
    × (launches pods (after_all lib calls with_pods).1
          + flag (is_set with_pods.started_informers pods)
        ≡ flag (is_set (after_all lib calls with_pods).0.started_informers pods))
runs_once_example = runs_once lib pods calls with_pods

informer_for_shares_example :
    (find (informer_for lib pods make_pods empty).1.informers pods
      ≡ some (informer_for lib pods make_pods empty).0)
    × (informer_for lib pods slow_pods (informer_for lib pods make_pods empty).1
        ≡ informer_for lib pods make_pods empty)
    × ((u : Bytes)
        → find (informer_for lib pods make_pods empty).1.informers u ≡ (
            if str_eq pods u
            then some (informer_for lib pods make_pods empty).0
            else find empty.informers u))
informer_for_shares_example = informer_for_shares lib pods make_pods slow_pods empty

ats_same : same_resource ats_resource ats_resource ≡ true
unfolding str_eq same_resource
ats_same = refl

abbrev handle : Handle lib
handle = record { namespace = codes "d"; tweak_list_options = none }

for_resource_shares_example :
    ((for_resource lib ats_resource empty).0
      ≡ some (record {
        informer = (informer lib handle (for_resource lib ats_resource empty).1).0;
        group = ats_resource.group;
        resource = ats_resource.resource;
      }))
    × ((informer lib handle (for_resource lib ats_resource empty).1).1
        ≡ (for_resource lib ats_resource empty).1)
    × (for_resource lib ats_resource (informer lib handle empty).1 ≡ (
      some (record {
        informer = (informer lib handle empty).0;
        group = ats_resource.group;
        resource = ats_resource.resource;
      }),
      (informer lib handle empty).1,
    ))
for_resource_shares_example = for_resource_shares lib empty handle ats_resource ats_same
