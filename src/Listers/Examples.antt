-- ===== src/Listers/Examples.antt =====
-- Listers over a store that is a function of the key, an indexer being its informer.
use kubernetes_programming.Prelude.{
  Bytes, codes, [], Option, ◌≡◌, refl, Bool, if◌then◌else◌, str_eq, none, some,
}
use kubernetes_programming.Api.{At, phase_running, no_meta}
use kubernetes_programming.Clock.{Duration}
use kubernetes_programming.Clientset.Rest.{made}
use kubernetes_programming.Schemes.{GroupName}
use kubernetes_programming.Informers.Ats.{Handle, informer}
use kubernetes_programming.Informers.Examples.{empty}
use kubernetes_programming.Informers.Examples
use kubernetes_programming.Listers.{ListerLib, ats, get, lister}
use kubernetes_programming.Listers.Shared.{Contents, key_of, answer, Gets, lister_gets}

-- What `get` looks up, in which namespace, and for which resource.
record Look : Type 0 where
  indexer : Duration × Bool
  resource : GroupName
  namespace : Bytes

abbrev Ats : Type 0
Ats = Bytes → Option At

abbrev lib : ListerLib Examples.lib
lib = record {
  Indexer = Duration × Bool;
  ResourceIndexer = Look;
  Store = Ats;
  Error = GroupName × Bytes;
  get_indexer = λ i. i;
  new = λ ix r. record { indexer = ix; resource = r; namespace = [] };
  new_namespaced = λ p ns. record p { namespace = ns };
  get = λ x n s. answer (s (key_of x.namespace n)) (x.resource, n);
}

abbrev contents : Contents lib
contents = record {
  indexer_of = λ x. x.indexer;
  resource_of = λ x. x.resource;
  namespace_of = λ x. x.namespace;
  stored = λ ix key s. s key;
  not_found = λ r n. (r, n);
}

lib-Gets : Gets lib contents
lib-Gets = record {
  new_indexer = λ ix r. refl;
  new_resource = λ ix r. refl;
  same_indexer = λ p ns. refl;
  same_resource = λ p ns. refl;
  namespaced = λ p ns. refl;
  get = λ p n s. refl;
}

abbrev handle : Bytes → Handle Examples.lib
handle ns = record { namespace = ns; tweak_list_options = none }

abbrev space : Bytes
space = codes "d"

abbrev stored_at : At
stored_at = record {
  type_meta = record { kind = []; api_version = [] };
  meta = record no_meta { name = codes "a"; namespace = space };
  spec = record { schedule = []; command = [] };
  status = record { phase = phase_running };
}

abbrev store : Ats
store key = if str_eq key (codes "d/a") then some stored_at else none

lister_gets_example :
    let (i, f) = informer Examples.lib (handle []) empty in
    let (t, f') = lister lib (handle space) f in
    (get lib (ats lib t space) (codes "a") store ≡ made stored_at) × (f' ≡ f)
unfolding str_eq
lister_gets_example =
    lister_gets lib contents lib-Gets empty (handle []) (handle space) space (codes "a") store
