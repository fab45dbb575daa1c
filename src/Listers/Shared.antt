-- ===== src/Listers/Shared.antt =====
-- The listers of one factory read the cache of its one informer of Ats.
use kubernetes_programming.Prelude.{
  if◌then◌else◌, str_eq, Bytes, codes, [], ◌++◌, Option, none, some, ◌≡◌, refl,
}
use kubernetes_programming.Api.{At}
use kubernetes_programming.Clientset.Rest.{Result, made, failed}
use kubernetes_programming.Schemes.{GroupName, resource}
use kubernetes_programming.Informers.{InformerLib, SharedInformerFactory}
use kubernetes_programming.Informers.Ats.{Handle, informer}
use kubernetes_programming.Informers.Resource.{informer_same}
use kubernetes_programming.Listers.{ListerLib, new_at_lister, ats, get, lister}

-- What can be seen of a resource indexer and of an indexer, and the error NotFound.
pub record Contents {l : InformerLib} (lib : ListerLib l) : Type 0 where
  pub indexer_of : lib.ResourceIndexer → lib.Indexer
  pub resource_of : lib.ResourceIndexer → GroupName
  pub namespace_of : lib.ResourceIndexer → Bytes
  pub stored : lib.Indexer → Bytes → lib.Store → Option At
  pub not_found : GroupName → Bytes → lib.Error

abbrev pub answer : {E : Type 0} → Option At → E → Result E At
answer none e = failed e
answer (some at) e = made at

-- The key of an object: its name, behind its namespace and a slash if it has one.
abbrev pub key_of : Bytes → Bytes → Bytes
key_of ns n = if str_eq ns [] then n else ns ++ codes "/" ++ n

-- The documented behaviour of New, of NewNamespaced and of Get.
pub record Gets {l : InformerLib} (lib : ListerLib l) (c : Contents lib) : Type 0 where
  pub new_indexer : (ix : lib.Indexer) (r : GroupName) → c.indexer_of (lib.new ix r) ≡ ix
  pub new_resource : (ix : lib.Indexer) (r : GroupName) → c.resource_of (lib.new ix r) ≡ r
  pub same_indexer :
      (p : lib.ResourceIndexer) (ns : Bytes)
      → c.indexer_of (lib.new_namespaced p ns) ≡ c.indexer_of p
  pub same_resource :
      (p : lib.ResourceIndexer) (ns : Bytes)
      → c.resource_of (lib.new_namespaced p ns) ≡ c.resource_of p
  pub namespaced :
      (p : lib.ResourceIndexer) (ns : Bytes) → c.namespace_of (lib.new_namespaced p ns) ≡ ns
  pub get :
      (p : lib.ResourceIndexer) (n : Bytes) (s : lib.Store)
      → lib.get p n s
        ≡ answer
            (c.stored (c.indexer_of p) (key_of (c.namespace_of p) n) s)
            (c.not_found (c.resource_of p) n)

module _ {l : InformerLib} (lib : ListerLib l) (c : Contents lib) (gets : Gets lib c) where
  -- A lister that is asked of any handle, after another handle of the same factory has been asked for
  -- the informer, gets what the indexer of that informer holds under the key of the namespace and the
  -- name, or the error NotFound for the resource "at" of the group and the name; asking for the lister
  -- does not change the factory. For the empty namespace the key is the bare name.
  pub lister_gets :
      (f : SharedInformerFactory l) (g h : Handle l) (ns n : Bytes) (s : lib.Store)
      → let (i, f') = informer l g f in
        let (t, f'') = lister lib h f' in
        (get lib (ats lib t ns) n s
          ≡ answer
              (c.stored (lib.get_indexer i) (key_of ns n) s)
              (c.not_found (resource (codes "at")) n))
        × (f'' ≡ f')
  unfolding lister ats new_at_lister
  lister_gets f g h ns n s =
      rw
        (
          informer_same l f g h,
          gets.get,
          gets.namespaced,
          gets.same_indexer,
          gets.same_resource,
          gets.new_indexer,
          gets.new_resource,
        )
        (refl, refl)
