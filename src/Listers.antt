-- ===== src/Listers.antt =====
-- pkg/generated/listers/cnat/v1alpha1/at.go, over the generic lister of client-go, and the method
-- Lister of the informer of Ats.
pub mod Shared
mod Examples
use kubernetes_programming.Prelude.{Bytes, codes}
use kubernetes_programming.Api.{At}
use kubernetes_programming.Clientset.Rest.{Result}
use kubernetes_programming.Schemes.{GroupName, resource}
use kubernetes_programming.Informers.{InformerLib, SharedInformerFactory}
use kubernetes_programming.Informers.Ats.{Handle, informer}

-- GetIndexer; listers.New and NewNamespaced; and the method Get of what they make. `Store`
-- is what the indexers hold at present.
pub record ListerLib (l : InformerLib) : Type 1 where
  pub Indexer : Type 0
  pub ResourceIndexer : Type 0
  pub Store : Type 0
  pub Error : Type 0
  pub get_indexer : l.Informer → Indexer
  pub new : Indexer → GroupName → ResourceIndexer
  pub new_namespaced : ResourceIndexer → Bytes → ResourceIndexer
  pub get : ResourceIndexer → Bytes → Store → Result Error At

module _ {l : InformerLib} (lib : ListerLib l) where
  pub record AtLister : Type 0 where
    pub resource_indexer : lib.ResourceIndexer

  pub record AtNamespaceLister : Type 0 where
    pub resource_indexer : lib.ResourceIndexer

  unfoldable pub new_at_lister : lib.Indexer → AtLister
  unfolding resource
  new_at_lister indexer = record { resource_indexer = lib.new indexer (resource (codes "at")) }

  unfoldable pub ats : AtLister → Bytes → AtNamespaceLister
  ats s namespace = record { resource_indexer = lib.new_namespaced s.resource_indexer namespace }

  -- The method Get that AtNamespaceLister has from the indexer in it.
  abbrev pub get : AtNamespaceLister → Bytes → lib.Store → Result lib.Error At
  get s name store = lib.get s.resource_indexer name store

  unfoldable pub lister : Handle l → SharedInformerFactory l → AtLister × SharedInformerFactory l
  unfolding new_at_lister
  lister h f = let (i, f') = informer l h f in (new_at_lister (lib.get_indexer i), f')
