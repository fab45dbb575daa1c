-- ===== src/Informers.antt =====
-- pkg/generated/informers/externalversions/factory.go: the shared informer factory. A reflect.Type is
-- its name; informers, clients, transforms and list options are abstract. Go leaves the order of a
-- walk over a map open: here it is the order of the list.
pub mod Start
pub mod Again
pub mod Share
pub mod Threads
pub mod Ats
pub mod Resource
pub mod Examples
use kubernetes_programming.Prelude.{
  Bytes, Bool, true, false, ℕ, ◌+◌, ◌-◌, ◌==◌, List, [], ◌∷◌, ◌++◌, Option, none, some,
  if◌then◌else◌,
}
use kubernetes_programming.Prelude.Maps.{find, put, is_set}
use kubernetes_programming.Clock.{Duration}

-- cache.ListWatch.
pub record ListWatch (Context Options Listed Watched : Type 0) : Type 0 where
  pub list_func : Options → Listed
  pub watch_func : Options → Watched
  pub list_with_context_func : Context → Options → Listed
  pub watch_func_with_context : Context → Options → Watched

-- What the factory is built over: the clientset's List and Watch of Ats in a namespace, the informers
-- of client-go's cache package, and their types.
pub record InformerLib : Type 1 where
  pub Client : Type 0
  pub Informer : Type 0
  pub Transform : Type 0
  pub Context : Type 0
  pub Options : Type 0
  pub Listed : Type 0
  pub Watched : Type 0
  pub background : Context
  pub list_ats : Client → Bytes → Context → Options → Listed
  pub watch_ats : Client → Bytes → Context → Options → Watched
  pub new_shared_index_informer :
      ListWatch Context Options Listed Watched → Client → Duration → List Bytes → Informer
  pub set_transform : Informer → Option Transform → Informer

pub record SharedInformerFactory (l : InformerLib) : Type 0 where
  pub client : l.Client
  pub namespace : Bytes
  pub tweak_list_options : Option (l.Options → l.Options)
  pub default_resync : Duration
  pub custom_resync : List (Bytes × Duration)
  pub transform : Option l.Transform
  pub informers : List (Bytes × l.Informer)
  pub started_informers : List (Bytes × Bool)
  -- the counter of the wait group: goroutines that have not returned
  pub wg : ℕ
  pub shutting_down : Bool

put_all : List (Bytes × Duration) → List (Bytes × Duration) → List (Bytes × Duration)
put_all m [] = m
put_all m ((t, d) ∷ more) = put_all (put m t d) more

abbrev resync_of : Option Duration → Duration → Duration
resync_of none default = default
resync_of (some d) default = d

module _ (l : InformerLib) where
  abbrev pub SharedInformerOption : Type 0
  SharedInformerOption = SharedInformerFactory l → SharedInformerFactory l

  unfoldable pub with_custom_resync_config : List (Bytes × Duration) → SharedInformerOption
  unfolding put_all
  with_custom_resync_config config f = record f { custom_resync = put_all f.custom_resync config }

  unfoldable pub with_tweak_list_options : Option (l.Options → l.Options) → SharedInformerOption
  with_tweak_list_options tweak f = record f { tweak_list_options = tweak }

  unfoldable pub with_namespace : Bytes → SharedInformerOption
  with_namespace ns f = record f { namespace = ns }

  unfoldable pub with_transform : Option l.Transform → SharedInformerOption
  with_transform t f = record f { transform = t }

  apply_all : List SharedInformerOption → SharedInformerOption
  apply_all [] f = f
  apply_all (option ∷ options) f = apply_all options (option f)

  unfoldable pub new_with_options :
      l.Client → Duration → List SharedInformerOption → SharedInformerFactory l
  unfolding apply_all
  new_with_options client resync options = apply_all options (record {
    client = client;
    namespace = [];
    tweak_list_options = none;
    default_resync = resync;
    custom_resync = [];
    transform = none;
    informers = [];
    started_informers = [];
    wg = 0;
    shutting_down = false;
  })

  unfoldable pub new_shared_informer_factory : l.Client → Duration → SharedInformerFactory l
  unfolding new_with_options
  new_shared_informer_factory client resync = new_with_options client resync []

  unfoldable pub new_filtered :
      l.Client → Duration → Bytes → Option (l.Options → l.Options) → SharedInformerFactory l
  unfolding new_with_options with_namespace with_tweak_list_options
  new_filtered client resync ns tweak =
      new_with_options client resync (with_namespace ns ∷ with_tweak_list_options tweak ∷ [])

  -- One round of the loop of Start; the second part lists the informers whose Run is now a goroutine.
  start_one :
      Bytes
      → l.Informer
      → SharedInformerFactory l
      → SharedInformerFactory l × List (Bytes × l.Informer)
  start_one t i f = if is_set f.started_informers t then (f, []) else (
    record f { wg = f.wg + 1; started_informers = put f.started_informers t true },
    (t, i) ∷ [],
  )

  start_all :
      List (Bytes × l.Informer)
      → SharedInformerFactory l
      → SharedInformerFactory l × List (Bytes × l.Informer)
  start_all [] f = (f, [])
  start_all ((t, i) ∷ more) f =
      let one = start_one t i f in let rest = start_all more one.0 in (rest.0, one.1 ++ rest.1)

  start_unless :
      Bool → SharedInformerFactory l → SharedInformerFactory l × List (Bytes × l.Informer)
  start_unless true f = (f, [])
  start_unless false f = start_all f.informers f

  unfoldable pub start :
      SharedInformerFactory l → SharedInformerFactory l × List (Bytes × l.Informer)
  unfolding start_unless start_all start_one
  start f = start_unless f.shutting_down f

  -- A goroutine returns: the deferred wg.Done.
  unfoldable pub informer_returns : SharedInformerOption
  informer_returns f = record f { wg = f.wg - 1 }

  -- The part of Shutdown before it waits, and whether wg.Wait returns at once.
  unfoldable pub shutdown : SharedInformerOption
  shutdown f = record f { shutting_down = true }

  unfoldable pub shutdown_returns : SharedInformerFactory l → Bool
  shutdown_returns f = f.wg == 0

  -- Of the started informers, what cache.WaitForCacheSync says of each.
  sync_results :
      (l.Informer → Bool) → List (Bytes × Bool) → List (Bytes × l.Informer) → List (Bytes × Bool)
  sync_results wait started [] = []
  sync_results wait started ((t, i) ∷ more) =
      let rest = sync_results wait started more in
      if is_set started t then (t, wait i) ∷ rest else rest

  unfoldable pub wait_for_cache_sync :
      (l.Informer → Bool) → SharedInformerFactory l → List (Bytes × Bool)
  unfolding sync_results
  wait_for_cache_sync wait f = sync_results wait f.started_informers f.informers

  -- An informer that InformerFor makes.
  make : Bytes → (l.Client → Duration → l.Informer) → SharedInformerFactory l → l.Informer
  make t new_func f =
      l.set_transform (new_func f.client (resync_of (find f.custom_resync t) f.default_resync))
        f.transform

  existing :
      Bytes
      → (l.Client → Duration → l.Informer)
      → SharedInformerFactory l
      → Option l.Informer
      → l.Informer × SharedInformerFactory l
  existing t new_func f (some i) = (i, f)
  existing t new_func f none =
      let i = make t new_func f in (i, record f { informers = put f.informers t i })

  unfoldable pub informer_for :
      Bytes
      → (l.Client → Duration → l.Informer)
      → SharedInformerFactory l
      → l.Informer × SharedInformerFactory l
  unfolding existing make
  informer_for t new_func f = existing t new_func f (find f.informers t)
