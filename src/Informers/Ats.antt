-- ===== src/Informers/Ats.antt =====
-- The informers of Ats: cnat/v1alpha1/at.go, cnat/v1alpha1/interface.go, cnat/interface.go and
-- generic.go, all in pkg/generated/informers/externalversions. A handle holds the factory by a
-- pointer, so each operation takes the factory as it then is and returns it.
use kubernetes_programming.Prelude.{
  Bytes, codes, Bool, true, false, [], ◌∷◌, List, Option, none, some, ◌&&◌, str_eq,
}
use kubernetes_programming.Clock.{Duration}
use kubernetes_programming.Schemes.{scheme_group_version}
use kubernetes_programming.Informers.{InformerLib, SharedInformerFactory, informer_for}

-- reflect.TypeOf(&At{})
abbrev pub at_type : Bytes
at_type = codes "At"

abbrev pub namespace_index : Bytes
namespace_index = codes "namespace"

abbrev pub tweaked : {O : Type 0} → Option (O → O) → O → O
tweaked none o = o
tweaked (some f) o = f o

-- schema.GroupVersionResource
pub record GroupVersionResource : Type 0 where
  pub group : Bytes
  pub version : Bytes
  pub resource : Bytes

-- v1alpha1.SchemeGroupVersion.WithResource("ats")
abbrev pub ats_resource : GroupVersionResource
ats_resource = record {
  group = scheme_group_version.group;
  version = scheme_group_version.version;
  resource = codes "ats";
}

unfoldable pub same_resource : GroupVersionResource → GroupVersionResource → Bool
same_resource a b =
    str_eq a.group b.group && str_eq a.version b.version && str_eq a.resource b.resource

module _ (l : InformerLib) where
  unfoldable pub new_filtered_at_informer :
      l.Client → Bytes → Duration → List Bytes → Option (l.Options → l.Options) → l.Informer
  new_filtered_at_informer client ns resync indexers tweak =
      l.new_shared_index_informer
        (record {
          list_func = λ o. l.list_ats client ns l.background (tweaked tweak o);
          watch_func = λ o. l.watch_ats client ns l.background (tweaked tweak o);
          list_with_context_func = λ x o. l.list_ats client ns x (tweaked tweak o);
          watch_func_with_context = λ x o. l.watch_ats client ns x (tweaked tweak o);
        })
        client resync indexers

  unfoldable pub new_at_informer : l.Client → Bytes → Duration → List Bytes → l.Informer
  unfolding new_filtered_at_informer
  new_at_informer client ns resync indexers =
      new_filtered_at_informer client ns resync indexers none

  -- The same two fields, beside the factory, in `group`, in `version` and in `atInformer`.
  pub record Handle : Type 0 where
    pub namespace : Bytes
    pub tweak_list_options : Option (l.Options → l.Options)

  -- cnat.New, v1alpha1.New
  unfoldable pub new_group : Bytes → Option (l.Options → l.Options) → Handle
  new_group ns tweak = record { namespace = ns; tweak_list_options = tweak }

  unfoldable pub new_version : Bytes → Option (l.Options → l.Options) → Handle
  new_version ns tweak = record { namespace = ns; tweak_list_options = tweak }

  unfoldable pub cnat : SharedInformerFactory l → Handle
  unfolding new_group
  cnat f = new_group f.namespace f.tweak_list_options

  unfoldable pub v1alpha1 : Handle → Handle
  unfolding new_version
  v1alpha1 g = new_version g.namespace g.tweak_list_options

  unfoldable pub ats : Handle → Handle
  ats v = record { namespace = v.namespace; tweak_list_options = v.tweak_list_options }

  unfoldable pub default_informer : Handle → l.Client → Duration → l.Informer
  unfolding new_filtered_at_informer
  default_informer h client resync =
      new_filtered_at_informer client h.namespace resync (namespace_index ∷ []) h.tweak_list_options

  unfoldable pub informer : Handle → SharedInformerFactory l → l.Informer × SharedInformerFactory l
  unfolding default_informer
  informer h f = informer_for l at_type (default_informer h) f

  pub record GenericInformer : Type 0 where
    pub informer : l.Informer
    pub group : Bytes
    pub resource : Bytes

  unfoldable pub located :
      GroupVersionResource
      → Bool
      → SharedInformerFactory l
      → l.Informer × SharedInformerFactory l
      → Option GenericInformer × SharedInformerFactory l
  located r true f x =
      (some (record { informer = x.0; group = r.group; resource = r.resource }), x.1)
  located r false f x = (none, f)

  -- `none` is the error "no informer found".
  unfoldable pub for_resource :
      GroupVersionResource
      → SharedInformerFactory l
      → Option GenericInformer × SharedInformerFactory l
  unfolding located cnat v1alpha1 ats
  for_resource r f =
      located r (same_resource r ats_resource) f (informer (ats (v1alpha1 (cnat f))) f)
