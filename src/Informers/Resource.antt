-- ===== src/Informers/Resource.antt =====
-- ForResource and the typed accessors lead to one informer.
use kubernetes_programming.Prelude.{
  Bytes, Bool, true, false, [], ◌∷◌, Option, none, some, ◌≡◌, refl, ap, sym,
}
use kubernetes_programming.Prelude.Maps.{find}
use kubernetes_programming.Clock.{Duration}
use kubernetes_programming.Informers.{
  InformerLib, SharedInformerFactory, informer_for, new_filtered,
}
use kubernetes_programming.Informers.Share.{informer_for_shares}
use kubernetes_programming.Informers.Ats.{
  at_type, namespace_index, tweaked, GroupVersionResource, ats_resource, same_resource, Handle,
  cnat, v1alpha1, ats, default_informer, informer, for_resource, located,
}

module _ (l : InformerLib) where
  unfoldable pub at_handle : SharedInformerFactory l → Handle l
  at_handle f = ats l (v1alpha1 l (cnat l f))

  pub informer_same :
      (f : SharedInformerFactory l) (g h : Handle l)
      → informer l h (informer l g f).1 ≡ informer l g f
  unfolding informer
  informer_same f g h =
      (informer_for_shares l at_type (default_informer l g) (default_informer l h) f).1

  located_shares :
      (f : SharedInformerFactory l) (h : Handle l) (r : GroupVersionResource) (b : Bool)
      → let x = located l r b f (informer l (at_handle f) f) in
        (b ≡ true
          → (x.0
              ≡ some (record {
                informer = (informer l h x.1).0;
                group = r.group;
                resource = r.resource;
              }))
            × ((informer l h x.1).1 ≡ x.1))
        × (b ≡ false → x ≡ (none, f))
  unfolding located
  located_shares f h r true = (
    λ _. (
      ap
          (λ (y : l.Informer × SharedInformerFactory l).
            some (record { informer = y.0; group = r.group; resource = r.resource }))
          (sym (informer_same f (at_handle f) h)),
      ap (λ (y : l.Informer × SharedInformerFactory l). y.1) (informer_same f (at_handle f) h),
    ),
    λ e. cc,
  )
  located_shares f h r false = (λ e. cc, λ _. refl)

  asked_later :
      (f : SharedInformerFactory l) (h : Handle l) (r : GroupVersionResource)
      → same_resource r ats_resource ≡ true
      → for_resource l r (informer l h f).1 ≡ (
        some (record { informer = (informer l h f).0; group = r.group; resource = r.resource }),
        (informer l h f).1,
      )
  unfolding for_resource located
  asked_later f h r e =
      rw (e, informer_same f h (ats l (v1alpha1 l (cnat l (informer l h f).1)))) refl

  -- ForResource on the resource of Ats and the typed accessor of any handle give one informer, whichever
  -- of the two is asked first, and the later question changes nothing.
  pub for_resource_shares :
      (f : SharedInformerFactory l) (h : Handle l) (r : GroupVersionResource)
      → same_resource r ats_resource ≡ true
      → ((for_resource l r f).0
          ≡ some (record {
            informer = (informer l h (for_resource l r f).1).0;
            group = r.group;
            resource = r.resource;
          }))
        × ((informer l h (for_resource l r f).1).1 ≡ (for_resource l r f).1)
        × (for_resource l r (informer l h f).1 ≡ (
          some (record { informer = (informer l h f).0; group = r.group; resource = r.resource }),
          (informer l h f).1,
        ))
  unfolding for_resource at_handle
  for_resource_shares f h r e =
      let (a, b) = (located_shares f h r (same_resource r ats_resource)).0 e in
      (a, b, asked_later f h r e)

  -- The informer that a filtered factory makes for Ats lists and watches the factory's namespace only,
  -- with the factory's tweak applied to every request, and has the factory's resync period.
  filtered_ats :
      (client : l.Client) (resync : Duration) (ns : Bytes) (tweak : Option (l.Options → l.Options))
      → let f = new_filtered l client resync ns tweak in
        (informer l (at_handle f) f).0
        ≡ l.set_transform
            (l.new_shared_index_informer
              (record {
                list_func = λ o. l.list_ats client ns l.background (tweaked tweak o);
                watch_func = λ o. l.watch_ats client ns l.background (tweaked tweak o);
                list_with_context_func = λ x o. l.list_ats client ns x (tweaked tweak o);
                watch_func_with_context = λ x o. l.watch_ats client ns x (tweaked tweak o);
              })
              client
              resync
              (namespace_index ∷ []))
            none
  unfolding informer at_handle informer_for new_filtered find cnat v1alpha1 ats default_informer
  filtered_ats client resync ns tweak = refl
