-- ===== src/Informers/Share.antt =====
-- InformerFor shares, options configure, and WaitForCacheSync answers for what was started.
use kubernetes_programming.Prelude.{
  Bytes, Bool, List, [], ◌∷◌, Option, none, some, if◌then◌else◌, ◌≡◌, refl, arith, str_eq,
  str_eq_refl, str_eq→eq, ap,
}
use kubernetes_programming.Prelude.Maps.{find, is_set, find-put, find-put_self}
use kubernetes_programming.Clock.{Duration}
use kubernetes_programming.Informers.{
  InformerLib, SharedInformerFactory, informer_for, existing, make, sync_results,
  wait_for_cache_sync,
}

module _ (l : InformerLib) where
  existing-stored :
      (t : Bytes) (g : l.Client → Duration → l.Informer) (f : SharedInformerFactory l)
      (o : Option l.Informer)
      → find f.informers t ≡ o
      → find (existing l t g f o).1.informers t ≡ some (existing l t g f o).0
  unfolding existing
  existing-stored t g f (some i) h = h
  existing-stored t g f none h = find-put_self f.informers t (make l t g f)

  existing-others :
      (t u : Bytes) (g : l.Client → Duration → l.Informer) (f : SharedInformerFactory l)
      (o : Option l.Informer)
      → find f.informers t ≡ o
      → find (existing l t g f o).1.informers u
        ≡ (if str_eq t u then some (existing l t g f o).0 else find f.informers u)
  unfolding existing
  existing-others t u g f (some i) h = ground (arith, str_eq→eq t u)
  existing-others t u g f none h = find-put f.informers t u (make l t g f)

  -- InformerFor returns the informer that the factory then holds for the type. A later call for the
  -- type returns it again, whatever constructor it brings, and changes nothing; the informers of other
  -- types stay.
  pub informer_for_shares :
      (t : Bytes) (g h : l.Client → Duration → l.Informer) (f : SharedInformerFactory l)
      → (find (informer_for l t g f).1.informers t ≡ some (informer_for l t g f).0)
        × (informer_for l t h (informer_for l t g f).1 ≡ informer_for l t g f)
        × ((u : Bytes)
            → find (informer_for l t g f).1.informers u
              ≡ (if str_eq t u then some (informer_for l t g f).0 else find f.informers u))
  unfolding informer_for
  informer_for_shares t g h f =
      let stored = existing-stored t g f _ refl in
      (
        stored,
        ap (existing l t h (existing l t g f (find f.informers t)).1) stored,
        λ u. existing-others t u g f _ refl,
      )

  sync_results-find :
      (wait : l.Informer → Bool) (m : List (Bytes × Bool)) (xs : List (Bytes × l.Informer))
      (t : Bytes)
      → find (sync_results l wait m xs) t
        ≡ (if is_set m t then (elim (find xs t) [ none ↦ none | some i ↦ some (wait i) ]) else none)
  unfolding sync_results find
  sync_results-find wait m [] t = ground arith
  sync_results-find wait m ((u, i) ∷ more) t =
      ground (arith, sync_results-find wait m more t, str_eq→eq u t, str_eq_refl t)

  -- WaitForCacheSync has an entry for exactly the types whose informer is marked as started, and it is
  -- what the wait for that informer gave.
  wait_for_cache_sync_answers :
      (wait : l.Informer → Bool) (f : SharedInformerFactory l) (t : Bytes)
      → find (wait_for_cache_sync l wait f) t ≡ (
          if is_set f.started_informers t
          then (elim (find f.informers t) [ none ↦ none | some i ↦ some (wait i) ])
          else none)
  unfolding wait_for_cache_sync
  wait_for_cache_sync_answers wait f t = sync_results-find wait f.started_informers f.informers t
