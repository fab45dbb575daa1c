-- ===== src/Informers/Again.antt =====
-- Start may be called several times, and after Shutdown.
use kubernetes_programming.Prelude.{
  Bytes, Bool, true, false, ◌+◌, List, [], ◌∷◌, some, ◌≡◌, refl, arith, str_eq_refl, str_eq→eq,
  length, length-append, ap, ◌∙◌,
}
use kubernetes_programming.Prelude.Maps.{find, put, is_set, is_set-put}
use kubernetes_programming.Informers.{
  InformerLib, SharedInformerFactory, start_one, start_all, start_unless, start, shutdown,
}

module _ (l : InformerLib) where
  started_put :
      (m : List (Bytes × Bool)) (t u : Bytes) → is_set m t ≡ true → is_set (put m u true) t ≡ true
  started_put m t u h = ground (arith, is_set-put m u t)

  start_one-keeps :
      (t u : Bytes) (i : l.Informer) (f : SharedInformerFactory l)
      → is_set f.started_informers t ≡ true
      → is_set (start_one l u i f).0.started_informers t ≡ true
  unfolding start_one
  start_one-keeps t u i f h = ground (arith, started_put f.started_informers t u)

  start_one-starts :
      (t : Bytes) (i : l.Informer) (f : SharedInformerFactory l)
      → is_set (start_one l t i f).0.started_informers t ≡ true
  unfolding start_one
  start_one-starts t i f = ground (arith, is_set-put f.started_informers t t, str_eq_refl t)

  start_all-keeps :
      (t : Bytes) (xs : List (Bytes × l.Informer)) (f : SharedInformerFactory l)
      → is_set f.started_informers t ≡ true
      → is_set (start_all l xs f).0.started_informers t ≡ true
  unfolding start_all
  start_all-keeps t [] f h = h
  start_all-keeps t ((u, i) ∷ more) f h =
      start_all-keeps t more (start_one l u i f).0 (start_one-keeps t u i f h)

  -- Once all of a list are marked, walking it again starts nothing.
  AllStarted : List (Bytes × Bool) → List (Bytes × l.Informer) → Type 0
  AllStarted m [] = Unit
  AllStarted m ((t, _) ∷ more) = (is_set m t ≡ true) × AllStarted m more

  start_all-AllStarted :
      (xs : List (Bytes × l.Informer)) (f : SharedInformerFactory l)
      → AllStarted (start_all l xs f).0.started_informers xs
  unfolding start_all AllStarted
  start_all-AllStarted [] f = tt
  start_all-AllStarted ((t, i) ∷ more) f = (
    start_all-keeps t more _ (start_one-starts t i f),
    start_all-AllStarted more (start_one l t i f).0,
  )

  AllStarted-find :
      (t : Bytes) (i : l.Informer) (xs : List (Bytes × l.Informer)) (m : List (Bytes × Bool))
      → AllStarted m xs
      → find xs t ≡ some i
      → is_set m t ≡ true
  unfolding AllStarted find
  AllStarted-find t i [] m h e = cc
  AllStarted-find t i ((u, j) ∷ more) m (h, hs) e =
      ground (arith, str_eq→eq u t, AllStarted-find t i more m hs)

  start_all-nothing :
      (xs : List (Bytes × l.Informer)) (f : SharedInformerFactory l)
      → AllStarted f.started_informers xs
      → start_all l xs f ≡ (f, [])
  unfolding start_all start_one AllStarted
  start_all-nothing [] f h = refl
  start_all-nothing ((t, i) ∷ more) f (h, hs) = simp h (simp (start_all-nothing more f hs))

  start_all-fields :
      (xs : List (Bytes × l.Informer)) (f : SharedInformerFactory l)
      → ((start_all l xs f).0.informers ≡ f.informers)
        × ((start_all l xs f).0.shutting_down ≡ f.shutting_down)
  unfolding start_all start_one
  start_all-fields [] f = (refl, refl)
  start_all-fields ((t, i) ∷ more) f =
      let (a, b) = start_all-fields more (start_one l t i f).0 in
      (a ∙ unfold start_one in ground arith, b ∙ unfold start_one in ground arith)

  start_one-wg :
      (t : Bytes) (i : l.Informer) (f : SharedInformerFactory l)
      → (start_one l t i f).0.wg ≡ f.wg + length (start_one l t i f).1
  unfolding start_one
  start_one-wg t i f = ground arith

  start_all-wg :
      (xs : List (Bytes × l.Informer)) (f : SharedInformerFactory l)
      → (start_all l xs f).0.wg ≡ f.wg + length (start_all l xs f).1
  unfolding start_all
  start_all-wg [] f = omega arith
  start_all-wg ((t, i) ∷ more) f = omega (
    arith,
    start_one-wg t i f,
    start_all-wg more (start_one l t i f).0,
    length-append (start_one l t i f).1 (start_all l more (start_one l t i f).0).1,
  )

  unless-wg :
      (b : Bool) (f : SharedInformerFactory l)
      → (start_unless l b f).0.wg ≡ f.wg + length (start_unless l b f).1
  unfolding start_unless
  unless-wg true f = omega arith
  unless-wg false f = start_all-wg f.informers f

  unless-down :
      (b : Bool) (f : SharedInformerFactory l)
      → (start_unless l b f).0.shutting_down ≡ f.shutting_down
  unfolding start_unless
  unless-down true f = refl
  unless-down false f = (start_all-fields f.informers f).1

  unless_twice :
      (b : Bool) (f : SharedInformerFactory l)
      → start_unless l b (start_unless l b f).0 ≡ ((start_unless l b f).0, [])
  unfolding start_unless
  unless_twice true f = refl
  unless_twice false f =
      ap (λ xs. start_all l xs (start_all l f.informers f).0) (start_all-fields f.informers f).0
      ∙ start_all-nothing f.informers _ (start_all-AllStarted f.informers f)

  -- Start may be called again at any time: a second call starts nothing and changes nothing.
  start_twice : (f : SharedInformerFactory l) → start l (start l f).0 ≡ ((start l f).0, [])
  unfolding start
  start_twice f =
      ap (λ b. start_unless l b (start_unless l f.shutting_down f).0)
        (unless-down f.shutting_down f)
      ∙ unless_twice f.shutting_down f

  unless_starts :
      (t : Bytes) (i : l.Informer) (b : Bool) (f : SharedInformerFactory l)
      → b ≡ false
      → find f.informers t ≡ some i
      → is_set (start_unless l b f).0.started_informers t ≡ true
  unfolding start_unless
  unless_starts t i true f h e = cc
  unless_starts t i false f h e =
      AllStarted-find t i f.informers _ (start_all-AllStarted f.informers f) e

  -- What Start does to a factory that is not shutting down and holds an informer for a type: that
  -- informer is marked as started afterwards, and the wait group counts one goroutine more for each
  -- informer that Start runs. After Shutdown, Start does nothing.
  start_effect :
      (f : SharedInformerFactory l) (t : Bytes) (i : l.Informer)
      → f.shutting_down ≡ false
      → find f.informers t ≡ some i
      → (is_set (start l f).0.started_informers t ≡ true)
        × ((start l f).0.wg ≡ f.wg + length (start l f).1)
        × (start l (shutdown l f) ≡ (shutdown l f, []))
  unfolding start shutdown
  start_effect f t i d e = (
    unless_starts t i f.shutting_down f d e,
    unless-wg f.shutting_down f,
    unfold start_unless in refl,
  )
