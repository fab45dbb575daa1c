-- ===== src/Informers/Start.antt =====
-- Start, Shutdown and WaitForCacheSync: every informer is run once.
use kubernetes_programming.Prelude.{
  Bytes, Bool, true, false, ℕ, ◌+◌, ◌≤◌, List, [], ◌∷◌, ◌++◌, if◌then◌else◌, ◌≡◌, arith, str_eq,
  str_eq→eq,
}
use kubernetes_programming.Prelude.Maps.{is_set, is_set-put}
use kubernetes_programming.Clock.{Duration}
use kubernetes_programming.Informers.{
  InformerLib, SharedInformerFactory, start_one, start_all, start_unless, start, shutdown,
  informer_returns, informer_for,
}

-- How often a type stands in a list of started goroutines.
pub launches : {V : Type 0} → Bytes → List (Bytes × V) → ℕ
launches t [] = 0
launches t ((u, _) ∷ more) = (if str_eq u t then 1 else 0) + launches t more

launches-append :
    {V : Type 0} (t : Bytes) (xs ys : List (Bytes × V))
    → launches t (xs ++ ys) ≡ launches t xs + launches t ys
unfolding launches
launches-append t [] ys = omega arith
launches-append t ((u, _) ∷ xs) ys = omega (arith, launches-append t xs ys)

abbrev pub flag : Bool → ℕ
flag b = if b then 1 else 0

module _ (l : InformerLib) where
  start_one-launches :
      (t u : Bytes) (i : l.Informer) (f : SharedInformerFactory l)
      → launches t (start_one l u i f).1 + flag (is_set f.started_informers t)
        ≡ flag (is_set (start_one l u i f).0.started_informers t)
  unfolding start_one launches
  start_one-launches t u i f = ground (arith, is_set-put f.started_informers u t, str_eq→eq u t)

  start_all-launches :
      (t : Bytes) (xs : List (Bytes × l.Informer)) (f : SharedInformerFactory l)
      → launches t (start_all l xs f).1 + flag (is_set f.started_informers t)
        ≡ flag (is_set (start_all l xs f).0.started_informers t)
  unfolding start_all
  start_all-launches t [] f = unfold launches in omega arith
  start_all-launches t ((u, i) ∷ more) f =
      let one = start_one l u i f in
      omega (
        arith,
        start_one-launches t u i f,
        start_all-launches t more one.0,
        launches-append t one.1 (start_all l more one.0).1,
      )

  start_unless-launches :
      (t : Bytes) (b : Bool) (f : SharedInformerFactory l)
      → launches t (start_unless l b f).1 + flag (is_set f.started_informers t)
        ≡ flag (is_set (start_unless l b f).0.started_informers t)
  unfolding start_unless
  start_unless-launches t true f = unfold launches in omega arith
  start_unless-launches t false f = start_all-launches t f.informers f

  -- The calls that change a factory, in any order.
  pub data Call : Type 0 where
    starts : Call
    shuts_down : Call
    returns : Call
    asks : Bytes → (l.Client → Duration → l.Informer) → Call

  unfoldable pub after :
      Call → SharedInformerFactory l → SharedInformerFactory l × List (Bytes × l.Informer)
  after starts f = start l f
  after shuts_down f = (shutdown l f, [])
  after returns f = (informer_returns l f, [])
  after (asks t new_func) f = ((informer_for l t new_func f).1, [])

  unfoldable pub after_all :
      List Call → SharedInformerFactory l → SharedInformerFactory l × List (Bytes × l.Informer)
  after_all [] f = (f, [])
  after_all (c ∷ cs) f =
      let one = after c f in let rest = after_all cs one.0 in (rest.0, one.1 ++ rest.1)

  asks-started :
      (t : Bytes) (new_func : l.Client → Duration → l.Informer) (f : SharedInformerFactory l)
      → (informer_for l t new_func f).1.started_informers ≡ f.started_informers
  unfolding informer_for
  asks-started t new_func f = ground arith

  after-launches :
      (t : Bytes) (c : Call) (f : SharedInformerFactory l)
      → launches t (after c f).1 + flag (is_set f.started_informers t)
        ≡ flag (is_set (after c f).0.started_informers t)
  unfolding after
  after-launches t starts f = unfold start in start_unless-launches t f.shutting_down f
  after-launches t shuts_down f = unfold launches shutdown in omega arith
  after-launches t returns f = unfold launches informer_returns in omega arith
  after-launches t (asks u new_func) f =
      rw (asks-started u new_func f) (unfold launches in omega arith)

  after_all-launches :
      (t : Bytes) (cs : List Call) (f : SharedInformerFactory l)
      → launches t (after_all cs f).1 + flag (is_set f.started_informers t)
        ≡ flag (is_set (after_all cs f).0.started_informers t)
  unfolding after_all
  after_all-launches t [] f = unfold launches in omega arith
  after_all-launches t (c ∷ cs) f = omega (
    arith,
    after-launches t c f,
    after_all-launches t cs (after c f).0,
    launches-append t (after c f).1 (after_all cs (after c f).0).1,
  )

  -- Over any calls of Start, Shutdown and InformerFor, with goroutines returning between them, the
  -- informer of each type is run at most once: once if it is marked as started at the end and was not
  -- at the beginning, and never otherwise.
  pub runs_once :
      (t : Bytes) (cs : List Call) (f : SharedInformerFactory l)
      → (launches t (after_all cs f).1 ≤ 1)
        × (launches t (after_all cs f).1 + flag (is_set f.started_informers t)
            ≡ flag (is_set (after_all cs f).0.started_informers t))
  runs_once t cs f = (ground (arith, after_all-launches t cs f), after_all-launches t cs f)
