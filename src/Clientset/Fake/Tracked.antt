-- ===== src/Clientset/Fake/Tracked.antt =====
-- What the tracker of a fake clientset holds.
use kubernetes_programming.Prelude.{
  true, false, Option, none, some, List, [], ◌∷◌, ◌++◌, ◌≡◌, refl, append-nil, append_assoc, codes,
  ◌⊎◌, inl, inr, subst,
}
use kubernetes_programming.Clientset.Rest.{made, failed, Exit, returned, panics}
use kubernetes_programming.Clientset.Fake.{
  TrackerTypes, Action, TrackerLib, Reaction, FakeClientset, after_watch, options_of,
  react_to_watch, watch_reaction, clientset_around, add_objects, new_simple_clientset,
}

module _ {t : TrackerTypes} (lib : TrackerLib t) where
  -- The tracker after objects have been added, each with success.
  pub data Added (o : t.Tracker) : List t.Object → t.Tracker → Type 0 where
    nothing : Added o [] o
    more :
        {x : t.Object} {xs : List t.Object} {o₁ o₂ : t.Tracker}
        → Added o xs o₁
        → lib.add x o₁ ≡ (none, o₂)
        → Added o (xs ++ x ∷ []) o₂

  -- A watch is handled exactly if the tracker gives one, for the resource and the namespace of the
  -- action and for its options, or the empty ones if it has none.
  pub record Watches (react : Action t → t.Tracker → Reaction t × t.Tracker) : Type 0 where
    pub given :
        (a : Action t) (o o' : t.Tracker) (watch : t.Watch) (opts : t.ListOptions)
        → (a.watch_options ≡ some opts) ⊎ ((a.watch_options ≡ none) × (opts ≡ lib.no_options))
        → lib.watch a.resource a.namespace opts o ≡ (made watch, o')
        → react a o ≡ (record { handled = true; ret = some watch; error = none }, o')
    pub not_given :
        (a : Action t) (o o' : t.Tracker) (e : t.Error) (opts : t.ListOptions)
        → (a.watch_options ≡ some opts) ⊎ ((a.watch_options ≡ none) × (opts ≡ lib.no_options))
        → lib.watch a.resource a.namespace opts o ≡ (failed e, o')
        → react a o ≡ (record { handled = false; ret = none; error = some e }, o')

  pub data Tracked (objects : List t.Object)
      : Exit t.Error (FakeClientset t) × t.Tracker → Type 0 where
    refused :
        (xs ys : List t.Object) (x : t.Object) {o₁ o₂ : t.Tracker} {e : t.Error}
        → objects ≡ xs ++ x ∷ ys
        → Added lib.new_object_tracker xs o₁
        → lib.add x o₁ ≡ (some e, o₂)
        → Tracked objects (panics e, o₂)
    tracked :
        {o : t.Tracker} {c : FakeClientset t}
        {react : Action t → t.Tracker → Reaction t × t.Tracker}
        → Added lib.new_object_tracker objects o
        → c.tracker ≡ o
        → c.watch_reaction_chain ≡ (codes "*", watch_reaction react) ∷ []
        → Watches react
        → Tracked objects (returned c, o)

  options_of-opts :
      (w : Option t.ListOptions) (opts : t.ListOptions)
      → (w ≡ some opts) ⊎ ((w ≡ none) × (opts ≡ lib.no_options))
      → options_of lib w ≡ opts
  unfolding options_of
  options_of-opts w opts (inl e) = rw e refl
  options_of-opts w opts (inr (e, f)) = rw (e, f) refl

  react_to_watch-Watches : Watches (react_to_watch lib)
  unfolding react_to_watch after_watch
  react_to_watch-Watches = record {
    given = λ a o o' watch opts h e. rw (options_of-opts a.watch_options opts h, e) refl;
    not_given = λ a o o' x opts h e. rw (options_of-opts a.watch_options opts h, e) refl;
  }

  -- Where the loop stands after the objects `xs`.
  data Loop (xs : List t.Object) : Option t.Error × t.Tracker → Type 0 where
    going : {o : t.Tracker} → Added lib.new_object_tracker xs o → Loop xs (none, o)
    ended :
        (ys : List t.Object) (x : t.Object) {o₁ o₂ : t.Tracker} {e : t.Error}
        → xs ≡ ys ++ x ∷ []
        → Added lib.new_object_tracker ys o₁
        → lib.add x o₁ ≡ (some e, o₂)
        → Loop xs (some e, o₂)

  add-Loop :
      (xs : List t.Object) (x : t.Object) (o : t.Tracker) (s : Option t.Error × t.Tracker)
      → Added lib.new_object_tracker xs o
      → lib.add x o ≡ s
      → Loop (xs ++ x ∷ []) s
  add-Loop xs x o (none, o') h e = going (more h e)
  add-Loop xs x o (some _, o') h e = ended xs x refl h e

  add_objects-Tracked :
      (xs ys : List t.Object) (s : Option t.Error × t.Tracker)
      → Loop xs s
      → Tracked (xs ++ ys) (add_objects lib ys s)
  unfolding add_objects clientset_around
  add_objects-Tracked xs ys (some e, o₂) (ended zs x q h a) =
      refused zs ys x (rw (q, append_assoc zs (x ∷ []) ys) refl) h a
  add_objects-Tracked xs [] (none, o) (going h) =
      tracked (rw (append-nil xs) h) refl refl react_to_watch-Watches
  add_objects-Tracked xs (x ∷ ys) (none, o) (going h) =
      subst (λ zs. Tracked zs (add_objects lib ys (lib.add x o))) (append_assoc xs (x ∷ []) ys)
        (add_objects-Tracked (xs ++ x ∷ []) ys (lib.add x o) (add-Loop xs x o _ h refl))

  -- NewSimpleClientset adds the objects to a new tracker one after the other. It panics at the first
  -- that the tracker refuses; otherwise the tracker of the clientset has had all of them added, in
  -- order, and is the one that its watch reactor asks for watches.
  pub new_simple_clientset-Tracked :
      (objects : List t.Object) → Tracked objects (new_simple_clientset lib objects)
  unfolding new_simple_clientset
  new_simple_clientset-Tracked objects =
      add_objects-Tracked [] objects (none, lib.new_object_tracker) (going nothing)
