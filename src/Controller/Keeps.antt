-- ===== src/Controller/Keeps.antt =====
-- A frame rule for `syncHandler`: what its three calls keep, it keeps.
use kubernetes_programming.Prelude.{Bytes, Option, none, some, ◌≡◌, refl, ◌∙◌, inl, inr, Bool-cases}
use kubernetes_programming.Clock.{Instant, Duration, Parsed, parsed, fails, is_positive}
use kubernetes_programming.Api.{
  At, ObjectMeta, PhaseCase, pending, running, done, other, deep_equal,
}
use kubernetes_programming.Kube.{Pod, not_found, failure, Result, ok, err, Machinery, Cluster}
use kubernetes_programming.Controller.{
  leave, fall, Flow, default_phase, time_until_schedule, after_schedule, pending_case, running_case,
  after_get, after_create, switch, updated, save, sync_at, from_lister, from_key, sync_handler,
  is_terminated,
}
use kubernetes_programming.Controller.Edges.{default_phase-meta}

-- An instance that is to be saved has the metadata.
abbrev HasMeta : ObjectMeta → Flow → Type 0
HasMeta o (leave _) = Unit {0}
HasMeta o (fall instance) = instance.meta ≡ o

after_schedule-HasMeta : (at : At) (d : Parsed Duration) → HasMeta at.meta (after_schedule at d)
unfolding after_schedule
after_schedule-HasMeta at (fails e) = tt
after_schedule-HasMeta at (parsed d) = elim (Bool-cases (is_positive d)) [
  | inl e ↦ rw e tt
  | inr e ↦ rw e refl
]

module _ {W : Type 0} (m : Machinery) (k : Cluster W) where
  after_create-HasMeta : (at : At) (x : Result Pod × W) → HasMeta at.meta (after_create m k at x).0
  unfolding after_create
  after_create-HasMeta at (ok _, w) = refl
  after_create-HasMeta at (err _, w) = tt

  after_get-HasMeta : (at : At) (x : Result Pod × W) → HasMeta at.meta (after_get m k at x).0
  unfolding after_get
  after_get-HasMeta at (err not_found, w) = after_create-HasMeta at _
  after_get-HasMeta at (err (failure e), w) = tt
  after_get-HasMeta at (ok p, w) = elim (Bool-cases (is_terminated p)) [
    | inl e ↦ rw e refl
    | inr e ↦ rw e tt
  ]

  switch-HasMeta :
      (now : Instant) (c : PhaseCase) (at : At) (w : W) → HasMeta at.meta (switch m k now c at w).0
  unfolding switch pending_case running_case
  switch-HasMeta now pending at w =
      after_schedule-HasMeta at (time_until_schedule now at.spec.schedule)
  switch-HasMeta now running at w = after_get-HasMeta at _
  switch-HasMeta now done at w = tt
  switch-HasMeta now other at w = tt

-- A predicate that the three calls keep is kept by a sync. A status is only written of an instance
-- with the metadata of an At that the lister has shown: such instances are `Allowed`.
module _ {W : Type 0} (m : Machinery) (k : Cluster W) (P : W → Type 0) (Allowed : At → Type 0)
    (get_keeps : (ns n : Bytes) (w : W) → P w → P (k.get_pod ns n w).1)
    (create_keeps : (p : Pod) (w : W) → P w → P (k.create_pod p w).1)
    (update_keeps : (at : At) (w : W) → Allowed at → P w → P (k.update_status at w).1) where
  after_create-keeps : (at : At) (x : Result Pod × W) → P x.1 → P (after_create m k at x).1
  unfolding after_create
  after_create-keeps at (ok _, w) h = h
  after_create-keeps at (err _, w) h = h

  after_get-keeps : (at : At) (x : Result Pod × W) → P x.1 → P (after_get m k at x).1
  unfolding after_get
  after_get-keeps at (err not_found, w) h = after_create-keeps at _ (create_keeps _ w h)
  after_get-keeps at (err (failure e), w) h = h
  after_get-keeps at (ok p, w) h = h

  switch-keeps :
      (now : Instant) (c : PhaseCase) (at : At) (w : W) → P w → P (switch m k now c at w).1
  unfolding switch running_case
  switch-keeps now pending at w h = h
  switch-keeps now running at w h = after_get-keeps at _ (get_keeps _ _ w h)
  switch-keeps now done at w h = h
  switch-keeps now other at w h = h

  updated-keeps : (x : Result At × W) → P x.1 → P (updated m k x).1
  unfolding updated
  updated-keeps (ok _, w) h = h
  updated-keeps (err _, w) h = h

  abbrev Allows : ObjectMeta → Type 0
  Allows o = (instance : At) → instance.meta ≡ o → Allowed instance

  save-keeps :
      (at : At) (o : ObjectMeta) (f : Flow × W)
      → Allows o
      → HasMeta o f.0
      → P f.1
      → P (save m k at f).1
  unfolding save
  save-keeps at o (leave r, w) a e h = h
  save-keeps at o (fall instance, w) a e h = elim (Bool-cases (deep_equal at instance)) [
    | inl d ↦ rw d h
    | inr d ↦ rw d (updated-keeps _ (update_keeps instance w (a instance e) h))
  ]

  from_lister-keeps :
      (now : Instant) (r : Result At) (w : W)
      → ((at : At) → r ≡ ok at → Allows at.meta)
      → P w
      → P (from_lister m k now r w).1
  unfolding from_lister sync_at
  from_lister-keeps now (err not_found) w a h = h
  from_lister-keeps now (err (failure e)) w a h = h
  from_lister-keeps now (ok at) w a h =
      save-keeps at (default_phase at).meta _
        (λ instance e. a at refl instance (e ∙ default_phase-meta at))
        (switch-HasMeta m k now _ (default_phase at) w) (switch-keeps now _ _ w h)

  from_key-keeps :
      (now : Instant) (key : Option (Bytes × Bytes)) (w : W)
      → ((ns n : Bytes) (at : At) → k.lister_get ns n w ≡ ok at → Allows at.meta)
      → P w
      → P (from_key m k now key w).1
  unfolding from_key
  from_key-keeps now none w a h = h
  from_key-keeps now (some (ns, n)) w a h = from_lister-keeps now _ w (a ns n) h

  pub sync_handler-keeps :
      (now : Instant) (key : Bytes) (w : W)
      → ((ns n : Bytes) (at : At) → k.lister_get ns n w ≡ ok at → Allows at.meta)
      → P w
      → P (sync_handler m k now key w).1
  unfolding sync_handler
  sync_handler-keeps now key w = from_key-keeps now _ w
