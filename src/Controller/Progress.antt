-- ===== src/Controller/Progress.antt =====
-- What a sync returns and does on the path PENDING -> RUNNING -> DONE, branch by branch.
use kubernetes_programming.Prelude.{
  Bytes, [], true, false, some, ◌≡◌, ◌≢◌, ◌∙◌, subst, refl, arith, Bool-cases, inl, inr, ne→str_eq,
  str_eq, ap,
}
use kubernetes_programming.Clock.{Instant}
use kubernetes_programming.Api.{
  At, AtSpec, phase_running, phase_done, with_phase, PhaseCase, pending, running, done, other,
  phase_case, deep_equal,
}
use kubernetes_programming.Api.Equal.{deep_equal→eq, deep_equal_refl}
use kubernetes_programming.Kube.{Pod, not_found, failure, Result, ok, err, Machinery, Cluster}
use kubernetes_programming.Controller.{
  fall, stop, owned_pod, is_terminated, default_phase, after_schedule, pending_case, running_case,
  after_get, after_create, switch, updated, save, sync_at, from_lister, from_key, sync_handler,
}
use kubernetes_programming.Controller.Edges.{IsDue, default_phase-spec}

pub phase_case_running : phase_case phase_running ≡ running
unfolding phase_case str_eq
phase_case_running = refl

pub phase_case_done : phase_case phase_done ≡ done
unfolding phase_case str_eq
phase_case_done = refl

default_phase_set : (at : At) → at.status.phase ≢ [] → default_phase at ≡ at
unfolding default_phase
default_phase_set at h = rw (ne→str_eq at.status.phase [] h)

-- An At whose phase, once defaulted, is not `p` differs from the At to be saved with phase `p`.
pub changed :
    (at : At) (p : Bytes)
    → p ≢ []
    → (default_phase at).status.phase ≢ p
    → deep_equal at (with_phase (default_phase at) p) ≡ false
changed at p u c = elim (Bool-cases (deep_equal at (with_phase (default_phase at) p))) [
  | inr e ↦ e
  | inl e ↦
      let same : at.status.phase ≡ p = ap (λ (a : At). a.status.phase) (deep_equal→eq at _ e) in
      absurd (c (ap (λ (a : At). a.status.phase) (default_phase_set at (rw same u)) ∙ same))
]

pub not_running : (p : Bytes) → phase_case p ≡ pending → p ≢ phase_running
not_running p h e = cc (phase_case_running, rw e at h)

not_done : (p : Bytes) → phase_case p ≡ running → p ≢ phase_done
not_done p h e = cc (phase_case_done, rw e at h)

phase_case_unset : phase_case [] ≡ other
unfolding phase_case str_eq
phase_case_unset = refl

pub set_running : (at : At) → phase_case at.status.phase ≡ running → default_phase at ≡ at
set_running at h = default_phase_set at (λ e. cc (phase_case_unset, rw e at h))

pending_case-due :
    (now : Instant) (at : At)
    → IsDue now at
    → pending_case now (default_phase at) ≡ fall (with_phase (default_phase at) phase_running)
unfolding pending_case after_schedule
pending_case-due now at (d, e, np) =
    rw (ap (λ (x : AtSpec). x.schedule) (default_phase-spec at), e, after_schedule, np)

pub changed_done :
    (at : At)
    → phase_case at.status.phase ≡ running
    → deep_equal at (with_phase at phase_done) ≡ false
changed_done at c =
    subst (λ a. deep_equal at (with_phase a phase_done) ≡ false) (set_running at c)
      (changed at phase_done (λ x. cc)
        (not_done _ (ap (λ (a : At). phase_case a.status.phase) (set_running at c) ∙ c)))

module _ {W : Type 0} (m : Machinery) (k : Cluster W) where
  -- What `save` does with an instance that differs from the original.
  save_changed :
      (original instance : At) (w : W)
      → deep_equal original instance ≡ false
      → save m k original (fall instance, w) ≡ updated m k (k.update_status instance w)
  unfolding save
  save_changed original instance w h = rw h

  save-Same : (at : At) (w : W) → save m k at (fall at, w) ≡ (stop, w)
  unfolding save
  save-Same at w = rw (deep_equal_refl at)

  updated_ok : (x : Result At × W) {a : At} → x.0 ≡ ok a → updated m k x ≡ (stop, x.1)
  unfolding updated
  updated_ok (ok a, w) h = refl
  updated_ok (err e, w) h = cc

  after_get_missing :
      (at : At) (x : Result Pod × W)
      → x.0 ≡ err not_found
      → after_get m k at x ≡ after_create m k at (k.create_pod (owned_pod m at) x.1)
  unfolding after_get
  after_get_missing at (ok p, w) h = cc
  after_get_missing at (err not_found, w) h = refl
  after_get_missing at (err (failure e), w) h = cc

  after_create_ok :
      (at : At) (x : Result Pod × W) {p : Pod} → x.0 ≡ ok p → after_create m k at x ≡ (fall at, x.1)
  unfolding after_create
  after_create_ok at (ok p, w) h = refl
  after_create_ok at (err e, w) h = cc

  after_get_done :
      (at : At) (x : Result Pod × W) {p : Pod}
      → x.0 ≡ ok p
      → is_terminated p ≡ true
      → after_get m k at x ≡ (fall (with_phase at phase_done), x.1)
  unfolding after_get
  after_get_done at (ok p, w) h t = ground arith
  after_get_done at (err not_found, w) h t = cc
  after_get_done at (err (failure e), w) h t = cc

  -- The switch takes the case of the defaulted phase.
  sync_at_case :
      (now : Instant) (at : At) (w : W) {c : PhaseCase}
      → phase_case (default_phase at).status.phase ≡ c
      → sync_at m k now at w ≡ save m k at (switch m k now c (default_phase at) w)
  unfolding sync_at
  sync_at_case now at w h = λ i. save m k at (switch m k now (h i) (default_phase at) w)

  sync_at_running :
      (now : Instant) (at : At) (w : W)
      → phase_case at.status.phase ≡ running
      → sync_at m k now at w
        ≡ save m k at (
            after_get m k at
              (k.get_pod (owned_pod m at).meta.namespace (owned_pod m at).meta.name w))
  unfolding switch running_case
  sync_at_running now at w h =
      sync_at_case now at w (ap (λ (a : At). phase_case a.status.phase) (set_running at h) ∙ h)
      ∙ ap (λ (a : At). save m k at (switch m k now running a w)) (set_running at h)

  module _ (now : Instant) (key ns n : Bytes) (w : W) (at : At)
      (splits : m.split_key key ≡ some (ns, n)) (listed : k.lister_get ns n w ≡ ok at) where
    sync_handler-sync_at : sync_handler m k now key w ≡ sync_at m k now at w
    unfolding sync_handler from_key from_lister
    sync_handler-sync_at = rw (splits, from_key, listed)

    -- An At that is PENDING, or has no phase, and is due is saved as RUNNING; nothing is requeued.
    pub sync_starts :
        (a : At)
        → phase_case (default_phase at).status.phase ≡ pending
        → IsDue now at
        → (k.update_status (with_phase (default_phase at) phase_running) w).0 ≡ ok a
        → sync_handler m k now key w
          ≡ (stop, (k.update_status (with_phase (default_phase at) phase_running) w).1)
    unfolding switch
    sync_starts a c d u =
        sync_handler-sync_at
        ∙ sync_at_case now at w c
        ∙ ap (λ f. save m k at (f, w)) (pending_case-due now at d)
        ∙ save_changed at _ w (changed at phase_running (λ x. cc) (not_running _ c))
        ∙ updated_ok _ u

    -- An At that is RUNNING and has no pod gets its pod, and its status is not written.
    pub sync_launches :
        (p : Pod)
        → let pod = owned_pod m at in
          let looked = k.get_pod pod.meta.namespace pod.meta.name w in
          phase_case at.status.phase ≡ running
          → looked.0 ≡ err not_found
          → (k.create_pod pod looked.1).0 ≡ ok p
          → sync_handler m k now key w ≡ (stop, (k.create_pod pod looked.1).1)
    sync_launches p c g h =
        sync_handler-sync_at
        ∙ sync_at_running now at w c
        ∙ ap (save m k at) (after_get_missing at _ g ∙ after_create_ok at _ h)
        ∙ save-Same at _

    -- An At that is RUNNING and whose pod has terminated is saved as DONE.
    pub sync_finishes :
        (p : Pod) (a : At)
        → let pod = owned_pod m at in
          let looked = k.get_pod pod.meta.namespace pod.meta.name w in
          phase_case at.status.phase ≡ running
          → looked.0 ≡ ok p
          → is_terminated p ≡ true
          → (k.update_status (with_phase at phase_done) looked.1).0 ≡ ok a
          → sync_handler m k now key w
            ≡ (stop, (k.update_status (with_phase at phase_done) looked.1).1)
    sync_finishes p a c g t u =
        sync_handler-sync_at
        ∙ sync_at_running now at w c
        ∙ ap (save m k at) (after_get_done at _ g t)
        ∙ save_changed at _ _ (changed_done at c)
        ∙ updated_ok _ u
