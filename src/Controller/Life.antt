-- ===== src/Controller/Life.antt =====
-- The life of an At as an abstract machine, WAITING -> STARTED -> FINISHED, that the sync handler
-- refines when the API server rejects writes of an outdated object.
pub mod Path
use kubernetes_programming.Prelude.{
  some_inj, Bytes, [], false, some, none, Option, ◌≡◌, ◌≢◌, ◌⊎◌, inl, inr, refl, ◌∙◌, sym, subst,
  ap, Bool-cases, str_eq, str_eq→eq, str_eq_refl,
}
use kubernetes_programming.Clock.{Instant}
use kubernetes_programming.Api.{
  At, ObjectMeta, phase_running, phase_done, PhaseCase, pending, running, done, other, phase_case,
}
use kubernetes_programming.Kube.{ok_inj, Pod, ApiError, ok, err, Machinery, Cluster, Result-cases}
use kubernetes_programming.Kube.Laws.{View, IsServer, ListsByKey, same_key, same_key→eq}
use kubernetes_programming.Controller.{default_phase, sync_handler}
use kubernetes_programming.Controller.Progress.{phase_case_running, phase_case_done}
use kubernetes_programming.Controller.Edges.{Edge, start, finish, default_phase_running}
use kubernetes_programming.Controller.Transitions.{sync_handler-moves}
use kubernetes_programming.Controller.Keeps.{sync_handler-keeps}

pub data Life : Type 0 where
  waiting started finished : Life

-- The life that a stored phase stands for; none, unset and unknown phases wait.
life_of_case : PhaseCase → Life
life_of_case pending = waiting
life_of_case running = started
life_of_case done = finished
life_of_case other = waiting

unfoldable pub life : Option Bytes → Life
unfolding life_of_case
life none = waiting
life (some p) = life_of_case (phase_case p)

-- One step of the abstract machine.
pub data Step : Life → Life → Type 0 where
  stay : {a : Life} → Step a a
  starts : Step waiting started
  finishes : Step started finished

-- The resourceVersion of a stored At, as the API server sees it. Reads and creations of pods do not
-- change it, nor does a rejected write; a write of another At does not; and a write is only accepted
-- of an object with the version that is stored.
pub record IsLocking {W : Type 0} (k : Cluster W) (version_of : W → Bytes → Bytes → Option Bytes)
    : Type 0 where
  pub get_version :
      (a b : Bytes) (w : W) (ns n : Bytes) → version_of (k.get_pod a b w).1 ns n ≡ version_of w ns n
  pub create_version :
      (p : Pod) (w : W) (ns n : Bytes) → version_of (k.create_pod p w).1 ns n ≡ version_of w ns n
  pub rejected_version :
      (at : At) (w : W) (e : ApiError) (ns n : Bytes)
      → (k.update_status at w).0 ≡ err e
      → version_of (k.update_status at w).1 ns n ≡ version_of w ns n
  pub other_version :
      (at : At) (w : W) (ns n : Bytes)
      → same_key at.meta.namespace at.meta.name ns n ≡ false
      → version_of (k.update_status at w).1 ns n ≡ version_of w ns n
  pub accepted :
      (at a : At) (w : W)
      → (k.update_status at w).0 ≡ ok a
      → version_of w at.meta.namespace at.meta.name ≡ some at.meta.resource_version

-- A listed At with the version that is stored shows the phase that is stored.
abbrev pub IsSnapshot :
    {W : Type 0} → Cluster W → View W → (W → Bytes → Bytes → Option Bytes) → W → Type 0
IsSnapshot k v version_of w =
    (ns n : Bytes) (at : At)
    → k.lister_get ns n w ≡ ok at
    → version_of w ns n ≡ some at.meta.resource_version
    → v.phase_of w ns n ≡ some at.status.phase

version_cases : (o : Option Bytes) (r : Bytes) → (o ≡ some r) ⊎ (o ≢ some r)
version_cases none r = inr (λ h. cc)
version_cases (some q) r = elim (Bool-cases (str_eq q r)) [
  | inl e ↦ inl (ap some (str_eq→eq q r e))
  | inr e ↦ inr (λ h. cc (str_eq_refl r, rw (some_inj h) at e))
]

phase_case_unset : phase_case [] ≡ other
unfolding phase_case str_eq
phase_case_unset = refl

-- What an edge leads from waits or has started, and it leads one step on.
pending_waits :
    (at : At)
    → phase_case (default_phase at).status.phase ≡ pending
    → life (some at.status.phase) ≡ waiting
unfolding default_phase life
pending_waits at h = elim (Bool-cases (str_eq at.status.phase [])) [
  | inl e ↦ rw (str_eq→eq at.status.phase [] e, phase_case_unset)
  | inr e ↦ let set : phase_case at.status.phase ≡ pending = rw e at h in rw set
]

running_started :
    (at : At)
    → phase_case (default_phase at).status.phase ≡ running
    → life (some at.status.phase) ≡ started
unfolding life
running_started at h =
    let set : phase_case at.status.phase ≡ running =
      subst (λ (a : At). phase_case a.status.phase ≡ running) (default_phase_running at h) h in
    rw set

stored_running : life (some phase_running) ≡ started
unfolding life
stored_running = rw phase_case_running

stored_done : life (some phase_done) ≡ finished
unfolding life
stored_done = rw phase_case_done

Edge-Step :
    {W : Type 0} (m : Machinery) (v : View W) {now : Instant} {at : At} {w : W} {p : Bytes}
    → Edge v m now at w p
    → Step (life (some at.status.phase)) (life (some p))
Edge-Step m v {at} (start c d) = rw (pending_waits at c, stored_running) starts
Edge-Step m v {at} (finish p c x t) = rw (running_started at c, stored_done) finishes

module _ {W : Type 0} (m : Machinery) (k : Cluster W) (v : View W) (s : IsServer k v)
    (keyed : ListsByKey k) (version_of : W → Bytes → Bytes → Option Bytes)
    (locking : IsLocking k version_of) where
  module _ (w : W) (ns n : Bytes) where
    -- Phase and version are as they are in `w`.
    abbrev Unchanged : W → Type 0
    Unchanged u = (v.phase_of u ns n ≡ v.phase_of w ns n) × (version_of u ns n ≡ version_of w ns n)

    -- A write of another At, or of an outdated state of this one.
    abbrev Harmless : At → Type 0
    Harmless at =
        (same_key at.meta.namespace at.meta.name ns n ≡ false)
        ⊎ ((at.meta.namespace ≡ ns)
            × (at.meta.name ≡ n)
            × (version_of w ns n ≢ some at.meta.resource_version))

    update-Unchanged :
        (at : At) (u : W) → Harmless at → Unchanged u → Unchanged (k.update_status at u).1
    update-Unchanged at u safe (p, q) = elim (Result-cases (k.update_status at u).0) [
      | inr (e, r) ↦ (s.update_err at u e r ns n ∙ p, locking.rejected_version at u e ns n r ∙ q)
      | inl (a, r) ↦ elim safe [
        | inl d ↦ (s.update_ok at u a r ns n ∙ rw d p, locking.other_version at u ns n d ∙ q)
        | inr (e, f, d) ↦ absurd (d (sym q ∙ accepted_here at a u e f r))
      ]
    ]
      where
        accepted_here :
            (at a : At) (u : W)
            → at.meta.namespace ≡ ns
            → at.meta.name ≡ n
            → (k.update_status at u).0 ≡ ok a
            → version_of u ns n ≡ some at.meta.resource_version
        accepted_here at a u e f r = rw (← e, ← f) (locking.accepted at a u r)

    -- A sync on an outdated cache does not touch the At.
    outdated-Unchanged :
        (now : Instant) (key : Bytes) (at : At)
        → k.lister_get ns n w ≡ ok at
        → version_of w ns n ≢ some at.meta.resource_version
        → Unchanged (sync_handler m k now key w).1
    outdated-Unchanged now key at l d =
        sync_handler-keeps m k Unchanged Harmless
          (λ a b u h. (s.get_phases a b u ns n ∙ h.0, locking.get_version a b u ns n ∙ h.1))
          (λ p u h. (s.create_phases p u ns n ∙ h.0, locking.create_version p u ns n ∙ h.1))
          update-Unchanged now key w harmless (refl, refl)
      where
        harmless :
            (a b : Bytes) (listed : At)
            → k.lister_get a b w ≡ ok listed
            → (instance : At) → instance.meta ≡ listed.meta
            → Harmless instance
        harmless a b listed l' instance e =
            elim (Bool-cases (same_key instance.meta.namespace instance.meta.name ns n)) [
              | inr differs ↦ inl differs
              | inl same ↦
                  let (x, y) = same_key→eq _ _ _ _ same in
                  let (z, t) = keyed a b w listed l' in
                  let here : a ≡ ns = sym z ∙ sym (ap (λ (o : ObjectMeta). o.namespace) e) ∙ x in
                  let named : b ≡ n = sym t ∙ sym (ap (λ (o : ObjectMeta). o.name) e) ∙ y in
                  let found : listed ≡ at = ok_inj (
                    sym l'
                    ∙ ap (λ c. k.lister_get c b w) here
                    ∙ ap (λ c. k.lister_get ns c w) named
                    ∙ l) in
                  inr (
                    x,
                    y,
                    λ h. d (
                        h
                        ∙ ap (λ (o : ObjectMeta). some o.resource_version) e
                        ∙ ap (λ (o : At). some o.meta.resource_version) found),
                  )
            ]

  -- If the listed Ats are snapshots, a sync refines the abstract machine: the life of every At, by the
  -- phase that is stored, stays what it was or makes one step WAITING -> STARTED -> FINISHED, however
  -- old the lister's cache is.
  pub sync_handler-Step :
      (now : Instant) (key : Bytes) (w : W) (ns n : Bytes)
      → IsSnapshot k v version_of w
      → Step (life (v.phase_of w ns n)) (life (v.phase_of (sync_handler m k now key w).1 ns n))
  sync_handler-Step now key w ns n snap = elim (sync_handler-moves m k v s keyed now key w ns n) [
    | inl same ↦ stays same
    | inr (at, p, l, edge, e) ↦ elim (version_cases (version_of w ns n) at.meta.resource_version) [
      | inr outdated ↦ stays (outdated-Unchanged w ns n now key at l outdated).0
      | inl current ↦ rw (snap ns n at l current, e) (Edge-Step m v edge)
    ]
  ]
    where
      stays :
          v.phase_of (sync_handler m k now key w).1 ns n ≡ v.phase_of w ns n
          → Step (life (v.phase_of w ns n)) (life (v.phase_of (sync_handler m k now key w).1 ns n))
      stays e = rw e stay
