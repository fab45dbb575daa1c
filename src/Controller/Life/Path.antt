-- ===== src/Controller/Life/Path.antt =====
-- Runs of the sync handler and of everybody else against an API server that checks versions: the
-- lives of the Ats follow the abstract machine.
use kubernetes_programming.Prelude.{Bytes, Option, some, ◌≡◌, ◌⊎◌, inl, inr, sym, ◌∙◌}
use kubernetes_programming.Clock.{Instant}
use kubernetes_programming.Api.{At}
use kubernetes_programming.Kube.{ok, Machinery, Cluster, Result-cases}
use kubernetes_programming.Kube.Laws.{View, IsServer, ListsByKey, KeepsCache}
use kubernetes_programming.Controller.{sync_handler}
use kubernetes_programming.Controller.Keeps.{sync_handler-keeps}
use kubernetes_programming.Controller.Life.{
  Life, life, Step, IsLocking, IsSnapshot, sync_handler-Step,
}

-- A finite run of the abstract machine.
pub data Steps (a : Life) : Life → Type 0 where
  none_yet : Steps a a
  one_more : {b c : Life} → Steps a b → Step b c → Steps a c

module _ {W : Type 0} (m : Machinery) (k : Cluster W) (v : View W)
    (version_of : W → Bytes → Bytes → Option Bytes) where
  -- A stored At has a new version when its phase has changed, and a new version is none that the
  -- lister's cache already shows.
  pub record IsVersioning : Type 0 where
    pub changed :
        (at a : At) (w : W) (ns n : Bytes)
        → (k.update_status at w).0 ≡ ok a
        → version_of (k.update_status at w).1 ns n ≡ version_of w ns n
        → v.phase_of (k.update_status at w).1 ns n ≡ v.phase_of w ns n
    pub unlisted :
        (at a : At) (w : W) (ns n : Bytes) (listed : At)
        → (k.update_status at w).0 ≡ ok a
        → k.lister_get ns n w ≡ ok listed
        → version_of (k.update_status at w).1 ns n ≡ some listed.meta.resource_version
        → version_of (k.update_status at w).1 ns n ≡ version_of w ns n

  -- Users, the kubelet and the informers: they create Ats without a phase and write what they like but
  -- the phases; the cache shows what it showed or what is stored.
  pub record Elsewhere (w w' : W) : Type 0 where
    pub lives : (ns n : Bytes) → life (v.phase_of w' ns n) ≡ life (v.phase_of w ns n)
    pub listing :
        (ns n : Bytes) (at : At)
        → k.lister_get ns n w' ≡ ok at
        → version_of w' ns n ≡ some at.meta.resource_version
        → (v.phase_of w' ns n ≡ some at.status.phase)
          ⊎ ((k.lister_get ns n w ≡ ok at)
              × (version_of w ns n ≡ some at.meta.resource_version)
              × (v.phase_of w' ns n ≡ v.phase_of w ns n))

  pub data Turn : W → W → Type 0 where
    sync : (now : Instant) (key : Bytes) (w : W) → Turn w (sync_handler m k now key w).1
    elsewhere : {w w' : W} → Elsewhere w w' → Turn w w'

  pub data Turns (w : W) : W → Type 0 where
    start : Turns w w
    next : {u u' : W} → Turns w u → Turn u u' → Turns w u'

  module _ (s : IsServer k v) (keyed : ListsByKey k) (cache : KeepsCache k)
      (locking : IsLocking k version_of) (versioning : IsVersioning) where
    -- What leaves the cache, the versions and the phases alone leaves the listed Ats snapshots.
    framed :
        {w w' : W}
        → ((ns n : Bytes) → k.lister_get ns n w' ≡ k.lister_get ns n w)
        → ((ns n : Bytes) → version_of w' ns n ≡ version_of w ns n)
        → ((ns n : Bytes) → v.phase_of w' ns n ≡ v.phase_of w ns n)
        → IsSnapshot k v version_of w
        → IsSnapshot k v version_of w'
    framed c r p snap ns n at l h = p ns n ∙ snap ns n at (sym (c ns n) ∙ l) (sym (r ns n) ∙ h)

    update-IsSnapshot :
        (at : At) (w : W)
        → IsSnapshot k v version_of w
        → IsSnapshot k v version_of (k.update_status at w).1
    update-IsSnapshot at w snap = elim (Result-cases (k.update_status at w).0) [
      | inr (e, r) ↦
          framed (cache.update at w) (λ ns n. locking.rejected_version at w e ns n r)
            (s.update_err at w e r) snap
      | inl (a, r) ↦ λ ns n x l h.
          let old = sym (cache.update at w ns n) ∙ l in
          let same = versioning.unlisted at a w ns n x r old h in
          versioning.changed at a w ns n r same ∙ snap ns n x old (sym same ∙ h)
    ]

    sync_handler-IsSnapshot :
        (now : Instant) (key : Bytes) (w : W)
        → IsSnapshot k v version_of w
        → IsSnapshot k v version_of (sync_handler m k now key w).1
    sync_handler-IsSnapshot now key w snap =
        sync_handler-keeps m k (IsSnapshot k v version_of) (λ at. Unit {0})
          (λ a b u h. framed (cache.get a b u) (locking.get_version a b u) (s.get_phases a b u) h)
          (λ p u h. framed (cache.create p u) (locking.create_version p u) (s.create_phases p u) h)
          (λ at u t h. update-IsSnapshot at u h) now key w (λ a b at l instance e. tt) snap

    Elsewhere-IsSnapshot :
        {w w' : W} → Elsewhere w w' → IsSnapshot k v version_of w → IsSnapshot k v version_of w'
    Elsewhere-IsSnapshot o snap ns n at l h = elim (o.listing ns n at l h) [
      | inl p ↦ p
      | inr (l', h', p) ↦ p ∙ snap ns n at l' h'
    ]

    Turn-IsSnapshot :
        {w w' : W} → Turn w w' → IsSnapshot k v version_of w → IsSnapshot k v version_of w'
    Turn-IsSnapshot (sync now key w) snap = sync_handler-IsSnapshot now key w snap
    Turn-IsSnapshot (elsewhere o) snap = Elsewhere-IsSnapshot o snap

    Turns-IsSnapshot :
        {w w' : W} → Turns w w' → IsSnapshot k v version_of w → IsSnapshot k v version_of w'
    Turns-IsSnapshot start snap = snap
    Turns-IsSnapshot (next r t) snap = Turn-IsSnapshot t (Turns-IsSnapshot r snap)

    Turn-Step :
        {w w' : W} (ns n : Bytes)
        → Turn w w'
        → IsSnapshot k v version_of w
        → Step (life (v.phase_of w ns n)) (life (v.phase_of w' ns n))
    Turn-Step ns n (sync now key w) snap =
        sync_handler-Step m k v s keyed version_of locking now key w ns n snap
    Turn-Step ns n (elsewhere o) snap = rw (o.lives ns n) Step.stay

    -- Whatever syncs, on however old caches, follow each other, and other changes between them that alter
    -- no At's life themselves (an At is not deleted once it has started, and nobody else writes a phase
    -- of another life): if the API server rejects writes of an outdated object, the life of every At is
    -- a run of the machine WAITING -> STARTED -> FINISHED: an At never goes back, and none is
    -- finished before it has been started. The Ats that are listed at first with the version that is
    -- stored show the phase that is stored.
    pub Turns-Steps :
        {w w' : W} (ns n : Bytes)
        → IsSnapshot k v version_of w
        → Turns w w'
        → Steps (life (v.phase_of w ns n)) (life (v.phase_of w' ns n))
    Turns-Steps ns n snap start = none_yet
    Turns-Steps ns n snap (next r t) =
        one_more (Turns-Steps ns n snap r) (Turn-Step ns n t (Turns-IsSnapshot r snap))
