-- ===== src/Controller/Transitions.antt =====
-- What one call of `syncHandler` may do to the stored phases.
use kubernetes_programming.Prelude.{
  Bytes, ap, true, false, Option, none, some, ◌≡◌, ◌⊎◌, inl, inr, refl, sym, ◌∙◌, Bool-cases, subst,
  if◌then◌else◌,
}
use kubernetes_programming.Clock.{Instant}
use kubernetes_programming.Api.{At, with_phase, deep_equal}
use kubernetes_programming.Api.Equal.{deep_equal_refl}
use kubernetes_programming.Kube.{
  not_found, failure, Result, Result-cases, ok, err, Machinery, Cluster,
}
use kubernetes_programming.Kube.Laws.{View, IsServer, SamePhases, same_key, same_key→eq, ListsByKey}
use kubernetes_programming.Controller.{
  Flow, default_phase, updated, save, sync_at, from_lister, from_key, sync_handler,
}
use kubernetes_programming.Controller.Edges.{
  Edge, default_phase-meta, SwitchDoes, leaves, keeps, moves, switch-does,
}

module _ {W : Type 0} (m : Machinery) (k : Cluster W) (v : View W) (s : IsServer k v) where
  -- What a sync of `at` may do to the phase stored under a namespace and a name.
  pub PhaseMoves : Instant → At → W → W → Type 0
  PhaseMoves now at w w' =
      (ns n : Bytes)
      → (v.phase_of w' ns n ≡ v.phase_of w ns n)
        ⊎ ((p : Bytes) × Edge v m now at w p
            × (at.meta.namespace ≡ ns)
            × (at.meta.name ≡ n)
            × (v.phase_of w' ns n ≡ some p))

  updated-world : (x : Result At × W) → (updated m k x).1 ≡ x.1
  unfolding updated
  updated-world (ok _, w) = refl
  updated-world (err _, w) = refl

  updated-moves :
      (now : Instant) (at : At) (w w' : W) (p : Bytes)
      → SamePhases v w w'
      → Edge v m now at w p
      → PhaseMoves now at w (updated m k (k.update_status (with_phase (default_phase at) p) w')).1
  unfolding PhaseMoves
  updated-moves now at w w' p h e ns n = elim (Result-cases (k.update_status instance w').0) [
    | inl (a, r) ↦ rw (updated-world, s.update_ok instance w' a r ns n) (landed ns n (Bool-cases _))
    | inr (x, r) ↦ inl (rw updated-world (s.update_err instance w' x r ns n ∙ h ns n))
  ]
    where
      instance : At
      instance = with_phase (default_phase at) p

      landed :
          (ns n : Bytes)
          → let hit = same_key instance.meta.namespace instance.meta.name ns n in
            (hit ≡ true) ⊎ (hit ≡ false)
            → ((if hit then some p else v.phase_of w' ns n) ≡ v.phase_of w ns n)
              ⊎ ((q : Bytes) × Edge v m now at w q
                  × (at.meta.namespace ≡ ns)
                  × (at.meta.name ≡ n)
                  × ((if hit then some p else v.phase_of w' ns n) ≡ some q))
      landed ns n (inl hit) = inr (
        p,
        e,
        (rw (ap (λ x. x.namespace) (default_phase-meta at)) at (same_key→eq _ _ _ _ hit).0),
        (rw (ap (λ x. x.name) (default_phase-meta at)) at (same_key→eq _ _ _ _ hit).1),
        rw hit,
      )
      landed ns n (inr miss) = inl (rw miss (h ns n))

  save-moves :
      (now : Instant) (at : At) (w : W) (f : Flow × W)
      → SwitchDoes m k v s now at w f
      → PhaseMoves now at w (save m k at f).1
  unfolding PhaseMoves save
  save-moves now at w f (leaves h) ns n = inl (h ns n)
  save-moves now at w f (keeps h d) ns n = inl (rw (d, deep_equal_refl at) (h ns n))
  save-moves now at w f (moves {w'} {p} h e) ns n =
      elim (Bool-cases (deep_equal at (with_phase (default_phase at) p))) [
        | inl same ↦ inl (rw same (h ns n))
        | inr new ↦ rw new (updated-moves now at w w' p h e ns n)
      ]

  sync_at-moves : (now : Instant) (at : At) (w : W) → PhaseMoves now at w (sync_at m k now at w).1
  unfolding sync_at
  sync_at-moves now at w = save-moves now at w _ (switch-does m k v s now at w _ refl)

  from_lister-moves :
      ListsByKey k
      → (now : Instant) (ns' n' : Bytes) (w : W) (r : Result At) → k.lister_get ns' n' w ≡ r
      → (ns n : Bytes)
      → (v.phase_of (from_lister m k now r w).1 ns n ≡ v.phase_of w ns n)
        ⊎ ((at : At) × (p : Bytes) × (k.lister_get ns n w ≡ ok at)
            × Edge v m now at w p
            × (v.phase_of (from_lister m k now r w).1 ns n ≡ some p))
  unfolding from_lister PhaseMoves
  from_lister-moves keyed now ns' n' w (err not_found) l ns n = inl refl
  from_lister-moves keyed now ns' n' w (err (failure e)) l ns n = inl refl
  from_lister-moves keyed now ns' n' w (ok at) l ns n = elim (sync_at-moves now at w ns n) [
    | inl same ↦ inl same
    | inr (p, e, hns, hn, h) ↦
        let (ns-key, n-key) = keyed ns' n' w at l in
        inr (
          at,
          p,
          subst (λ x. k.lister_get x n w ≡ ok at) (sym ns-key ∙ hns)
              (subst (λ x. k.lister_get ns' x w ≡ ok at) (sym n-key ∙ hn) l),
          e,
          h,
        )
  ]

  from_key-moves :
      ListsByKey k
      → (now : Instant) (key : Option (Bytes × Bytes)) (w : W) (ns n : Bytes)
      → (v.phase_of (from_key m k now key w).1 ns n ≡ v.phase_of w ns n)
        ⊎ ((at : At) × (p : Bytes) × (k.lister_get ns n w ≡ ok at)
            × Edge v m now at w p
            × (v.phase_of (from_key m k now key w).1 ns n ≡ some p))
  unfolding from_key
  from_key-moves keyed now none w ns n = inl refl
  from_key-moves keyed now (some (ns', n')) w ns n =
      from_lister-moves keyed now ns' n' w _ refl ns n

  -- A call of the sync handler with any key, at any time and in any world: the phase stored under
  -- each namespace and name is as before, or the lister has an At there from whose phase an edge of
  -- PENDING -> RUNNING -> DONE leads, with the reason that the edge needs, to the phase stored now.
  pub sync_handler-moves :
      ListsByKey k
      → (now : Instant) (key : Bytes) (w : W) (ns n : Bytes)
      → (v.phase_of (sync_handler m k now key w).1 ns n ≡ v.phase_of w ns n)
        ⊎ ((at : At) × (p : Bytes) × (k.lister_get ns n w ≡ ok at)
            × Edge v m now at w p
            × (v.phase_of (sync_handler m k now key w).1 ns n ≡ some p))
  unfolding sync_handler
  sync_handler-moves keyed now key w = from_key-moves keyed now (m.split_key key) w
