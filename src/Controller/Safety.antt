-- ===== src/Controller/Safety.antt =====
-- No command is launched before its schedule: an invariant over every interleaving of syncs, the
-- passing of time, and what others do to the cluster.
use kubernetes_programming.Prelude.{
  Bytes, codes, ◌≤◌, false, some, none, ◌≡◌, ◌⊎◌, inl, inr, refl, ◌∙◌, sym, subst, arith, ◌++◌,
  append_cancel_right,
}
use kubernetes_programming.Clock.{Instant, Duration, Parsed, parsed, fails, parse, sub, is_positive}
use kubernetes_programming.Api.{At, running, done, phase_case}
use kubernetes_programming.Kube.{Pod, ok, Machinery, Cluster}
use kubernetes_programming.Kube.Laws.{KeepsCache, View, IsServer, ListsByKey}
use kubernetes_programming.Controller.{owned_pod, time_until_schedule, default_phase, sync_handler}
use kubernetes_programming.Controller.Edges.{
  IsDue, Edge, start, finish, pod_namespace, pod_name, default_phase_running,
}
use kubernetes_programming.Controller.Transitions.{sync_handler-moves}
use kubernetes_programming.Controller.Keeps.{sync_handler-keeps}
use kubernetes_programming.Controller.Pods.{sync_handler-pods}

-- The schedule names an instant that has come.
abbrev pub Due : Instant → Bytes → Type 0
Due now s = (t : Instant) × (parse s ≡ parsed t) × (t ≤ now)

sub-le : (t now : Instant) → is_positive (sub t now) ≡ false → t ≤ now
unfolding sub
sub-le t now h = ground arith

pub until_parsed :
    (now : Instant) (s : Bytes) (d : Duration)
    → time_until_schedule now s ≡ parsed d
    → (t : Instant) × (parse s ≡ parsed t) × (d ≡ sub t now)
unfolding time_until_schedule
until_parsed now s d h = go (parse s) refl
  where
    go : (p : Parsed Instant) → parse s ≡ p → (t : Instant) × (parse s ≡ parsed t) × (d ≡ sub t now)
    go (parsed t) e = (t, e, ground arith)
    go (fails x) e = absurd (ground arith)

pub IsDue→Due : (now : Instant) (at : At) → IsDue now at → Due now at.spec.schedule
IsDue→Due now at (d, h, np) =
    let (t, e, eq) = until_parsed now at.spec.schedule d h in (t, e, sub-le t now (rw (← eq) np))

Due_later : (now now' : Instant) (s : Bytes) → now ≤ now' → Due now s → Due now' s
Due_later now now' s h (t, e, l) = (t, e, omega arith)

abbrev pub pod_suffix : Bytes
pod_suffix = codes "-pod"

-- The phase is RUNNING or DONE.
abbrev pub IsStarted : Bytes → Type 0
IsStarted p = (phase_case p ≡ running) ⊎ (phase_case p ≡ done)

pod_name_lem : (m : Machinery) (at : At) → pod_name m at ≡ at.meta.name ++ pod_suffix
unfolding owned_pod default_phase
pod_name_lem m at = ground arith

pod_namespace_lem : (m : Machinery) (at : At) → pod_namespace m at ≡ at.meta.namespace
unfolding owned_pod default_phase
pod_namespace_lem m at = ground arith

running-IsStarted :
    (at : At) → phase_case (default_phase at).status.phase ≡ running → IsStarted at.status.phase
running-IsStarted at h =
    inl (subst (λ x. phase_case x.status.phase ≡ running) (default_phase_running at h) h)

module _ {W : Type 0} (m : Machinery) (k : Cluster W) (v : View W)
    (sched : Bytes → Bytes → Bytes) where
  -- What holds of a world at an instant: a phase RUNNING or DONE, stored or listed, means that the
  -- schedule of the At has come, and so does a pod under the name of the At's pod.
  pub record Inv (now : Instant) (w : W) : Type 0 where
    pub stored : (ns n p : Bytes) → v.phase_of w ns n ≡ some p → IsStarted p → Due now (sched ns n)
    pub scheduled :
        (ns n : Bytes) (at : At) → k.lister_get ns n w ≡ ok at → at.spec.schedule ≡ sched ns n
    pub listed :
        (ns n : Bytes) (at : At)
        → k.lister_get ns n w ≡ ok at
        → IsStarted at.status.phase
        → Due now (sched ns n)
    pub launched :
        (ns n : Bytes) (p : Pod) → v.pod_of w ns (n ++ pod_suffix) ≡ some p → Due now (sched ns n)

  -- Users, the kubelet and the informers: nobody but the controller writes RUNNING or DONE or makes a
  -- pod under such a name; the cache shows what it showed or what is stored; schedules do not change.
  pub record Outside (w w' : W) : Type 0 where
    pub phases :
        (ns n p : Bytes) → v.phase_of w' ns n ≡ some p → IsStarted p → v.phase_of w ns n ≡ some p
    pub schedules :
        (ns n : Bytes) (at : At) → k.lister_get ns n w' ≡ ok at → at.spec.schedule ≡ sched ns n
    pub listing :
        (ns n : Bytes) (at : At)
        → k.lister_get ns n w' ≡ ok at
        → (k.lister_get ns n w ≡ ok at) ⊎ (v.phase_of w ns n ≡ some at.status.phase)
    pub pods :
        (ns n : Bytes) (p : Pod)
        → v.pod_of w' ns (n ++ pod_suffix) ≡ some p
        → (q : Pod) × (v.pod_of w ns (n ++ pod_suffix) ≡ some q)

  pub data Move : Instant → W → Instant → W → Type 0 where
    sync : (now : Instant) (w : W) (key : Bytes) → Move now w now (sync_handler m k now key w).1
    tick : (now now' : Instant) (w : W) → now ≤ now' → Move now w now' w
    outside : (now : Instant) (w w' : W) → Outside w w' → Move now w now w'

  pub data Reach (now : Instant) (w : W) : Instant → W → Type 0 where
    here : Reach now w now w
    next : {t t' : Instant} {u u' : W} → Reach now w t u → Move t u t' u' → Reach now w t' u'

  module _ (s : IsServer k v) (keyed : ListsByKey k) (cache : KeepsCache k) where
    sync-cache :
        (now : Instant) (key : Bytes) (w : W) (ns n : Bytes)
        → k.lister_get ns n (sync_handler m k now key w).1 ≡ k.lister_get ns n w
    sync-cache now key w ns n =
        sync_handler-keeps m k (λ u. k.lister_get ns n u ≡ k.lister_get ns n w) (λ at. Unit {0})
          (λ a b u h. cache.get a b u ns n ∙ h) (λ p u h. cache.create p u ns n ∙ h)
          (λ at u t h. cache.update at u ns n ∙ h) now key w (λ a b at l instance e. tt) refl

    edge-due :
        (now : Instant) (w : W) (ns n : Bytes) (at : At) {p : Bytes}
        → Inv now w
        → k.lister_get ns n w ≡ ok at
        → Edge v m now at w p
        → Due now (sched ns n)
    edge-due now w ns n at i l (start c d) =
        subst (Due now) (i.scheduled ns n at l) (IsDue→Due now at d)
    edge-due now w ns n at i l (finish q c x t) = i.listed ns n at l (running-IsStarted at c)

    sync-launched :
        (now : Instant) (key : Bytes) (w : W)
        → Inv now w
        → (ns n : Bytes) (p : Pod)
        → v.pod_of (sync_handler m k now key w).1 ns (n ++ pod_suffix) ≡ some p
        → Due now (sched ns n)
    sync-launched now key w i ns n p h =
        elim (sync_handler-pods m k v s now key w ns (n ++ pod_suffix)) [
          | inl same ↦ i.launched ns n p (sym same ∙ h)
          | inr (ns', n', at, _, l, (c, hns, hn, _, _)) ↦
              let (kns, kn) = keyed ns' n' w at l in
              let e : ns' ≡ ns = sym kns ∙ sym (pod_namespace_lem m at) ∙ hns in
              let f : n' ≡ n =
                sym kn ∙ append_cancel_right _ _ pod_suffix (sym (pod_name_lem m at) ∙ hn) in
              subst (λ x. Due now (sched x n)) e
                (subst (λ x. Due now (sched ns' x)) f
                  (i.listed ns' n' at l (running-IsStarted at c)))
        ]

    pub sync-Inv :
        (now : Instant) (key : Bytes) (w : W) → Inv now w → Inv now (sync_handler m k now key w).1
    sync-Inv now key w i = record {
      stored = λ ns n p h st. elim (sync_handler-moves m k v s keyed now key w ns n) [
        | inl same ↦ i.stored ns n p (sym same ∙ h) st
        | inr (at, q, l, e, _) ↦ edge-due now w ns n at i l e
      ];
      scheduled = λ ns n at l. i.scheduled ns n at (sym (sync-cache now key w ns n) ∙ l);
      listed = λ ns n at l. i.listed ns n at (sym (sync-cache now key w ns n) ∙ l);
      launched = sync-launched now key w i;
    }

    pub Move-Inv : {now now' : Instant} {w w' : W} → Move now w now' w' → Inv now w → Inv now' w'
    Move-Inv (sync now w key) i = sync-Inv now key w i
    Move-Inv (tick now now' w h) i = record {
      stored = λ ns n p e st. Due_later now now' _ h (i.stored ns n p e st);
      scheduled = i.scheduled;
      listed = λ ns n at l st. Due_later now now' _ h (i.listed ns n at l st);
      launched = λ ns n p e. Due_later now now' _ h (i.launched ns n p e);
    }
    Move-Inv (outside now w w' o) i = record {
      stored = λ ns n p e st. i.stored ns n p (o.phases ns n p e st) st;
      scheduled = o.schedules;
      listed = λ ns n at l st. elim (o.listing ns n at l) [
        | inl old ↦ i.listed ns n at old st
        | inr new ↦ i.stored ns n at.status.phase new st
      ];
      launched = λ ns n p e. let (q, e') = o.pods ns n p e in i.launched ns n q e';
    }

    pub Reach-Inv :
        {now : Instant} {w : W} {now' : Instant} {w' : W}
        → Reach now w now' w'
        → Inv now w
        → Inv now' w'
    Reach-Inv here i = i
    Reach-Inv (next r mv) i = Move-Inv mv (Reach-Inv r i)

    -- In every run of syncs, of time, and of outside changes that leave schedules alone, write no RUNNING
    -- or DONE, make no pod under the name of an At's pod, and let the cache show what it showed or what
    -- is stored: if there is no such pod at first and no phase RUNNING or DONE, stored or listed, a pod
    -- under the name of an At's pod is found only when the instant that the At's schedule names has come.
    pub launch_after_schedule :
        {now now' : Instant} {w w' : W} (ns n : Bytes) (p : Pod)
        → ((a b : Bytes) (q : Bytes) → v.phase_of w a b ≡ some q → ¬ IsStarted q)
        → ((a b : Bytes) (at : At)
            → k.lister_get a b w ≡ ok at
            → (at.spec.schedule ≡ sched a b) × (¬ IsStarted at.status.phase))
        → ((a b : Bytes) → v.pod_of w a (b ++ pod_suffix) ≡ none)
        → Reach now w now' w'
        → v.pod_of w' ns (n ++ pod_suffix) ≡ some p
        → Due now' (sched ns n)
    launch_after_schedule {now} {now'} {w} {w'} ns n p fresh listed gone r h =
        (Reach-Inv r (record {
          stored = λ a b q e st. absurd (fresh a b q e st);
          scheduled = λ a b at l. (listed a b at l).0;
          listed = λ a b at l st. absurd ((listed a b at l).1 st);
          launched = λ a b q e. absurd (cc (gone a b));
        })).launched
          ns n p h
