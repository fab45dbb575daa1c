-- ===== src/Controller/Examples/Lives.antt =====
-- A sync against an API server that checks versions.
use kubernetes_programming.Prelude.{
  ◌≡◌, codes, str_eq, ◌∷◌, inl, Bytes, [], some, none, refl, ap, ◌∙◌, sym, Option,
}
use kubernetes_programming.Api.{At, phase_running, phase_case, deep_equal}
use kubernetes_programming.Clock.{sub, run_parse}
use kubernetes_programming.Text.{split}
use kubernetes_programming.Kube.Memory.{put, find_at, find_at_single, machinery}
use kubernetes_programming.Kube.Versioned.{
  matches, Versioned, versioned, versioned_view, versioned-IsServer, versioned-ListsByKey,
}
use kubernetes_programming.Kube.Versioned.Versions.{
  checked-rejected, checked-others, checked-accepted, versioned-changed, versioned-unlisted,
  versioned-KeepsCache,
}
use kubernetes_programming.Controller.{
  sync_handler, from_key, from_lister, sync_at, default_phase, switch, pending_case, after_schedule,
  time_until_schedule, save, updated,
}
use kubernetes_programming.Controller.Life.{life, IsLocking, IsSnapshot}
use kubernetes_programming.Controller.Life.Path.{
  Steps, IsVersioning, Elsewhere, Turns, start, next, sync, elsewhere, Turns-Steps,
}
use kubernetes_programming.Controller.Examples.{ns, n, key, due, sample, no_pods, world}

abbrev version_of : Versioned → Bytes → Bytes → Option Bytes
version_of w = w.versions

versioned-IsLocking : IsLocking versioned version_of
versioned-IsLocking = record {
  get_version = λ a b w c d. refl;
  create_version = λ p w c d. refl;
  rejected_version = λ at w e c d h.
      ap (λ f. f c d)
        (checked-rejected at
          (matches (w.versions at.meta.namespace at.meta.name) at.meta.resource_version) w e h);
  other_version = λ at w c d h.
      checked-others at
        (matches (w.versions at.meta.namespace at.meta.name) at.meta.resource_version) w c d h;
  accepted = λ at a w h.
      checked-accepted at a
        (matches (w.versions at.meta.namespace at.meta.name) at.meta.resource_version) w
        (w.versions at.meta.namespace at.meta.name) refl h;
}

-- The At is stored without a phase and with the version that the cache shows.
abbrev fresh : Versioned
fresh = record { objects = world [] no_pods; versions = put (λ a b. none) ns n [] }

fresh-IsSnapshot : IsSnapshot versioned versioned_view version_of fresh
fresh-IsSnapshot a b at l h =
    let (e, _, _) = find_at_single (sample []) at a b l in
    h
    ∙ ap (λ (x : At). some x.meta.resource_version) e
    ∙ sym (ap (λ (x : At). some x.status.phase) e)

versioned-IsVersioning : IsVersioning machinery versioned versioned_view version_of
versioned-IsVersioning = record {
  changed = λ at a w ns n. versioned-changed at a w ns n;
  unlisted = λ at a w ns n l. versioned-unlisted at a w ns n l;
}

-- The first sync sets the phase, and the cache is refreshed before the second.
abbrev started : Versioned
started = (sync_handler machinery versioned due key fresh).1

abbrev refreshed : At
refreshed = record (sample phase_running) {
  meta = record (sample phase_running).meta { resource_version = codes "1" };
}

abbrev seen : Versioned
seen = record started { objects = record started.objects { cached = refreshed ∷ [] } }

stored_running : started.objects.phases ns n ≡ some phase_running
unfolding sync_handler from_key from_lister sync_at default_phase switch pending_case after_schedule
    time_until_schedule sub save updated split find_at str_eq phase_case deep_equal run_parse
stored_running = refl

refresh : Elsewhere machinery versioned versioned_view version_of started seen
refresh = record {
  lives = λ a b. refl;
  listing = λ a b at l h.
      let (e, f, g) = find_at_single refreshed at a b l in inl (rw (e, ← f, ← g, stored_running));
}

abbrev turns :
    Turns machinery versioned versioned_view version_of fresh
      (sync_handler machinery versioned due key seen).1
turns = next (next (next start (sync due key fresh)) (elsewhere refresh)) (sync due key seen)

Turns-Steps_example :
    Steps
      (life (versioned_view.phase_of fresh ns n))
      (life (versioned_view.phase_of (sync_handler machinery versioned due key seen).1 ns n))
Turns-Steps_example =
    Turns-Steps machinery versioned versioned_view version_of versioned-IsServer
      versioned-ListsByKey versioned-KeepsCache versioned-IsLocking versioned-IsVersioning ns n
      fresh-IsSnapshot turns
