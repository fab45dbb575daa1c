-- ===== src/Manager/Plan.antt =====
-- main as a list of steps, each of which ends it when it fails.
use kubernetes_programming.Prelude.{
  Bytes, codes, Bool, true, false, List, [], ◌∷◌, ◌++◌, Option, none, some, ◌≡◌, refl, inl, inr,
  Bool-cases, sym, subst, str_eq, if◌then◌else◌,
}
use kubernetes_programming.Schemes.Kubebuilder.{add_to_scheme}
use kubernetes_programming.Manager.{
  main, init, default_flags, client_types, at_types, Watcher, Flags, Step, webhook_watcher,
  metrics_watcher, manager, controller, add_metrics_watcher, add_webhook_watcher, healthz, readyz,
  running, Exit, returned, failed, Libraries, check, watcher_of, watch, add_watcher, options,
  run_manager, start_up, watch_metrics, slices, serve_with,
}

abbrev pub Action : Type 0 → Type 0
Action W = Step × (W → Bool × W)

-- The steps are run in order. The first that fails ends the run; the steps behind it are not begun.
pub data Runs {W : Type 0} : List (Action W) → W → Exit × W → Type 0 where
  finished : {w : W} → Runs [] w (returned, w)
  succeeds :
      {s : Step} {act : W → Bool × W} {steps : List (Action W)} {w u : W} {x : Exit × W}
      → act w ≡ (true, u)
      → Runs steps u x
      → Runs ((s, act) ∷ steps) w x
  stops :
      {s : Step} {act : W → Bool × W} {steps : List (Action W)} {w u : W}
      → act w ≡ (false, u)
      → Runs ((s, act) ∷ steps) w (failed s, u)

run_steps : {W : Type 0} → List (Action W) → W → Exit × W
run_steps [] w = (returned, w)
run_steps ((s, act) ∷ steps) w = check s (act w) (run_steps steps)

check-Runs :
    {W : Type 0} (s : Step) (act : W → Bool × W) (steps : List (Action W)) (w : W) (r : Bool × W)
    → act w ≡ r
    → ((u : W) → Runs steps u (run_steps steps u))
    → Runs ((s, act) ∷ steps) w (check s r (run_steps steps))
unfolding check
check-Runs s act steps w (true, u) e rest = succeeds e (rest u)
check-Runs s act steps w (false, u) e rest = stops e

run_steps-Runs : {W : Type 0} (steps : List (Action W)) (w : W) → Runs steps w (run_steps steps w)
unfolding run_steps
run_steps-Runs [] w = finished
run_steps-Runs ((s, act) ∷ steps) w = check-Runs s act steps w (act w) refl (run_steps-Runs steps)

module _ {W : Type 0} (libs : Libraries W) where
  -- The watcher for a path that may be empty, and the step that makes it.
  pub wanted_watcher : Bytes → Bytes → Bytes → Option Watcher
  wanted_watcher path name key =
      if str_eq path [] then none else some (watcher_of libs path name key)

  pub watching : Step → Bytes → Bytes → Bytes → List (Action W)
  watching s path name key =
      if str_eq path []
      then []
      else (s, libs.new_watcher (libs.join path name) (libs.join path key)) ∷ []

  pub adding : Step → Option Watcher → List (Action W)
  adding s none = []
  adding s (some c) = (s, libs.add c) ∷ []

  -- From the manager on.
  pub serving : Flags → Option Watcher → Option Watcher → List (Action W)
  unfolding adding
  serving f webhook metrics =
      let (webhook_tls, metrics_tls, h) = slices libs f.enable_http2 webhook metrics in
      (manager, libs.new_manager (options libs f webhook_tls metrics_tls) h)
      ∷ (controller, libs.setup_controller)
      ∷ (adding add_metrics_watcher metrics
          ++ (adding add_webhook_watcher webhook
              ++ (healthz, libs.add_healthz_check (codes "healthz"))
                ∷ (readyz, libs.add_readyz_check (codes "readyz"))
                ∷ (running, libs.start)
                ∷ []))

  pub plan : Flags → List (Action W)
  unfolding wanted_watcher watching serving
  plan f =
      watching webhook_watcher f.webhook_cert_path f.webhook_cert_name f.webhook_cert_key
      ++ (watching metrics_watcher f.metrics_cert_path f.metrics_cert_name f.metrics_cert_key
          ++ serving f (wanted_watcher f.webhook_cert_path f.webhook_cert_name f.webhook_cert_key)
              (wanted_watcher f.metrics_cert_path f.metrics_cert_name f.metrics_cert_key))

  serve_with-steps :
      (f : Flags) (webhook metrics : Option Watcher) (w : W)
      → serve_with libs f webhook metrics w ≡ run_steps (serving f webhook metrics) w
  unfolding serve_with run_manager add_watcher run_steps serving adding slices
  serve_with-steps f none none w = refl
  serve_with-steps f none (some m) w = refl
  serve_with-steps f (some c) none w = refl
  serve_with-steps f (some c) (some m) w = refl

  check_cong :
      (s : Step) (r : Bool × W) (g h : W → Exit × W)
      → ((w : W) → g w ≡ h w)
      → check s r g ≡ check s r h
  unfolding check
  check_cong s (true, w) g h e = e w
  check_cong s (false, w) g h e = refl

  -- A watcher that is made first, whatever follows.
  watch-steps :
      (s : Step) (path name key : Bytes) (w : W) (next : Option Watcher → W → Exit × W)
      (rest : Option Watcher → List (Action W))
      → ((c : Option Watcher) (u : W) → next c u ≡ run_steps (rest c) u)
      → watch libs s path name key w next
        ≡ run_steps (watching s path name key ++ rest (wanted_watcher path name key)) w
  unfolding watch watching wanted_watcher run_steps
  watch-steps s path name key w next rest e = elim (Bool-cases (str_eq path [])) [
    | inl d ↦ rw d (e none w)
    | inr d ↦ rw d (check_cong s _ _ _ (e (some (watcher_of libs path name key))))
  ]

  start_up-steps : (f : Flags) (w : W) → start_up libs f w ≡ run_steps (plan f) w
  unfolding start_up watch_metrics plan
  start_up-steps f w =
      watch-steps webhook_watcher _ _ _ w (watch_metrics libs f)
        (λ webhook.
          watching metrics_watcher f.metrics_cert_path f.metrics_cert_name f.metrics_cert_key
          ++ serving f webhook
              (wanted_watcher f.metrics_cert_path f.metrics_cert_name f.metrics_cert_key))
        (λ webhook u.
          watch-steps metrics_watcher _ _ _ u (serve_with libs f webhook) (serving f webhook)
            (serve_with-steps f webhook))

  -- From the package's init on.
  pub whole_plan : Flags → List (Action W)
  unfolding plan
  whole_plan f =
      (client_types, libs.add_client_types) ∷ (at_types, add_to_scheme libs.add_registered) ∷ plan f

  main-steps : (w : W) → main libs w ≡ run_steps (whole_plan (libs.parse_flags default_flags)) w
  unfolding main init whole_plan run_steps
  main-steps w =
      check_cong client_types _ _ _
        (λ w. check_cong at_types (add_to_scheme libs.add_registered w) _ _ (start_up-steps _))

  -- The program runs its plan: it registers the types, makes the certificate watchers whose paths are
  -- set by the flags, makes the manager, sets up the controller, adds the watchers that were made, adds
  -- the two health checks and starts the manager. main returns exactly if all of this succeeds; the
  -- first step that fails is the one that ends the program, and no later step is begun.
  pub main-Runs : (w : W) → Runs (whole_plan (libs.parse_flags default_flags)) w (main libs w)
  main-Runs w = subst (Runs (whole_plan _) w) (sym (main-steps w)) (run_steps-Runs (whole_plan _) w)
