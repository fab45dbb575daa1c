-- ===== src/Manager/Options.antt =====
-- The TLS options that the two servers see.
use kubernetes_programming.Prelude.{
  ℕ, ltb, if◌then◌else◌, Bool-cases, inl, inr, Bytes, Bool, true, false, List, [], ◌∷◌, Option,
  none, some, ◌≡◌, refl, str_eq, ◌∙◌,
}
use kubernetes_programming.Manager.{
  Step, Watcher, TlsOption, disable_http2, get_certificate, Heap, values, read, Flags,
  ManagerOptions, Exit, Libraries, append, initial, with_certificate, options, run_manager, slices,
  serve_with, watch_metrics, start_up, watch, watcher_of, check, webhook_watcher, metrics_watcher,
}

-- The options that a server is meant to have: HTTP/2 off unless it is enabled, then the certificate.
pub wanted : Bool → Option Watcher → List TlsOption
wanted true none = []
wanted true (some c) = get_certificate c ∷ []
wanted false none = disable_http2 ∷ []
wanted false (some c) = disable_http2 ∷ get_certificate c ∷ []

-- What the webhook server sees, `cap` being the capacity that append gives to an array for one element:
-- if both certificates are appended to the slice with one element and there is room in its array, they
-- are written to the same cell, the metrics server's last.
pub webhook_sees : ℕ → Bool → Option Watcher → Option Watcher → List TlsOption
unfolding wanted
webhook_sees cap false (some c) (some m) =
    disable_http2 ∷ get_certificate (if ltb 1 cap then m else c) ∷ []
webhook_sees cap http2 webhook metrics = wanted http2 webhook

module _ {W : Type 0} (libs : Libraries W) where
  slices-wanted :
      (http2 : Bool) (webhook metrics : Option Watcher)
      → let (web, met, h) = slices libs http2 webhook metrics in
        (values h web ≡ webhook_sees (libs.growth 1) http2 webhook metrics)
        × (values h met ≡ wanted http2 metrics)
  unfolding slices initial with_certificate append values read wanted webhook_sees
  slices-wanted true none none = (refl, refl)
  slices-wanted true none (some m) = (refl, refl)
  slices-wanted true (some c) none = (refl, refl)
  slices-wanted true (some c) (some m) = (refl, refl)
  slices-wanted false none none = (refl, refl)
  slices-wanted false none (some m) = elim (Bool-cases (ltb 1 (libs.growth 1))) [
    | inl e ↦ rw e (refl, refl)
    | inr e ↦ rw e (refl, refl)
  ]
  slices-wanted false (some c) none = elim (Bool-cases (ltb 1 (libs.growth 1))) [
    | inl e ↦ rw e (refl, refl)
    | inr e ↦ rw e (refl, refl)
  ]
  slices-wanted false (some c) (some m) = elim (Bool-cases (ltb 1 (libs.growth 1))) [
    | inl e ↦ rw e (refl, refl)
    | inr e ↦ rw e (refl, refl)
  ]

  -- A certificate watcher is made if its path is set, and only then.
  pub data Watched (path name key : Bytes) : W → Option Watcher → W → Type 0 where
    unwatched : {w : W} → str_eq path [] ≡ true → Watched path name key w none w
    watched :
        {w w' : W}
        → str_eq path [] ≡ false
        → libs.new_watcher (libs.join path name) (libs.join path key) w ≡ (true, w')
        → Watched path name key w (some (watcher_of libs path name key)) w'

  watch-Watched :
      (step : Step) (path name key : Bytes) {w w' : W} {c : Option Watcher}
      (next : Option Watcher → W → Exit × W)
      → Watched path name key w c w'
      → watch libs step path name key w next ≡ next c w'
  unfolding watch check
  watch-Watched step path name key next (unwatched e) = rw e refl
  watch-Watched step path name key next (watched e h) = rw (e, h, check) refl

  -- When the watchers that are wanted have been made, main goes on to the manager with options for
  -- which the following holds. The webhook server and the metrics server each see HTTP/2 switched off
  -- unless it is enabled, and the metrics server its own certificate. The webhook server sees its own
  -- certificate, but for one case: HTTP/2 is off, both certificates are set, and append gives the array
  -- of the first option room for more than one element. Then it sees that of the metrics server, since
  -- both slices are made from the same one. The metrics are filtered exactly if they are served
  -- securely.
  pub tls_served :
      (f : Flags) {w w₁ w₂ : W} {webhook metrics : Option Watcher}
      → Watched f.webhook_cert_path f.webhook_cert_name f.webhook_cert_key w webhook w₁
      → Watched f.metrics_cert_path f.metrics_cert_name f.metrics_cert_key w₁ metrics w₂
      → (o : ManagerOptions) × (h : Heap) × (start_up libs f w
          ≡ run_manager libs o h webhook metrics w₂)
        × (values h o.webhook_tls ≡ webhook_sees (libs.growth 1) f.enable_http2 webhook metrics)
        × (values h o.metrics_tls ≡ wanted f.enable_http2 metrics)
        × (o.filter_provider ≡ f.secure_metrics)
        × (o.secure_serving ≡ f.secure_metrics)
  unfolding start_up watch_metrics serve_with options slices
  tls_served f {webhook} {metrics} a b =
      let (web, met, h) = slices libs f.enable_http2 webhook metrics in
      let (p, q) = slices-wanted f.enable_http2 webhook metrics in
      (
        options libs f web met,
        h,
        watch-Watched webhook_watcher _ _ _ (watch_metrics libs f) a
            ∙ watch-Watched metrics_watcher _ _ _ (serve_with libs f webhook) b,
        p,
        q,
        refl,
        refl,
      )
