-- ===== src/Manager.antt =====
-- cnat-kubebuilder/cmd/main.go: the start-up of the manager. TLS options are Go slices, which share
-- their array when they are copied.
pub mod Options
pub mod Plan
mod Examples
use kubernetes_programming.Prelude.{
  Bytes, codes, Bool, true, false, ℕ, zero, suc, ◌+◌, ◌==◌, List, [], ◌∷◌, Option, none, some, ltb,
  if◌then◌else◌, not, str_eq,
}
use kubernetes_programming.Schemes.{GroupVersion, GoType}
use kubernetes_programming.Schemes.Kubebuilder.{add_to_scheme}

-- certwatcher.CertWatcher, by the files that it watches.
pub record Watcher : Type 0 where
  pub cert_file : Bytes
  pub key_file : Bytes

-- func(*tls.Config): the closures that the program makes, and nil.
pub data TlsOption : Type 0 where
  disable_http2 : TlsOption
  get_certificate : Watcher → TlsOption
  unset : TlsOption

-- The arrays behind the slices, by number; those from `next` on are free.
pub record Heap : Type 0 where
  pub next : ℕ
  pub cells : ℕ → ℕ → TlsOption

pub record Slice : Type 0 where
  pub array : ℕ
  pub len : ℕ
  pub cap : ℕ

abbrev pub empty_heap : Heap
empty_heap = record { next = 0; cells = λ a i. unset }

abbrev pub nil_slice : Slice
nil_slice = record { array = 0; len = 0; cap = 0 }

read : (ℕ → TlsOption) → ℕ → ℕ → List TlsOption
read cells i zero = []
read cells i (suc n) = cells i ∷ read cells (suc i) n

-- What a loop over the slice sees.
unfoldable pub values : Heap → Slice → List TlsOption
unfolding read
values h s = read (h.cells s.array) 0 s.len

-- The command line flags.
pub record Flags : Type 0 where
  pub metrics_addr : Bytes
  pub probe_addr : Bytes
  pub enable_leader_election : Bool
  pub secure_metrics : Bool
  pub webhook_cert_path : Bytes
  pub webhook_cert_name : Bytes
  pub webhook_cert_key : Bytes
  pub metrics_cert_path : Bytes
  pub metrics_cert_name : Bytes
  pub metrics_cert_key : Bytes
  pub enable_http2 : Bool

-- Their defaults.
abbrev pub default_flags : Flags
default_flags = record {
  metrics_addr = codes "0";
  probe_addr = codes ":8081";
  enable_leader_election = false;
  secure_metrics = true;
  webhook_cert_path = [];
  webhook_cert_name = codes "tls.crt";
  webhook_cert_key = codes "tls.key";
  metrics_cert_path = [];
  metrics_cert_name = codes "tls.crt";
  metrics_cert_key = codes "tls.key";
  enable_http2 = false;
}

-- ctrl.Options, with the options of the metrics server and the TLS options of the webhook server.
pub record ManagerOptions : Type 0 where
  pub bind_address : Bytes
  pub secure_serving : Bool
  pub metrics_tls : Slice
  pub filter_provider : Bool
  pub webhook_tls : Slice
  pub probe_address : Bytes
  pub leader_election : Bool
  pub leader_election_id : Bytes

-- The steps that can fail, and how the program ends: main returns, or a step ends it, by the panic of
-- utilruntime.Must if it registers types, and by os.Exit(1) otherwise.
pub data Step : Type 0 where
  client_types at_types webhook_watcher metrics_watcher manager controller add_metrics_watcher
        add_webhook_watcher healthz readyz running :
      Step

pub data Exit : Type 0 where
  returned : Exit
  failed : Step → Exit

-- The libraries' calls; false is an error. `add_registered` is AddToScheme of a scheme.Builder. `growth` is the capacity that append gives to a new array
-- for so many elements, and `parse_flags` is flag.Parse on a command line
-- that it accepts: from the defaults to the values.
pub record Libraries (W : Type 0) : Type 0 where
  pub add_client_types : W → Bool × W
  pub add_registered : GroupVersion → List GoType → W → Bool × W
  pub parse_flags : Flags → Flags
  pub growth : ℕ → ℕ
  pub join : Bytes → Bytes → Bytes
  pub new_watcher : Bytes → Bytes → W → Bool × W
  pub new_manager : ManagerOptions → Heap → W → Bool × W
  pub setup_controller : W → Bool × W
  pub add : Watcher → W → Bool × W
  pub add_healthz_check : Bytes → W → Bool × W
  pub add_readyz_check : Bytes → W → Bool × W
  pub start : W → Bool × W

-- `if err != nil { os.Exit(1) }`, and utilruntime.Must.
pub check : {W : Type 0} → Step → Bool × W → (W → Exit × W) → Exit × W
check step (false, w) next = (failed step, w)
check step (true, w) next = next w

module _ {W : Type 0} (libs : Libraries W) where
  pub append : Heap → Slice → TlsOption → Slice × Heap
  append h s x =
      if ltb s.len s.cap
      then (
        record s { len = s.len + 1 },
        record h {
          cells =
              λ a i. if a == s.array then (if i == s.len then x else h.cells a i) else h.cells a i;
        },
      )
      else (
        record { array = h.next; len = s.len + 1; cap = libs.growth (s.len + 1) },
        record {
          next = h.next + 1;
          cells = λ a i.
              if a == h.next
              then (if ltb i s.len then h.cells s.array i else if i == s.len then x else unset)
              else h.cells a i;
        },
      )

  initial : Bool → Slice × Heap
  unfolding append
  initial true = (nil_slice, empty_heap)
  initial false = append empty_heap nil_slice disable_http2

  with_certificate : Option Watcher → Slice → Heap → Slice × Heap
  unfolding append
  with_certificate none s h = (s, h)
  with_certificate (some c) s h = append h s (get_certificate c)

  -- The watcher of a path, if the path is set.
  abbrev pub watcher_of : Bytes → Bytes → Bytes → Watcher
  watcher_of path name key = record {
    cert_file = libs.join path name;
    key_file = libs.join path key;
  }

  watch : Step → Bytes → Bytes → Bytes → W → (Option Watcher → W → Exit × W) → Exit × W
  unfolding check
  watch step path name key w next =
      if not (str_eq path [])
      then check step (libs.new_watcher (libs.join path name) (libs.join path key) w)
          (λ w'. next (some (watcher_of path name key)) w')
      else next none w

  add_watcher : Step → Option Watcher → W → (W → Exit × W) → Exit × W
  unfolding check
  add_watcher step none w next = next w
  add_watcher step (some c) w next = check step (libs.add c w) next

  unfoldable pub options : Flags → Slice → Slice → ManagerOptions
  options f webhook metrics = record {
    bind_address = f.metrics_addr;
    secure_serving = f.secure_metrics;
    metrics_tls = metrics;
    filter_provider = f.secure_metrics;
    webhook_tls = webhook;
    probe_address = f.probe_addr;
    leader_election = f.enable_leader_election;
    leader_election_id = codes "aa5dccff.programming-kubernetes.info";
  }

  -- From ctrl.NewManager on.
  unfoldable pub run_manager :
      ManagerOptions → Heap → Option Watcher → Option Watcher → W → Exit × W
  unfolding check add_watcher
  run_manager o h webhook metrics w = check manager (libs.new_manager o h w) (λ w.
      check controller (libs.setup_controller w) (λ w.
        add_watcher add_metrics_watcher metrics w (λ w.
          add_watcher add_webhook_watcher webhook w (λ w.
            check healthz (libs.add_healthz_check (codes "healthz") w) (λ w.
              check readyz (libs.add_readyz_check (codes "readyz") w)
                (λ w. check running (libs.start w) (λ w. (returned, w))))))))

  -- The slices of the two servers, which are made from the same one.
  pub slices : Bool → Option Watcher → Option Watcher → Slice × Slice × Heap
  unfolding initial with_certificate
  slices http2 webhook metrics =
      let (tls, h) = initial http2 in
      let (webhook_tls, h') = with_certificate webhook tls h in
      let (metrics_tls, h'') = with_certificate metrics tls h' in (webhook_tls, metrics_tls, h'')

  serve_with : Flags → Option Watcher → Option Watcher → W → Exit × W
  unfolding slices run_manager options
  serve_with f webhook metrics w =
      let (webhook_tls, metrics_tls, h) = slices f.enable_http2 webhook metrics in
      run_manager (options f webhook_tls metrics_tls) h webhook metrics w

  watch_metrics : Flags → Option Watcher → W → Exit × W
  unfolding watch serve_with
  watch_metrics f webhook w =
      watch metrics_watcher f.metrics_cert_path f.metrics_cert_name f.metrics_cert_key w
        (serve_with f webhook)

  unfoldable pub start_up : Flags → W → Exit × W
  unfolding watch_metrics
  start_up f w =
      watch webhook_watcher f.webhook_cert_path f.webhook_cert_name f.webhook_cert_key w
        (watch_metrics f)

  -- The package's init, which runs before main.
  init : W → (W → Exit × W) → Exit × W
  unfolding check add_to_scheme
  init w next =
      check client_types (libs.add_client_types w)
        (λ w. check at_types (add_to_scheme libs.add_registered w) next)

  unfoldable pub main : W → Exit × W
  unfolding init start_up
  main w = init w (λ w. start_up (libs.parse_flags default_flags) w)
