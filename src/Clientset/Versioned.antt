-- ===== src/Clientset/Versioned.antt =====
-- clientset.go: the clientset.
use kubernetes_programming.Prelude.{Bool, true, false, Option, none, some, ◌&&◌, not, if◌then◌else◌}
use kubernetes_programming.Prelude.Int.{pos, ltb_ℤ}
use kubernetes_programming.Clientset.Rest.{
  RestTypes, Config, Result, made, failed, RestLib, Exit, or_die, with_user_agent,
}
use kubernetes_programming.Clientset.Typed
use kubernetes_programming.Clientset.Typed.{CnatV1alpha1Client}

pub record Clientset (t : RestTypes) : Type 0 where
  pub discovery_client : t.DiscoveryClient
  pub cnat_v1alpha1 : CnatV1alpha1Client t

-- The error of NewForConfigAndClient itself, or one of client-go.
pub data NewError (E : Type 0) : Type 0 where
  burst_required : NewError E
  library : E → NewError E

-- The receiver may be a nil pointer.
unfoldable pub discovery : {t : RestTypes} → Option (Clientset t) → Option t.DiscoveryClient
discovery none = none
discovery (some c) = some c.discovery_client

abbrev pub is_nil : {A : Type 0} → Option A → Bool
is_nil none = true
is_nil (some _) = false

module _ {t : RestTypes} (r : RestLib t) where
  unfoldable pub with_limiter : Config t → t.World → Result (NewError t.Error) (Config t) × t.World
  with_limiter c w =
      let (l, w') = r.new_token_bucket_rate_limiter c.qps c.burst w in
      (made (record c { rate_limiter = some l }), w')

  -- The rate limiter, unless the burst is missing.
  unfoldable pub limited : Config t → t.World → Result (NewError t.Error) (Config t) × t.World
  unfolding with_limiter
  limited c w =
      if is_nil c.rate_limiter && r.exceeds_zero c.qps
      then if not (ltb_ℤ (pos 0) c.burst) then (failed burst_required, w) else with_limiter c w
      else (made c, w)

  unfoldable pub after_discovery :
      CnatV1alpha1Client t
      → Result t.Error t.DiscoveryClient × t.World
      → Result (NewError t.Error) (Clientset t) × t.World
  after_discovery cnat (failed e, w) = (failed (library e), w)
  after_discovery cnat (made d, w) =
      (made (record { discovery_client = d; cnat_v1alpha1 = cnat }), w)

  unfoldable pub after_cnat :
      Config t
      → t.HttpClient
      → Result t.Error (CnatV1alpha1Client t) × t.World
      → Result (NewError t.Error) (Clientset t) × t.World
  unfolding after_discovery
  after_cnat c h (failed e, w) = (failed (library e), w)
  after_cnat c h (made cnat, w) =
      after_discovery cnat (r.new_discovery_client_for_config_and_client c h w)

  unfoldable pub after_limit :
      t.HttpClient
      → Result (NewError t.Error) (Config t) × t.World
      → Result (NewError t.Error) (Clientset t) × t.World
  unfolding after_cnat
  after_limit h (failed e, w) = (failed e, w)
  after_limit h (made c, w) = after_cnat c h (Typed.new_for_config_and_client r c h w)

  unfoldable pub new_for_config_and_client :
      Config t → t.HttpClient → t.World → Result (NewError t.Error) (Clientset t) × t.World
  unfolding after_limit limited
  new_for_config_and_client c h w = after_limit h (limited c w)

  unfoldable pub after_http :
      Config t
      → Result t.Error t.HttpClient × t.World
      → Result (NewError t.Error) (Clientset t) × t.World
  unfolding new_for_config_and_client
  after_http c (failed e, w) = (failed (library e), w)
  after_http c (made h, w) = new_for_config_and_client c h w

  unfoldable pub new_for_config :
      Config t → t.World → Result (NewError t.Error) (Clientset t) × t.World
  unfolding with_user_agent after_http
  new_for_config c w =
      let config = with_user_agent r c in after_http config (r.http_client_for config w)

  unfoldable pub new_for_config_or_die :
      Config t → t.World → Exit (NewError t.Error) (Clientset t) × t.World
  unfolding new_for_config
  new_for_config_or_die c w = or_die (new_for_config c w)

  unfoldable pub new : t.RestClient → Clientset t
  new c = record { discovery_client = r.new_discovery_client c; cnat_v1alpha1 = Typed.new r c }

unfoldable pub cnat_client : {t : RestTypes} → Clientset t → CnatV1alpha1Client t
cnat_client c = c.cnat_v1alpha1
