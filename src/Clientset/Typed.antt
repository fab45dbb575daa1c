-- ===== src/Clientset/Typed.antt =====
-- typed/cnat/v1alpha1/cnat_client.go, and newAts of at.go.
use kubernetes_programming.Prelude.{Bytes, codes, Option, none, some}
use kubernetes_programming.Schemes.{scheme_group_version}
use kubernetes_programming.Clientset.Rest.{
  RestTypes, Config, Result, made, failed, RestLib, Exit, or_die, with_user_agent,
}

pub record CnatV1alpha1Client (t : RestTypes) : Type 0 where
  pub rest_client : t.RestClient

module _ {t : RestTypes} (r : RestLib t) where
  unfoldable pub set_config_defaults : Config t → Config t
  set_config_defaults config = with_user_agent r (record config {
    group_version = some scheme_group_version;
    api_path = codes "/apis";
    negotiated_serializer = some r.serializer;
  })

  unfoldable pub new : t.RestClient → CnatV1alpha1Client t
  new c = record { rest_client = c }

  unfoldable pub client_of :
      Result t.Error t.RestClient × t.World → Result t.Error (CnatV1alpha1Client t) × t.World
  client_of (made client, w) = (made (record { rest_client = client }), w)
  client_of (failed e, w) = (failed e, w)

  unfoldable pub new_for_config_and_client :
      Config t → t.HttpClient → t.World → Result t.Error (CnatV1alpha1Client t) × t.World
  unfolding set_config_defaults client_of
  new_for_config_and_client c h w =
      client_of (r.rest_client_for_config_and_client (set_config_defaults c) h w)

  unfoldable pub after_http :
      Config t
      → Result t.Error t.HttpClient × t.World
      → Result t.Error (CnatV1alpha1Client t) × t.World
  unfolding new_for_config_and_client
  after_http config (failed e, w) = (failed e, w)
  after_http config (made h, w) = new_for_config_and_client config h w

  unfoldable pub new_for_config :
      Config t → t.World → Result t.Error (CnatV1alpha1Client t) × t.World
  unfolding after_http
  new_for_config c w =
      let config = set_config_defaults c in after_http config (r.http_client_for config w)

  unfoldable pub new_for_config_or_die :
      Config t → t.World → Exit t.Error (CnatV1alpha1Client t) × t.World
  unfolding new_for_config
  new_for_config_or_die c w = or_die (new_for_config c w)

  -- The receiver may be a nil pointer.
  unfoldable pub rest_client : Option (CnatV1alpha1Client t) → t.RestClient
  rest_client none = r.nil_rest
  rest_client (some c) = c.rest_client

  -- newAts.
  unfoldable pub ats : Option (CnatV1alpha1Client t) → Bytes → t.AtClient
  unfolding rest_client
  ats c namespace = r.new_at_client (codes "ats") (rest_client c) namespace
