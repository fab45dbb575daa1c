-- ===== src/Clientset/Rest.antt =====
-- What the typed clients use of client-go's rest and discovery packages, and what both of them do
-- to a configuration. The functions of the program that take a *rest.Config copy it first, so a
-- Config is passed by value.
use kubernetes_programming.Prelude.{Bytes, Bool, [], Option, str_eq, if◌then◌else◌}
use kubernetes_programming.Schemes.{GroupVersion}
use kubernetes_programming.Prelude.Int.{ℤ}

-- float32, rate limiters, serializers, the fields of rest.Config that are carried unread, HTTP and
-- REST clients, discovery clients, errors, and the state that constructors may change.
pub record RestTypes : Type 1 where
  pub Float : Type 0
  pub RateLimiter : Type 0
  pub Serializer : Type 0
  pub Unread : Type 0
  pub HttpClient : Type 0
  pub RestClient : Type 0
  pub DiscoveryClient : Type 0
  pub AtClient : Type 0
  pub Error : Type 0
  pub World : Type 0

-- rest.Config.
pub record Config (t : RestTypes) : Type 0 where
  pub user_agent : Bytes
  pub qps : t.Float
  pub burst : ℤ
  pub rate_limiter : Option t.RateLimiter
  pub group_version : Option GroupVersion
  pub api_path : Bytes
  pub negotiated_serializer : Option t.Serializer
  pub unread : t.Unread

-- A pointer and a nil error, or an error.
pub data Result (E A : Type 0) : Type 0 where
  made : A → Result E A
  failed : E → Result E A

-- `exceeds_zero` is QPS > 0; `serializer` is rest.CodecFactoryForGeneratedClient(scheme.Scheme,
-- scheme.Codecs).WithoutConversion(); `new_at_client` is gentype.NewClientWithList for the resource
-- of that name, with the parameter codec and the empty objects of Ats; `nil_rest` is the nil
-- rest.Interface.
pub record RestLib (t : RestTypes) : Type 0 where
  pub exceeds_zero : t.Float → Bool
  pub default_kubernetes_user_agent : Bytes
  pub serializer : t.Serializer
  pub new_token_bucket_rate_limiter : t.Float → ℤ → t.World → t.RateLimiter × t.World
  pub http_client_for : Config t → t.World → Result t.Error t.HttpClient × t.World
  pub rest_client_for_config_and_client :
      Config t → t.HttpClient → t.World → Result t.Error t.RestClient × t.World
  pub new_discovery_client_for_config_and_client :
      Config t → t.HttpClient → t.World → Result t.Error t.DiscoveryClient × t.World
  pub new_discovery_client : t.RestClient → t.DiscoveryClient
  pub nil_rest : t.RestClient
  pub new_at_client : Bytes → t.RestClient → Bytes → t.AtClient

-- Return, or panic.
pub data Exit (E A : Type 0) : Type 0 where
  returned : A → Exit E A
  panics : E → Exit E A

unfoldable pub or_die : {E A W : Type 0} → Result E A × W → Exit E A × W
or_die (made a, w) = (returned a, w)
or_die (failed e, w) = (panics e, w)

module _ {t : RestTypes} (r : RestLib t) where
  -- if UserAgent == "" { UserAgent = rest.DefaultKubernetesUserAgent() }
  unfoldable pub with_user_agent : Config t → Config t
  with_user_agent c =
      if str_eq c.user_agent []
      then record c { user_agent = r.default_kubernetes_user_agent }
      else c
