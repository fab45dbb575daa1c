-- ===== src/Clientset/Examples.antt =====
-- Clients that record from what they were made.
mod Trackers
use kubernetes_programming.Prelude.{
  Bytes, codes, ℕ, suc, [], ◌∷◌, Option, none, some, ◌≡◌, refl, not, ◌==◌, str_eq,
}
use kubernetes_programming.Prelude.Int.{ℤ, pos}
use kubernetes_programming.Clientset.Rest.{
  RestTypes, Config, Result, made, failed, RestLib, with_user_agent,
}
use kubernetes_programming.Clientset.Typed
use kubernetes_programming.Clientset.Typed.{set_config_defaults, client_of}
use kubernetes_programming.Clientset.Versioned.{
  burst_required, library, limited, with_limiter, after_discovery, after_cnat, after_limit,
  new_for_config_and_client, after_http, new_for_config,
}
use kubernetes_programming.Clientset.Made.{Made, new_for_config-Made}

-- A client is the user agent, the rate limiter and the API path of its configuration; the world is
-- the number of rate limiters.
abbrev pub types : RestTypes
types = record {
  Float = ℕ;
  RateLimiter = ℕ;
  Serializer = Bytes;
  Unread = Bytes;
  HttpClient = Bytes;
  RestClient = Bytes × Option ℕ × Bytes;
  DiscoveryClient = Bytes × Option ℕ × Bytes;
  AtClient = Bytes × Bytes;
  Error = Bytes;
  World = ℕ;
}

abbrev client_for : Config types → Bytes × Option ℕ × Bytes
client_for c = (c.user_agent, c.rate_limiter, c.api_path)

-- A configuration whose unread part is not empty has a bad TLS section.
abbrev http_client_for : Bytes → Config types → ℕ → Result Bytes Bytes × ℕ
http_client_for [] c w = (made c.user_agent, w)
http_client_for (x ∷ xs) c w = (failed (x ∷ xs), w)

abbrev pub lib : RestLib types
lib = record {
  exceeds_zero = λ q. not (q == 0);
  default_kubernetes_user_agent = codes "go";
  serializer = codes "json";
  new_token_bucket_rate_limiter = λ q b w. (suc w, suc w);
  http_client_for = λ c w. http_client_for c.unread c w;
  rest_client_for_config_and_client = λ c h w. (made (client_for c), w);
  new_discovery_client_for_config_and_client = λ c h w. (made (client_for c), w);
  new_discovery_client = λ c. c;
  nil_rest = ([], none, []);
  new_at_client = λ s c ns. (s, ns);
}

abbrev pub config : ℤ → Bytes → Config types
config burst unread = record {
  user_agent = [];
  qps = 5;
  burst = burst;
  rate_limiter = none;
  group_version = none;
  api_path = [];
  negotiated_serializer = none;
  unread = unread;
}

new_for_config-Made_example :
    Made lib (config (pos 10) []) 0 (new_for_config lib (config (pos 10) []) 0)
new_for_config-Made_example = new_for_config-Made lib (config (pos 10) []) 0

-- Both clients have the one rate limiter.
one_limiter : new_for_config lib (config (pos 10) []) 0 ≡ (
  made (record {
    discovery_client = (codes "go", some 1, []);
    cnat_v1alpha1 = record { rest_client = (codes "go", some 1, codes "/apis") };
  }),
  1,
)
unfolding new_for_config str_eq with_user_agent after_http new_for_config_and_client after_limit
    limited with_limiter after_cnat after_discovery Typed.new_for_config_and_client
    set_config_defaults client_of
one_limiter = refl

burst_missing : new_for_config lib (config (pos 0) []) 0 ≡ (failed burst_required, 0)
unfolding new_for_config str_eq with_user_agent after_http new_for_config_and_client after_limit
    limited
burst_missing = refl

bad_tls : new_for_config lib (config (pos 0) (codes "tls")) 0 ≡ (failed (library (codes "tls")), 0)
unfolding new_for_config str_eq with_user_agent after_http
bad_tls = refl
