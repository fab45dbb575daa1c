-- ===== src/Clientset/Made.antt =====
-- How NewForConfig of the clientset ends.
use kubernetes_programming.Prelude.{
  Bytes, codes, true, false, [], Option, none, some, ◌≡◌, ◌≢◌, refl, sym, ap, inl, inr, Bool-cases,
  str_eq, str_eq_refl, str_eq→eq,
}
use kubernetes_programming.Prelude.Int.{pos, ltb_ℤ}
use kubernetes_programming.Clientset.Rest.{
  RestTypes, Config, Result, made, failed, RestLib, with_user_agent,
}
use kubernetes_programming.Clientset.Typed
use kubernetes_programming.Schemes.{scheme_group_version}
use kubernetes_programming.Clientset.Typed.{set_config_defaults, client_of}
use kubernetes_programming.Clientset.Versioned.{
  Clientset, NewError, burst_required, library, with_limiter, limited, after_discovery, after_cnat,
  after_limit, new_for_config_and_client, after_http, new_for_config,
}

module _ {t : RestTypes} (r : RestLib t) where
  -- The user agent: the caller's, or the default in place of the empty one.
  pub data Agent (c : Config t) : Bytes → Type 0 where
    own_agent : c.user_agent ≢ [] → Agent c c.user_agent
    default_agent : c.user_agent ≡ [] → Agent c r.default_kubernetes_user_agent

  -- The rate limiter: the caller's, none if the QPS is not positive, or else one token bucket.
  pub data Limiter (c : Config t) (w : t.World) : Option t.RateLimiter → t.World → Type 0 where
    own_limiter : {l : t.RateLimiter} → c.rate_limiter ≡ some l → Limiter c w (some l) w
    unlimited : c.rate_limiter ≡ none → r.exceeds_zero c.qps ≡ false → Limiter c w none w
    token_bucket :
        {l : t.RateLimiter} {w' : t.World}
        → c.rate_limiter ≡ none
        → r.exceeds_zero c.qps ≡ true
        → ltb_ℤ (pos 0) c.burst ≡ true
        → r.new_token_bucket_rate_limiter c.qps c.burst w ≡ (l, w')
        → Limiter c w (some l) w'

  -- The configuration of the discovery client: the caller's but for the user agent and the limiter.
  abbrev pub prepared : Config t → Bytes → Option t.RateLimiter → Config t
  prepared c a l = record c { user_agent = a; rate_limiter = l }

  -- That of the client of Ats.
  abbrev pub for_ats : Config t → Config t
  for_ats c = record c {
    group_version = some scheme_group_version;
    api_path = codes "/apis";
    negotiated_serializer = some r.serializer;
  }

  -- What comes after the HTTP client, from the state `w₁`.
  pub data Clients (c : Config t) (a : Bytes) (h : t.HttpClient) (w₁ : t.World)
      : Result (NewError t.Error) (Clientset t) × t.World → Type 0 where
    no_burst :
        c.rate_limiter ≡ none
        → r.exceeds_zero c.qps ≡ true
        → ltb_ℤ (pos 0) c.burst ≡ false
        → Clients c a h w₁ (failed burst_required, w₁)
    no_rest :
        {l : Option t.RateLimiter} {w₂ w₃ : t.World} {e : t.Error}
        → Limiter c w₁ l w₂
        → r.rest_client_for_config_and_client (for_ats (prepared c a l)) h w₂ ≡ (failed e, w₃)
        → Clients c a h w₁ (failed (library e), w₃)
    no_discovery :
        {l : Option t.RateLimiter} {w₂ w₃ w₄ : t.World} {client : t.RestClient} {e : t.Error}
        → Limiter c w₁ l w₂
        → r.rest_client_for_config_and_client (for_ats (prepared c a l)) h w₂ ≡ (made client, w₃)
        → r.new_discovery_client_for_config_and_client (prepared c a l) h w₃ ≡ (failed e, w₄)
        → Clients c a h w₁ (failed (library e), w₄)
    both :
        {l : Option t.RateLimiter} {w₂ w₃ w₄ : t.World} {client : t.RestClient}
        {d : t.DiscoveryClient}
        → Limiter c w₁ l w₂
        → r.rest_client_for_config_and_client (for_ats (prepared c a l)) h w₂ ≡ (made client, w₃)
        → r.new_discovery_client_for_config_and_client (prepared c a l) h w₃ ≡ (made d, w₄)
        → Clients c a h w₁ (
          made (record { discovery_client = d; cnat_v1alpha1 = record { rest_client = client } }),
          w₄,
        )

  pub data Made (c : Config t) (w : t.World)
      : Result (NewError t.Error) (Clientset t) × t.World → Type 0 where
    no_http :
        {a : Bytes} {w₁ : t.World} {e : t.Error}
        → Agent c a
        → r.http_client_for (record c { user_agent = a }) w ≡ (failed e, w₁)
        → Made c w (failed (library e), w₁)
    with_http :
        {a : Bytes} {w₁ : t.World} {h : t.HttpClient}
        {x : Result (NewError t.Error) (Clientset t) × t.World}
        → Agent c a
        → r.http_client_for (record c { user_agent = a }) w ≡ (made h, w₁)
        → Clients c a h w₁ x
        → Made c w x

  with_user_agent-Agent :
      (c : Config t) → (a : Bytes) × Agent c a × (with_user_agent r c ≡ record c { user_agent = a })
  unfolding with_user_agent
  with_user_agent-Agent c = elim (Bool-cases (str_eq c.user_agent [])) [
    | inl e ↦
        (r.default_kubernetes_user_agent, default_agent (str_eq→eq c.user_agent [] e), rw e refl)
    | inr e ↦ (c.user_agent, own_agent (λ h. cc (str_eq_refl [], rw h at e)), rw e refl)
  ]

  Agent-empty :
      (c : Config t) (a : Bytes) → Agent c a → a ≡ [] → a ≡ r.default_kubernetes_user_agent
  Agent-empty c a (own_agent n) e = absurd (n e)
  Agent-empty c a (default_agent e') e = refl

  -- The second default of the user agent changes nothing.
  Agent-again :
      (c : Config t) (a : Bytes) (l : Option t.RateLimiter)
      → Agent c a
      → set_config_defaults r (prepared c a l) ≡ for_ats (prepared c a l)
  unfolding set_config_defaults with_user_agent
  Agent-again c a l g = elim (Bool-cases (str_eq a [])) [
    | inr e ↦ rw e refl
    | inl e ↦ rw e (ap (λ b. for_ats (prepared c b l)) (sym (Agent-empty c a g (str_eq→eq a [] e))))
  ]

  module _ (c : Config t) (a : Bytes) (g : Agent c a) (h : t.HttpClient) (w₁ : t.World) where
    after_discovery-Clients :
        (l : Option t.RateLimiter) (w₂ w₃ : t.World) (client : t.RestClient)
        (x : Result t.Error t.DiscoveryClient × t.World)
        → Limiter c w₁ l w₂
        → r.rest_client_for_config_and_client (for_ats (prepared c a l)) h w₂ ≡ (made client, w₃)
        → r.new_discovery_client_for_config_and_client (prepared c a l) h w₃ ≡ x
        → Clients c a h w₁ (after_discovery r (record { rest_client = client }) x)
    unfolding after_discovery
    after_discovery-Clients l w₂ w₃ client (failed e, w₄) p q s = no_discovery p q s
    after_discovery-Clients l w₂ w₃ client (made d, w₄) p q s = both p q s

    after_cnat-Clients :
        (l : Option t.RateLimiter) (w₂ : t.World) (x : Result t.Error t.RestClient × t.World)
        → Limiter c w₁ l w₂
        → r.rest_client_for_config_and_client (for_ats (prepared c a l)) h w₂ ≡ x
        → Clients c a h w₁ (after_cnat r (prepared c a l) h (client_of r x))
    unfolding after_cnat client_of
    after_cnat-Clients l w₂ (failed e, w₃) p q = no_rest p q
    after_cnat-Clients l w₂ (made client, w₃) p q =
        after_discovery-Clients l w₂ w₃ client _ p q refl

    after_limit-Clients :
        (l : Option t.RateLimiter) (w₂ : t.World)
        → Limiter c w₁ l w₂
        → Clients c a h w₁ (after_limit r h (made (prepared c a l), w₂))
    unfolding after_limit Typed.new_for_config_and_client
    after_limit-Clients l w₂ p = rw (Agent-again c a l g) (after_cnat-Clients l w₂ _ p refl)

    limited-Clients :
        (o : Option t.RateLimiter)
        → c.rate_limiter ≡ o
        → Clients c a h w₁ (after_limit r h (limited r (prepared c a o) w₁))
    unfolding limited with_limiter after_limit
    limited-Clients (some l) e = after_limit-Clients (some l) w₁ (own_limiter e)
    limited-Clients none e = elim (Bool-cases (r.exceeds_zero c.qps)) [
      | inr q ↦ rw q (after_limit-Clients none w₁ (unlimited e q))
      | inl q ↦ elim (Bool-cases (ltb_ℤ (pos 0) c.burst)) [
        | inr b ↦ rw (q, b) (no_burst e q b)
        | inl b ↦ rw (q, b) (after_limit-Clients _ _ (token_bucket e q b refl))
      ]
    ]

  after_http-Made :
      (c : Config t) (a : Bytes) (w : t.World) (x : Result t.Error t.HttpClient × t.World)
      → Agent c a
      → r.http_client_for (record c { user_agent = a }) w ≡ x
      → Made c w (after_http r (record c { user_agent = a }) x)
  unfolding after_http new_for_config_and_client
  after_http-Made c a w (failed e, w₁) g q = no_http g q
  after_http-Made c a w (made h, w₁) g q =
      with_http g q (limited-Clients c a g h w₁ c.rate_limiter refl)

  -- NewForConfig makes one HTTP client for the caller's configuration with a user agent, at most one
  -- rate limiter, and then a REST client and a discovery client that share both; their configurations
  -- differ in the group, the path and the serializer only. It is an error exactly if the burst is
  -- missing or one of these steps fails, the first such step deciding which error and what is not made.
  pub new_for_config-Made : (c : Config t) (w : t.World) → Made c w (new_for_config r c w)
  unfolding new_for_config
  new_for_config-Made c w =
      let (a, g, e) = with_user_agent-Agent c in rw e (after_http-Made c a w _ g refl)
