-- ===== src/Crd/Client/RateLimited.antt =====
-- The clients that a clientset is made of.
use cnf_nsm.Common.{
  ◌∙◌, sym, ap, Bool-cases, inl, inr, Option-cases, ◌≡◌, refl, true, false, Option, none, some,
  arith, codes,
}
use cnf_nsm.Common.Int64.{is_positive}
use cnf_nsm.Errors.{Result-cases, ok}
use cnf_nsm.Crd.Client.Config.{
  RestConfig, KubeLibrary, Clientset, set_config_defaults, new_pantheon_for_config, rate_limited,
  new_for_config,
}

module _ {Q L R D : Type 0} (kube : KubeLibrary Q L R D) where
  -- The limiter of the clients: that which was set, or a token bucket if the rate is positive, for which
  -- the burst must be positive; there is none otherwise.
  pub record IsLimiterOf (c : RestConfig Q L) (limiter : Option L) : Type 0 where
    pub set : (l : L) → c.rate_limiter ≡ some l → limiter ≡ some l
    pub made :
        c.rate_limiter ≡ none
        → kube.rate_is_positive c.qps ≡ true
        → (is_positive c.burst ≡ true)
          × (limiter ≡ some (kube.new_token_bucket_rate_limiter c.qps c.burst))
    pub unlimited : c.rate_limiter ≡ none → kube.rate_is_positive c.qps ≡ false → limiter ≡ none

  rate_limited_lem :
      (c c' : RestConfig Q L)
      → rate_limited kube c ≡ ok c'
      → (c' ≡ record c { rate_limiter = c'.rate_limiter }) × IsLimiterOf c c'.rate_limiter
  unfolding rate_limited
  rate_limited_lem c c' h = elim (Option-cases c.rate_limiter) [
    | inr (l, set) ↦
        let same : c' ≡ c = ground arith in
        rw same (
          refl,
          record {
            set = λ k e. e;
            made = λ unset positive. absurd (ground arith);
            unlimited = λ unset idle. unset;
          },
        )
    | inl unset ↦ elim (Bool-cases (kube.rate_is_positive c.qps)) [
      | inl positive ↦ elim (Bool-cases (is_positive c.burst)) [
        | inl burst ↦
            let same : c' ≡ record c {
              rate_limiter = some (kube.new_token_bucket_rate_limiter c.qps c.burst);
            } =
              ground arith in
            rw same (
              refl,
              record {
                set = λ k e. absurd (ground arith);
                made = λ _ _. (burst, refl);
                unlimited = λ _ idle. absurd (ground arith);
              },
            )
        | inr no_burst ↦ absurd (ground arith)
      ]
      | inr no_rate ↦
          let same : c' ≡ c = ground arith in
          rw same (
            refl,
            record {
              set = λ k e. e;
              made = λ _ positive. absurd (ground arith);
              unlimited = λ _ _. unset;
            },
          )
    ]
  ]

  -- A clientset that `NewForConfig` returns has both its clients made with one limiter: that which was
  -- set, or a token bucket of the rate and the burst if the rate is positive, and then the burst is
  -- positive; or none. The discovery client is made from the configuration that was given, with that
  -- limiter; the group's client from one with the path "/apis", the group "pantheon.tech" and the
  -- version "v1", and with the rate and the burst that were given.
  pub new_for_config_lem :
      (c : RestConfig Q L) (made : Clientset R D)
      → new_for_config kube c ≡ ok made
      → (limiter : Option L) × (sent : RestConfig Q L) × (kube.rest_client_for sent
          ≡ ok made.pantheon_v1)
        × (sent.api_path ≡ codes "/apis")
        × (sent.group_version ≡ some (codes "pantheon.tech", codes "v1"))
        × (sent.rate_limiter ≡ limiter)
        × (sent.qps ≡ c.qps)
        × (sent.burst ≡ c.burst)
        × (kube.new_discovery_client_for_config (record c { rate_limiter = limiter })
            ≡ ok made.discovery_client)
        × IsLimiterOf c limiter
  unfolding new_for_config new_pantheon_for_config rate_limited set_config_defaults
  new_for_config_lem c made h = elim (Result-cases (rate_limited kube c)) [
    | inl (x, refused) ↦ absurd (ground arith)
    | inr (c', limited) ↦ elim (Result-cases (kube.rest_client_for (set_config_defaults kube c'))) [
      | inl (x, failed) ↦ absurd (ground arith)
      | inr (r, rest) ↦ elim (Result-cases (kube.new_discovery_client_for_config c')) [
        | inl (x, failed) ↦ absurd (ground arith)
        | inr (d, discovery) ↦
            let (shape, limiter) = rate_limited_lem c c' limited in
            let built : (r ≡ made.pantheon_v1) × (d ≡ made.discovery_client) = ground arith in
            (
              c'.rate_limiter,
              set_config_defaults kube c',
              rest ∙ ap ok built.0,
              refl,
              refl,
              refl,
              ap (λ (k : RestConfig Q L). k.qps) shape,
              ap (λ (k : RestConfig Q L). k.burst) shape,
              ap kube.new_discovery_client_for_config (sym shape) ∙ discovery ∙ ap ok built.1,
              limiter,
            )
      ]
    ]
  ]
