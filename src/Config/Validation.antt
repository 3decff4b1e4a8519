-- ===== src/Config/Validation.antt =====
-- What Validate of config/config.go accepts.
use uplink_relay.Common.{
  ◌≡◌, ◌≢◌, ◌⊎◌, inl, inr, refl, String, Bool, true, false, some, List, [], ◌∷◌, pos, negsuc, ◌≤ℤ◌,
  ◌==◌, ◌||◌, eq_iff, arith, Result, ok, err, All, Bool-cases, not, ltb_ℤ, leb_ℤ, eqb_ℤ, ◌&&◌,
  Option-cases, panicked, if◌then◌else◌,
}
use uplink_relay.Config.{
  Config, Parsers, PollingConfig, ◌andthen◌, refuse, new_default_config, merge_with_default_config,
  validate, all_parse, validate_polling, validate_public_url, is_empty,
}

both : (a b : Result (Unit {0})) → (a andthen b) ≡ ok tt → (a ≡ ok tt) × (b ≡ ok tt)
both (ok tt) b h = (refl, h)
both (err e) b h = cc
both panicked b h = cc

accepted : (b : Bool) (message : String) → refuse b message ≡ ok tt → b ≡ false
accepted true message h = cc
accepted false message h = refl

module _ (p : Parsers) where
  -- The public URL is empty, or it parses with a host and one of the schemes http and https.
  abbrev pub IsPublicUrl : String → Type 0
  IsPublicUrl url =
      (url ≡ "")
      ⊎ ((scheme : String) × (host : String) × (p.parse_url url ≡ some (scheme, host))
          × (host ≢ "")
          × ((scheme ≡ "http") ⊎ (scheme ≡ "https")))

  -- What a valid configuration satisfies.
  pub record IsValid (c : Config) : Type 0 where
    pub address : c.relay.address ≢ ""
    pub public_url : IsPublicUrl c.relay.public_url
    pub urls : c.uplink.urls ≢ []
    pub timeout : pos 0 ≤ℤ c.uplink.timeout
    pub retry_count : pos 1 ≤ℤ c.uplink.retry_count
    pub duration : (pos 1 ≤ℤ c.cache.duration) ⊎ (c.cache.duration ≡ negsuc 0)
    pub max_size : pos 1 ≤ℤ c.cache.max_size
    pub webhook : c.webhook.enabled ≡ true → c.webhook.path ≢ ""
    pub interval :
        c.polling.enabled ≡ true → (c.polling.expressions ≡ []) → pos 1 ≤ℤ c.polling.interval
    pub expressions :
        c.polling.enabled ≡ true
        → c.polling.expressions ≢ []
        → (c.polling.interval ≤ℤ pos 0) × (All (λ e. p.parse_cron e ≡ true) c.polling.expressions)

  all_parse_sound : (es : List String) → all_parse p es ≡ true → All (λ e. p.parse_cron e ≡ true) es
  unfolding all_parse
  all_parse_sound [] h = tt
  all_parse_sound (e ∷ es) h = (ground arith, all_parse_sound es (ground arith))

  validate_public_url_sound : (url : String) → validate_public_url p url ≡ ok tt → IsPublicUrl url
  unfolding validate_public_url
  validate_public_url_sound url h = elim (Option-cases (p.parse_url url)) [
    | inl bad ↦ absurd (ground arith)
    | inr ((scheme, host), good) ↦
        let eqs : (scheme == "" || host == "") ≡ false = ground arith in
        inr (
          scheme,
          host,
          good,
          ground (arith, eq_iff host ""),
          ground (arith, eq_iff scheme "http", eq_iff scheme "https"),
        )
  ]

  validate_polling_sound :
      (c : PollingConfig)
      → validate_polling p c ≡ ok tt
      → (c.expressions ≡ [] → pos 1 ≤ℤ c.interval)
        × (c.expressions ≢ []
            → (c.interval ≤ℤ pos 0) × All (λ e. p.parse_cron e ≡ true) c.expressions)
  unfolding validate_polling
  validate_polling_sound c h =
      (λ empty. ground arith, λ some_. (ground arith, all_parse_sound c.expressions (ground arith)))

  -- The tests of Validate, one by one.
  abbrev Checks : Config → Type 0
  Checks c =
      ((c.relay.address == "") ≡ false)
      × ((if c.relay.public_url == "" then ok tt else validate_public_url p c.relay.public_url)
          ≡ ok tt)
      × (is_empty c.uplink.urls ≡ false)
      × (ltb_ℤ c.uplink.timeout (pos 0) ≡ false)
      × (ltb_ℤ c.uplink.retry_count (pos 1) ≡ false)
      × ((leb_ℤ c.cache.duration (pos 0) && not (eqb_ℤ c.cache.duration (negsuc 0))) ≡ false)
      × (leb_ℤ c.cache.max_size (pos 0) ≡ false)
      × ((c.webhook.enabled && c.webhook.path == "") ≡ false)
      × ((if c.polling.enabled then validate_polling p c.polling else ok tt) ≡ ok tt)

  validate-Checks : (c : Config) → validate p c ≡ ok tt → Checks c
  unfolding validate
  validate-Checks c h =
      let (address, h₁) = both _ _ h in
      let (public_url, h₂) = both _ _ h₁ in
      let (urls, h₃) = both _ _ h₂ in
      let (timeout, h₄) = both _ _ h₃ in
      let (retry_count, h₅) = both _ _ h₄ in
      let (duration, h₆) = both _ _ h₅ in
      let (max_size, h₇) = both _ _ h₆ in
      let (webhook, polling) = both _ _ h₇ in
      (
        accepted _ _ address,
        public_url,
        accepted _ _ urls,
        accepted _ _ timeout,
        accepted _ _ retry_count,
        accepted _ _ duration,
        accepted _ _ max_size,
        accepted _ _ webhook,
        polling,
      )

  -- Every configuration that Validate accepts is valid: it has an address and an uplink URL, a
  -- public URL that is empty or parses with a host and the scheme http or https, numbers in their
  -- ranges, a webhook path if webhooks are on, and an interval or cron expressions that parse, but
  -- not both, if polling is on.
  pub validate-IsValid : (c : Config) → validate p c ≡ ok tt → IsValid c
  validate-IsValid c h =
      let (address, public_url, urls, timeout, retry_count, duration, max_size, webhook, polling) =
        validate-Checks c h in
      record {
        address = ground (arith, eq_iff c.relay.address "");
        public_url = elim (Bool-cases (c.relay.public_url == "")) [
          | inl empty ↦ inl ((eq_iff _ _).0 empty)
          | inr named ↦ validate_public_url_sound c.relay.public_url (rw named at public_url)
        ];
        urls = unfold is_empty in ground arith;
        timeout = ground arith;
        retry_count = ground arith;
        duration = ground arith;
        max_size = ground arith;
        webhook = λ on. ground (arith, eq_iff c.webhook.path "");
        interval = λ on. (validate_polling_sound c.polling (ground arith)).0;
        expressions = λ on. (validate_polling_sound c.polling (ground arith)).1;
      }

  -- A file that Validate accepts after the merge with the default configuration sets
  -- uplink.retryCount to at least 1 itself; the default of -1 is never accepted.
  pub merged_retry_count :
      (c : Config)
      → validate p (merge_with_default_config new_default_config c) ≡ ok tt
      → pos 1 ≤ℤ c.uplink.retry_count
  unfolding merge_with_default_config
  merged_retry_count c h =
      let valid = validate-IsValid (merge_with_default_config new_default_config c) h in
      ground (arith, valid.retry_count)
