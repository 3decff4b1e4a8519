-- ===== src/Polling/Validated.antt =====
-- The schedule of polling/polling.go for a configuration that Validate of config/config.go accepts.
use uplink_relay.Common.{
  ◌≡◌, ◌≢◌, ◌⊎◌, inl, inr, refl, String, true, List, [], ◌∷◌, All, arith, ok, Bool-cases,
}
use uplink_relay.Config.{Config, Parsers, validate}
use uplink_relay.Config.Validation.{validate-IsValid}
use uplink_relay.Polling.Schedule.{listens, cron_listens, all_parse}

module _ (p : Parsers) where
  all_parse_complete :
      (es : List String) → All (λ e. p.parse_cron e ≡ true) es → all_parse p es ≡ true
  unfolding all_parse
  all_parse_complete [] all = refl
  all_parse_complete (e ∷ es) (parses, all) = rw parses (all_parse_complete es all)

  cron_listens_valid :
      (es : List String) → es ≢ [] → All (λ e. p.parse_cron e ≡ true) es → cron_listens p es ≡ true
  unfolding cron_listens
  cron_listens_valid [] some_ all = absurd (some_ refl)
  cron_listens_valid (e ∷ es) some_ all = all_parse_complete (e ∷ es) all

  empty_or_not : (es : List String) → (es ≡ []) ⊎ (es ≢ [])
  empty_or_not [] = inl refl
  empty_or_not (e ∷ es) = inr (λ h. cc)

  -- For a configuration that Validate accepts, StartPolling comes to its loop exactly if polling is
  -- on.
  pub validate-listens : (c : Config) → validate p c ≡ ok tt → listens p c ≡ c.polling.enabled
  unfolding listens
  validate-listens c accepted =
      let valid = validate-IsValid p c accepted in
      elim (Bool-cases c.polling.enabled) [
        | inl on ↦ elim (empty_or_not c.polling.expressions) [
          | inl none_ ↦ let positive = valid.interval on none_ in ground (arith, on, positive)
          | inr some_ ↦
              let cron =
                cron_listens_valid c.polling.expressions some_ (valid.expressions on some_).1 in
              ground (arith, on, cron)
        ]
        | inr off ↦ ground (arith, off)
      ]
