-- ===== src/Reload/Pollers.antt =====
-- The pollers of main.go where every configuration is valid and polls.
use uplink_relay.Common.{
  ℕ, zero, suc, ◌+◌, ◌≤◌, ◌≡◌, ◌≢◌, ◌⊎◌, inl, inr, refl, sym, ◌∙◌, ap, Bool, true, List, [], ◌∷◌,
  ◌++◌, length, length-append, arith, ok,
}
use uplink_relay.Config.{Config, Parsers, validate}
use uplink_relay.Polling.Schedule
use uplink_relay.Polling.Validated.{validate-listens}
use uplink_relay.Reload.{
  Phase, serving, shut_down, told, exited, Process, Step, hang_up, shut, send, restart, fail,
  stop_poller, interrupt, launched, Steps, here, then_, Reach, started,
}

-- The poller that a reload has told to stop and not yet replaced.
abbrev pub missing : Phase → ℕ
missing told = 1
missing _ = 0

-- One poller for each value in stopPolling, and one more while a server runs or is shut down.
pub record IsCounted (s : Process) : Type 0 where
  pub bounded : s.stop_polling ≤ 1
  pub few : length s.pollers ≤ 2
  pub counted : s.phase ≢ exited → length s.pollers + missing s.phase ≡ 1 + s.stop_polling

module _ (listens : ℕ → Bool) (polls : (n : ℕ) → listens n ≡ true) where
  length-started :
      (pollers : List ℕ) (n : ℕ) → length (pollers ++ started (listens n) n) ≡ length pollers + 1
  length-started pollers n = rw (polls n) (length-append pollers (n ∷ []))

  step-IsCounted : (s t : Process) → IsCounted s → Step listens s t → IsCounted t
  step-IsCounted s t inv hang_up = record {
    bounded = inv.bounded;
    few = inv.few;
    counted = inv.counted;
  }
  step-IsCounted s t inv (shut up signal) = record {
    bounded = inv.bounded;
    few = inv.few;
    counted = λ on. ground (arith, inv.counted, up);
  }
  step-IsCounted s t inv (send down room) = record {
    bounded = omega arith;
    few = inv.few;
    counted = λ on. ground (arith, inv.counted, down, room);
  }
  step-IsCounted s t inv (restart down) =
      let one_more = length-started s.pollers (suc s.generation) in
      record {
        bounded = inv.bounded;
        few = ground (arith, one_more, inv.counted, inv.bounded, down);
        counted = λ on. ground (arith, one_more, inv.counted, down);
      }
  step-IsCounted s t inv (fail down) = record {
    bounded = inv.bounded;
    few = inv.few;
    counted = λ on. absurd (on refl);
  }
  step-IsCounted s t inv (stop_poller before poller after full there) =
      let one_less : suc (length (before ++ after)) ≡ length s.pollers =
        rw (length-append before after)
          (omega (arith, length-append before (poller ∷ after)) ∙ ap length (sym there)) in
      record {
        bounded = omega arith;
        few = omega (arith, one_less, inv.few);
        counted = λ on. omega (arith, one_less, inv.counted on, full);
      }
  step-IsCounted s t inv interrupt = record {
    bounded = inv.bounded;
    few = inv.few;
    counted = λ on. absurd (on refl);
  }

  counted_lem : (s : Process) → Reach listens s → IsCounted s
  counted_lem s here =
      let one = length-started [] 0 in
      record { bounded = omega arith; few = omega (arith, one); counted = λ on. omega (arith, one) }
  counted_lem s (then_ {t} {u} steps step) = step-IsCounted t u (counted_lem t steps) step

  at_most_one : (n : ℕ) → n ≤ 1 → (n ≡ 0) ⊎ (n ≡ 1)
  at_most_one zero h = inl refl
  at_most_one (suc n) h = inr (omega (arith, h))

  some_poller :
      (pollers : List ℕ) → 1 ≤ length pollers → (n : ℕ) × (rest : List ℕ) × (pollers ≡ n ∷ rest)
  some_poller [] h = absurd (omega (arith, h))
  some_poller (n ∷ rest) h = (n, rest, refl)

  serves_lem :
      (s : Process)
      → Reach listens s
      → s.phase ≡ shut_down
      → (t : Process) × Steps listens s t × (t.phase ≡ serving) × (t.generation ≡ suc s.generation)
  serves_lem s reach down =
      let inv = counted_lem s reach in
      let counted = inv.counted (λ h. ground (arith, h, down)) in
      elim (at_most_one s.stop_polling inv.bounded) [
        | inl room ↦ (_, then_ (then_ here (send down room)) (restart refl), refl, refl)
        | inr full ↦
            let two : length s.pollers ≡ 2 = ground (arith, counted, down, full) in
            let (n, rest, there) = some_poller s.pollers (omega (arith, two)) in
            (
              _,
              then_ (then_ (then_ here (stop_poller [] n rest full there)) (send down refl))
                  (restart refl),
              refl,
              refl,
            )
      ]

  stale_lem :
      (n : ℕ)
      → (s : Process) × Reach listens s
        × (s.phase ≡ serving)
        × (s.generation ≡ n)
        × (s.stop_polling ≡ 0)
        × (s.pollers ≡ 0 ∷ [])
  stale_lem zero = (launched listens, here, refl, refl, refl, rw (polls 0) refl)
  stale_lem (suc n) =
      let (s, reach, up, generation, room, old) = stale_lem n in
      let there : s.pollers ++ started (listens (suc s.generation)) (suc s.generation)
          ≡ (0 ∷ []) ++ suc s.generation ∷ [] =
        rw (old, polls (suc s.generation)) refl in
      (
        _,
        then_
            (then_ (then_ (then_ (then_ reach hang_up) (shut up refl)) (send refl room))
              (restart refl))
            (stop_poller (0 ∷ []) (suc s.generation) [] refl there),
        refl,
        ap suc generation,
        refl,
        refl,
      )

-- Every configuration is valid and polls.
module _ (p : Parsers) (configs : ℕ → Config) (valid : (n : ℕ) → validate p (configs n) ≡ ok tt)
    (polls : (n : ℕ) → (configs n).polling.enabled ≡ true) where
  abbrev polling : ℕ → Bool
  polling n = Schedule.listens p (configs n)

  always_listens : (n : ℕ) → polling n ≡ true
  always_listens n = validate-listens p (configs n) (valid n) ∙ polls n

  -- Where every configuration is valid and polls, in every state that the process reaches:
  -- stopPolling has at most one value, there are at most two pollers, and, unless the process has
  -- ended, there are as many pollers as values and one more, or as many as values while a reload
  -- has sent the stop and not started again.
  pub Reach-IsCounted : (s : Process) → Reach polling s → IsCounted s
  Reach-IsCounted s reach = counted_lem polling always_listens s reach

  -- Where every configuration is valid and polls: from every reachable state in which the server is
  -- shut down for a reload, some steps lead to a state that serves the next configuration.
  pub reload-serves :
      (s : Process)
      → Reach polling s
      → s.phase ≡ shut_down
      → (t : Process) × Steps polling s t × (t.phase ≡ serving) × (t.generation ≡ suc s.generation)
  reload-serves s reach down = serves_lem polling always_listens s reach down

  -- Where every configuration is valid and polls: for every number n there is a reachable state
  -- that serves the n-th configuration, in which the only poller is the one that was started with
  -- the first configuration, and no stop is pending.
  pub stale_poller :
      (n : ℕ)
      → (s : Process) × Reach polling s
        × (s.phase ≡ serving)
        × (s.generation ≡ n)
        × (s.stop_polling ≡ 0)
        × (s.pollers ≡ 0 ∷ [])
  stale_poller n = stale_lem polling always_listens n
