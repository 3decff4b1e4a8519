-- ===== src/Reload/Stuck.antt =====
-- The second SIGHUP of main.go where no configuration polls.
use uplink_relay.Common.{
  ℕ, suc, ◌<◌, ◌≡◌, ◌≢◌, ◌⊎◌, inl, inr, refl, Bool, true, false, List, [], ◌∷◌, ◌++◌, arith,
}
use uplink_relay.Config.{Config, Parsers}
use uplink_relay.Polling.Schedule
use uplink_relay.Reload.{
  serving, shut_down, told, exited, Process, Step, hang_up, shut, send, restart, fail, stop_poller,
  interrupt, launched, Steps, here, then_, Reach, started,
}

no_poller :
    (before after : List ℕ) (poller : ℕ) (pollers : List ℕ)
    → pollers ≡ []
    → pollers ≢ before ++ poller ∷ after
no_poller [] after poller pollers nobody there = cc
no_poller (x ∷ before) after poller pollers nobody there = cc

module _ (listens : ℕ → Bool) (silent : (n : ℕ) → listens n ≡ false) where
  -- Nobody reads stopPolling, and after the first send there is a value in it.
  pub record IsSilent (s : Process) : Type 0 where
    pub nobody : s.pollers ≡ []
    pub full : (s.phase ≡ told) ⊎ (0 < s.generation) → s.stop_polling ≡ 1

  step-IsSilent : (s t : Process) → IsSilent s → Step listens s t → IsSilent t
  step-IsSilent s t quiet hang_up = record { nobody = quiet.nobody; full = quiet.full }
  step-IsSilent s t quiet (shut up signal) = record {
    nobody = quiet.nobody;
    full = λ since. ground (arith, since, quiet.full);
  }
  step-IsSilent s t quiet (send down room) = record { nobody = quiet.nobody; full = λ since. refl }
  step-IsSilent s t quiet (restart down) = record {
    nobody = rw (quiet.nobody, silent (suc s.generation)) refl;
    full = λ since. quiet.full (inl down);
  }
  step-IsSilent s t quiet (fail down) = record {
    nobody = quiet.nobody;
    full = λ since. quiet.full (inl down);
  }
  step-IsSilent s t quiet (stop_poller before poller after full there) =
      absurd (no_poller before after poller s.pollers quiet.nobody there)
  step-IsSilent s t quiet interrupt = record {
    nobody = quiet.nobody;
    full = λ since. ground (arith, since, quiet.full);
  }

  Reach-IsSilent : (s : Process) → Reach listens s → IsSilent s
  Reach-IsSilent s here = record {
    nobody = rw (silent 0) refl;
    full = λ since. ground (arith, since);
  }
  Reach-IsSilent s (then_ {t} {u} steps step) = step-IsSilent t u (Reach-IsSilent t steps) step

  -- The goroutine waits for room in stopPolling, or the process has ended.
  pub record IsStuck (s : Process) : Type 0 where
    pub down : (s.phase ≡ shut_down) ⊎ (s.phase ≡ exited)
    pub full : s.stop_polling ≡ 1
    pub nobody : s.pollers ≡ []

  step-IsStuck : (s t : Process) → IsStuck s → Step listens s t → IsStuck t
  step-IsStuck s t stuck hang_up = record {
    down = stuck.down;
    full = stuck.full;
    nobody = stuck.nobody;
  }
  step-IsStuck s t stuck (shut up signal) = absurd (ground (arith, up, stuck.down))
  step-IsStuck s t stuck (send down room) = absurd (ground (arith, room, stuck.full))
  step-IsStuck s t stuck (restart down) = absurd (ground (arith, down, stuck.down))
  step-IsStuck s t stuck (fail down) = absurd (ground (arith, down, stuck.down))
  step-IsStuck s t stuck (stop_poller before poller after full there) =
      absurd (no_poller before after poller s.pollers stuck.nobody there)
  step-IsStuck s t stuck interrupt = record {
    down = inr refl;
    full = stuck.full;
    nobody = stuck.nobody;
  }

  steps-IsStuck : (s t : Process) → IsStuck s → Steps listens s t → IsStuck t
  steps-IsStuck s w stuck here = stuck
  steps-IsStuck s w stuck (then_ {t} {u} steps step) =
      step-IsStuck t u (steps-IsStuck s t stuck steps) step

  silent-stuck :
      (s t : Process)
      → Reach listens s
      → 0 < s.generation
      → s.phase ≡ shut_down
      → Steps listens s t
      → t.phase ≢ serving
  silent-stuck s t reach second down steps serves =
      let quiet = Reach-IsSilent s reach in
      let stuck =
        steps-IsStuck s t
          (record { down = inl down; full = quiet.full (inr second); nobody = quiet.nobody })
          steps in
      ground (arith, serves, stuck.down)

-- Where no configuration has polling on: once the process has reloaded and shuts its server down
-- for another reload, no sequence of steps leads to a state in which it serves.
pub second_reload-stuck :
    (p : Parsers) (configs : ℕ → Config) (s t : Process)
    → ((n : ℕ) → (configs n).polling.enabled ≡ false)
    → Reach (λ n. Schedule.listens p (configs n)) s
    → 0 < s.generation
    → s.phase ≡ shut_down
    → Steps (λ n. Schedule.listens p (configs n)) s t
    → t.phase ≢ serving
unfolding Schedule.listens
second_reload-stuck p configs s t off =
    silent-stuck (λ n. Schedule.listens p (configs n)) (λ n. rw (off n) refl) s t

-- Where the first configuration does not poll and the next one does: a state is reachable that
-- serves the next configuration without a poller.
pub leftover_stop :
    (listens : ℕ → Bool)
    → listens 0 ≡ false
    → listens 1 ≡ true
    → (s : Process) × Reach listens s × (s.phase ≡ serving) × (s.generation ≡ 1) × (s.pollers ≡ [])
leftover_stop listens silent polls =
    let first : (launched listens).pollers ≡ [] = rw silent refl in
    let there : (launched listens).pollers ++ started (listens 1) 1 ≡ [] ++ 1 ∷ [] =
      rw (first, polls) refl in
    (
      _,
      then_
          (then_ (then_ (then_ (then_ here hang_up) (shut refl refl)) (send refl refl))
            (restart refl))
          (stop_poller [] 1 [] refl there),
      refl,
      refl,
      refl,
    )
