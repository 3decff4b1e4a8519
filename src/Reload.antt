-- ===== src/Reload.antt =====
-- The reload of main.go: the goroutine that handles SIGHUP, the pollers that it starts, and the
-- channel stopPolling between them, as interleaved steps.
pub mod Stuck
pub mod Pollers
use uplink_relay.Common.{ℕ, suc, ◌≡◌, Bool, true, false, List, [], ◌∷◌, ◌++◌, if◌then◌else◌}

-- Where the goroutine that handles the signals is. `exited` is the end of the process.
pub data Phase : Type 0 where
  serving : Phase
  shut_down : Phase
  told : Phase
  exited : Phase

-- The process: whether a signal waits in `update`, how many values are in `stopPolling`, the
-- pollers that wait in their loop, each by the number of the configuration that it was started
-- with, and the number of the current configuration.
pub record Process : Type 0 where
  pub phase : Phase
  pub signalled : Bool
  pub stop_polling : ℕ
  pub pollers : List ℕ
  pub generation : ℕ

-- `go StartPolling`, where it comes to a loop.
abbrev pub started : Bool → ℕ → List ℕ
started listens generation = if listens then generation ∷ [] else []

-- `listens n` says whether StartPolling with the n-th configuration comes to its loop.
module _ (listens : ℕ → Bool) where
  -- Both channels have room for one value.
  pub data Step : Process → Process → Type 0 where
    -- signal.Notify: a signal is dropped when one waits already
    hang_up : {s : Process} → Step s (record s { signalled = true })
    -- the receive from `update`, and ShutdownServer
    shut :
        {s : Process}
        → s.phase ≡ serving
        → s.signalled ≡ true
        → Step s (record s { phase = shut_down; signalled = false })
    -- stopPolling <- true, which blocks while a value is in the channel
    send :
        {s : Process}
        → s.phase ≡ shut_down
        → s.stop_polling ≡ 0
        → Step s (record s { phase = told; stop_polling = 1 })
    -- LoadConfig and startup
    restart :
        {s : Process}
        → s.phase ≡ told
        → Step s (record s {
          phase = serving;
          pollers = s.pollers ++ started (listens (suc s.generation)) (suc s.generation);
          generation = suc s.generation;
        })
    -- an error of LoadConfig
    fail : {s : Process} → s.phase ≡ told → Step s (record s { phase = exited })
    -- a poller takes the value of stopPolling and returns: any of those that wait may be the one
    stop_poller :
        {s : Process} (before : List ℕ) (poller : ℕ) (after : List ℕ)
        → s.stop_polling ≡ 1
        → s.pollers ≡ before ++ poller ∷ after
        → Step s (record s { stop_polling = 0; pollers = before ++ after })
    -- an interrupt ends the process
    interrupt : {s : Process} → Step s (record s { phase = exited })

  -- The process after the first startup.
  abbrev pub launched : Process
  launched = record {
    phase = serving;
    signalled = false;
    stop_polling = 0;
    pollers = started (listens 0) 0;
    generation = 0;
  }

  pub data Steps (s : Process) : Process → Type 0 where
    here : Steps s s
    then_ : {t u : Process} → Steps s t → Step t u → Steps s u

  abbrev pub Reach : Process → Type 0
  Reach s = Steps launched s
