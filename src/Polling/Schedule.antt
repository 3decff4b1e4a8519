-- ===== src/Polling/Schedule.antt =====
-- StartPolling of polling/polling.go: the rounds that the ticker fires and the stop channel, as one
-- sequence of events. A round is one step. With cron expressions it leaves the rounds to the cron
-- library, whose jobs run in goroutines of their own: it is followed up to the start of the schedule.
use uplink_relay.Common.{
  String, Bool, true, false, not, ◌&&◌, List, [], ◌∷◌, pos, ltb_ℤ, if◌then◌else◌, Time, Act, pure,
  ◌>>◌,
}
use uplink_relay.Cache.{Cache}
use uplink_relay.Config.{Config, Parsers}
use uplink_relay.Externals.{Externals}
use uplink_relay.Polling.{poll_for_updates}
use uplink_relay.Server.{Server}

-- What wakes the loop of the ticker: the ticker at a time, or the stop channel.
pub data Event : Type 0 where
  fired : Time → Event
  stop : Event

-- Where StartPolling is after some events: it has returned by itself, it has taken a value of the
-- stop channel and returned, it waits for the next event, or it has started the cron schedule and
-- waits for the stop channel.
pub data Progress : Type 0 where
  returned : Progress
  stopped : Progress
  waiting : Progress
  scheduled : Progress

-- Whether StartPolling comes to a loop that reads the stop channel: an interval, or a list of cron
-- expressions that all parse.
unfoldable pub all_parse : Parsers → List String → Bool
all_parse p [] = true
all_parse p (e ∷ expressions) = p.parse_cron e && all_parse p expressions

-- The cron branch: an expression that does not parse makes it return.
unfoldable pub cron_listens : Parsers → List String → Bool
unfolding all_parse
cron_listens p [] = false
cron_listens p (e ∷ expressions) = all_parse p (e ∷ expressions)

unfoldable pub listens : Parsers → Config → Bool
unfolding cron_listens
listens p config =
    if not config.polling.enabled
    then false
    else if ltb_ℤ (pos 0) config.polling.interval
    then true
    else cron_listens p config.polling.expressions

module _ {C : Type 0} (x : Externals) (cache : Cache C) where
  unfoldable pub loop : List Event → Act (Server C) Progress
  loop [] s = pure waiting s
  loop (stop ∷ events) s = pure stopped s
  loop (fired now ∷ events) s = let rest = loop events in (do poll_for_updates x cache now; rest) s

  -- What follows the first round.
  unfoldable pub listen : Config → List Event → Act (Server C) Progress
  unfolding loop cron_listens
  listen config events =
      if ltb_ℤ (pos 0) config.polling.interval
      then loop events
      else if cron_listens x.parsers config.polling.expressions
      then pure scheduled
      else pure returned

  -- The first round is at once, also when no loop follows.
  unfoldable pub start_polling : Time → List Event → Act (Server C) Progress
  unfolding listen
  start_polling now events s =
      if not s.config.polling.enabled
      then pure returned s
      else (do poll_for_updates x cache now; listen s.config events) s
