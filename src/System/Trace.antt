-- ===== src/System/Trace.antt =====
-- The contents of the cache of the running program, as the outcome of a sequence of writes.
use uplink_relay.Common.{String, ℤ, Time, true}
use uplink_relay.Cache.{Cache}
use uplink_relay.Cache.Writes.{IsWrite}
use uplink_relay.Config.{Config}
use uplink_relay.Externals.{Externals}

-- A state of the cache comes from another one by calls of Set that the program makes, and by
-- nothing else.
pub data Written {C : Type 0} (x : Externals) (cache : Cache C) (first : C) : C → Type 0 where
  unwritten : Written x cache first first
  written :
      {c : C} (now : Time) (key value : String) (d : ℤ)
      → IsWrite x true now key value d
      → Written x cache first c
      → Written x cache first (cache.set now key value d c).1
