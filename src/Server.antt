-- ===== src/Server.antt =====
-- The state that the handlers share: the cache and the configuration, which pinning rewrites.
use uplink_relay.Common.{Act, Preserves, preserves_rules}
use uplink_relay.Config.{Config}

pub record Server (C : Type 0) : Type 0 where
  pub cache : C
  pub config : Config

module _ {C A : Type 0} where
  -- a call that works on the cache alone
  abbrev pub on_cache : Act C A → Act (Server C) A
  on_cache m s = let (r, c) = m s.cache in (r, record s { cache = c })

  -- the current configuration
  abbrev pub with_config : (Config → Act (Server C) A) → Act (Server C) A
  with_config f s = f s.config s

-- A predicate on the configuration and the cache, of the server.
pub record OfServer {C : Type 0} (P : Config → C → Type 0) (s : Server C) : Type 0 where
  pub held : P s.config s.cache

module _ {C A : Type 0} where
  pub on_cache-Preserves :
      {P : Config → C → Type 0} (m : Act C A)
      → ((config : Config) → Preserves (P config) m)
      → Preserves (OfServer P) (on_cache m)
  on_cache-Preserves m keeps = record {
    at = λ s h. record { held = (keeps s.config).at s.cache h.held };
  }

  pub with_config-Preserves :
      {Q : Server C → Type 0} (f : Config → Act (Server C) A)
      → ((config : Config) → Preserves Q (f config))
      → Preserves Q (with_config f)
  with_config-Preserves f keeps = record { at = λ s h. (keeps s.config).at s h }

pub ruleset server_rules = (preserves_rules, on_cache-Preserves, with_config-Preserves)
