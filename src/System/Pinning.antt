-- ===== src/System/Pinning.antt =====
-- The calls of pinning/, which write to the cache and change the configuration, and predicates on
-- both.
use uplink_relay.Common.{
  ℕ, suc, true, String, refl, List, [], ◌∷◌, ℤ, negsuc, Time, ok, Preserves, preserves_rules,
  ignore-Preserves, bind_try-Preserves, bind-Preserves, pure-Preserves, bind_lift-Preserves,
  if-Preserves,
}
use uplink_relay.Cache.{Cache}
use uplink_relay.Cache.Writes.{chunk, pinned, IsPin, launched, built, licensed, IsClosed}
use uplink_relay.Config.{Config}
use uplink_relay.Externals.{Externals}
use uplink_relay.Pinning.Entry.{insert_pinned_cache_entry, pinned_item}
use uplink_relay.Pinning.Launch.{pin_launch_id, set_launch_id}
use uplink_relay.Pinning.License.{pin_offline_license}
use uplink_relay.Pinning.Names.{license_pinned}
use uplink_relay.Cache.Keys.{make_cache_key}
use uplink_relay.Pinning.PersistedQueries.{
  cache_chunks_from, cache_pinned_chunks, pin_persisted_queries, set_persisted_query_version,
}
use uplink_relay.PersistedQueries.Keys.{make_persisted_query_cache_key}
use uplink_relay.Server.{OfServer, on_cache-Preserves, with_config-Preserves}
use uplink_relay.Wire.{PersistedQueryQueryManifestChunks, PersistedQueryQueryNode}

-- The configuration after a pin of a launch or of a persisted query version.
abbrev pub repinned : Config → String → String → Config
repinned c graph_ref launch_id = record c {
  supergraphs = set_launch_id graph_ref launch_id c.supergraphs;
}

abbrev pub reversioned : Config → String → String → Config
reversioned c graph_ref version = record c {
  supergraphs = set_persisted_query_version graph_ref version c.supergraphs;
}

-- A predicate on the configuration and the cache that every write and every pin keeps.
pub record IsInvariant {C : Type 0} (x : Externals) (cache : Cache C) (P : Config → C → Type 0)
    : Type 0 where
  pub writes : (config : Config) → IsClosed x true cache (P config)
  pub launches :
      (config : Config) (c : C) (graph_ref launch_id : String)
      → P config c
      → P (repinned config graph_ref launch_id) c
  pub versions :
      (config : Config) (c : C) (graph_ref version : String)
      → P config c
      → P (reversioned config graph_ref version) c

module _ {C : Type 0} (x : Externals) (cache : Cache C) {P : C → Type 0}
    (closed : IsClosed x true cache P) where
  insert_pinned_cache_entry-Preserves :
      (now : Time) (key value id : String) (modified_time : Time)
      → IsPin x now key (pinned_item x now value id modified_time)
      → Preserves P (insert_pinned_cache_entry x cache now key value id modified_time)
  unfolding insert_pinned_cache_entry
  insert_pinned_cache_entry-Preserves now key value id modified_time pin = ignore-Preserves _ (
      bind_try-Preserves _ _ _ (λ entry marshalled.
        closed now key entry (negsuc 0)
          (pinned (pinned_item x now value id modified_time) pin marshalled refl refl)))

  insert_license-Preserves :
      (now : Time) (graph_ref license : String) (modified_time : Time)
      → Preserves P (
          insert_pinned_cache_entry x cache now
            (make_cache_key x graph_ref license_pinned [])
            license
            (x.format_time modified_time)
            modified_time)
  insert_license-Preserves now graph_ref license modified_time =
      insert_pinned_cache_entry-Preserves now _ license _ modified_time
        (licensed graph_ref license modified_time refl refl)

  pub pin_offline_license-Preserves :
      (config : Config) (now : Time) (license graph_ref : String)
      → Preserves P (pin_offline_license x cache config now license graph_ref)
  unfolding pin_offline_license
  pin_offline_license-Preserves config now license graph_ref =
      search (preserves_rules, insert_license-Preserves) depth 9

  set_chunk-Preserves :
      (now : Time) (id json : String) (index : ℕ) (d : ℤ)
      → Preserves P
          (cache.set now (make_persisted_query_cache_key id (x.itoa index)) (x.deflate json) d)
  set_chunk-Preserves now id json index d =
      closed now _ (x.deflate json) d (chunk id json index refl refl)

  cache_chunks_from-Preserves :
      (now : Time) (base : String) (index : ℕ) (chunks : List PersistedQueryQueryManifestChunks)
      → Preserves P (cache_chunks_from x cache now base index chunks)
  unfolding cache_chunks_from
  cache_chunks_from-Preserves now base index [] = search preserves_rules
  cache_chunks_from-Preserves now base index (next ∷ chunks) =
      bind-Preserves _ _ (set_chunk-Preserves now next.id next.json index (negsuc 0)) (λ _.
        bind-Preserves _ _ (cache_chunks_from-Preserves now base (suc index) chunks)
          (λ later. pure-Preserves _))

  cache_pinned_chunks-Preserves :
      (config : Config) (now : Time) (node : PersistedQueryQueryNode)
      → Preserves P (cache_pinned_chunks x cache config now node)
  unfolding cache_pinned_chunks
  cache_pinned_chunks-Preserves config now node =
      search (preserves_rules, cache_chunks_from-Preserves) depth 9

module _ {C : Type 0} (x : Externals) (cache : Cache C) {P : Config → C → Type 0}
    (inv : IsInvariant x cache P) where
  relaunch-Preserves :
      (graph_ref launch_id : String)
      → Preserves
          (OfServer P)
          (λ s. (ok tt, record s { config = repinned s.config graph_ref launch_id }))
  relaunch-Preserves graph_ref launch_id = record {
    at = λ s h. record { held = inv.launches s.config s.cache graph_ref launch_id h.held };
  }

  pub pin_launch_id-Preserves :
      (now : Time) (launch_id graph_ref : String)
      → Preserves (OfServer P) (pin_launch_id x cache now launch_id graph_ref)
  unfolding pin_launch_id
  pin_launch_id-Preserves now launch_id graph_ref = with_config-Preserves _ (λ config.
      bind_lift-Preserves _ _ (λ launch fetched. bind_try-Preserves _ _ _ (λ modified_at dated.
        bind-Preserves _ _
          (if-Preserves _ _ _
            (on_cache-Preserves _ (λ now_config.
              insert_pinned_cache_entry-Preserves x cache (inv.writes now_config) now _ _ _ _
                (launched config launch_id graph_ref launch modified_at fetched dated refl refl)))
            (pure-Preserves _))
          (λ _. relaunch-Preserves graph_ref launch_id))))

  reversion-Preserves :
      (graph_ref version : String)
      → Preserves
          (OfServer P)
          (λ s. (ok tt, record s { config = reversioned s.config graph_ref version }))
  reversion-Preserves graph_ref version = record {
    at = λ s h. record { held = inv.versions s.config s.cache graph_ref version h.held };
  }

  pub pin_persisted_queries-Preserves :
      (now : Time) (graph_ref version : String)
      → Preserves (OfServer P) (pin_persisted_queries x cache now graph_ref version)
  unfolding pin_persisted_queries
  pin_persisted_queries-Preserves now graph_ref version = with_config-Preserves _ (λ config.
      bind_lift-Preserves _ _ (λ nodes fetched. bind_lift-Preserves _ _ (λ node found.
        bind-Preserves _ _
          (if-Preserves _ _ _
            (bind-Preserves _ _
              (on_cache-Preserves _ (λ now_config.
                cache_pinned_chunks-Preserves x cache (inv.writes now_config) config now node))
              (λ chunks. bind_try-Preserves _ _ _ (λ manifest marshalled.
                on_cache-Preserves _ (λ now_config.
                  insert_pinned_cache_entry-Preserves x cache (inv.writes now_config) now _ _ _ _
                    (built config version graph_ref manifest nodes node fetched found refl refl)))))
            (pure-Preserves _))
          (λ _. reversion-Preserves graph_ref version))))
