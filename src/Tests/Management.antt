-- ===== src/Tests/Management.antt =====
-- The theorems on the management API, at the supergraph g@v.
use uplink_relay.Common.{String, ◌≡◌, ◌≢◌, ◌↔◌, refl, some, ok, true}
use uplink_relay.Cache.Keeping.{memory_cache-Keeps_pinned}
use uplink_relay.Cache.Memory.{MemoryCache}
use uplink_relay.Config.{find_supergraph_config_from_graph_ref}
use uplink_relay.Management.{pin_schema}
use uplink_relay.Management.Details.{current_schema, shown, get_config_details}
use uplink_relay.Management.Enums.{
  unmarshal_operation_type, operation_text, is_named, unmarshal_operation_type-ok,
}
use uplink_relay.Management.Model.{OperationType}
use uplink_relay.Management.Shown.{pin_schema-current_schema}
use uplink_relay.Server.{Server}
use uplink_relay.Tests.Memory.{parsed}
use uplink_relay.Tests.Running.{item, hexadecimal, launched, fresh}
use uplink_relay.Tests.Services.{server}
use uplink_relay.Tests.World.{json_of-RoundTrips, graph, memory, sdl}
use uplink_relay.Wire.{text}

named : ◌≢◌ {A = String} "l1" ""
named h = cc

filled : sdl ≢ ""
filled h = cc

pin_schema-current_schema_example :
    (s' : Server MemoryCache) × (pin_schema hexadecimal memory 1000 "l1" "g@v" server
      ≡ (ok (get_config_details hexadecimal memory 1000 s'), s'))
    × (find_supergraph_config_from_graph_ref "g@v" s'.config
        ≡ ok (record graph { launch_id = "l1" }))
    × (current_schema hexadecimal memory 2000 s'.cache (record graph { launch_id = "l1" })
        ≡ shown (some (record { id = "l1"; hash = "0"; schema = sdl })))
unfolding launched
pin_schema-current_schema_example =
    pin_schema-current_schema hexadecimal memory "l1" "g@v" "g" "v" server (json_of-RoundTrips item)
      refl parsed (memory_cache-Keeps_pinned (λ items. items) 1000 2000) launched fresh named filled

unmarshal_operation_type-ok_example : ((unmarshal_operation_type (text "SCHEMA") "").0 ≡ ok tt) ↔ (
    (e : OperationType) × (is_named e ≡ true)
    × (text "SCHEMA" ≡ text (operation_text e))
    × ((unmarshal_operation_type (text "SCHEMA") "").1 ≡ operation_text e))
unmarshal_operation_type-ok_example = unmarshal_operation_type-ok (text "SCHEMA") ""
