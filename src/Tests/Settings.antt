-- ===== src/Tests/Settings.antt =====
-- The theorems on the configuration, the graph_ref and the selector.
use uplink_relay.Common.{◌≡◌, refl, ok}
use uplink_relay.Config.{
  new_default_config, merge_with_default_config, validate, find_supergraph_config_from_graph_ref,
}
use uplink_relay.Config.Validation.{IsValid, validate-IsValid}
use uplink_relay.Tests.World.{config, graph, world}
use uplink_relay.Tests.Memory.{finite}

valid : validate (world "q" finite).parsers config ≡ ok tt
unfolding validate
valid = refl

validate-IsValid_example : IsValid (world "q" finite).parsers config
validate-IsValid_example = validate-IsValid (world "q" finite).parsers config valid

merged_valid :
    validate (world "q" finite).parsers (merge_with_default_config new_default_config config)
    ≡ ok tt
unfolding validate merge_with_default_config
merged_valid = refl

pub found_graph : find_supergraph_config_from_graph_ref "g@v" config ≡ ok graph
unfolding find_supergraph_config_from_graph_ref
found_graph = refl
