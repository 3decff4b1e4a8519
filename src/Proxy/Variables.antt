-- ===== src/Proxy/Variables.antt =====
-- proxy/proxy.go: the variables of a request.
use uplink_relay.Common.{
  String, Bool, true, false, Option, none, some, insert, lookup, if◌then◌else◌,
}
use uplink_relay.Wire.{Value, null, text, other, Variables}

-- v == nil, for the value of a key or its absence
abbrev pub is_nil : Option Value → Bool
is_nil none = true
is_nil (some null) = true
is_nil (some (text s)) = false
is_nil (some (other s)) = false

-- v.(string); none is a panic
abbrev pub as_text : Option Value → Option String
as_text none = none
as_text (some null) = none
as_text (some (text s)) = some s
as_text (some (other s)) = none

-- An ifAfterId that is nil is set to "".
unfoldable pub default_if_after_id : Variables → Variables
default_if_after_id variables =
    if is_nil (lookup "ifAfterId" variables)
    then insert "ifAfterId" (text "") variables
    else variables
