-- ===== src/Common/LastPart.antt =====
-- What follows the last separator of one character in a text.
use Prim.Native.Char.{Char, code}
use Prim.Native.String.{String, [], ◌∷◌}
use mathlib.Core.Path.{◌≡◌, refl}
use mathlib.Core.Option.{Option, none, some}
use native.Mathlib.Omega.{arith}
use text.Mathlib.TextLemmas.{nil-append, cons-append}
use uplink_relay.Common.Splits.{Excludes}
use uplink_relay.Common.Tests.{eqb, if◌then◌else◌}
use uplink_relay.Common.Texts.{◌<>◌, singleton-append}

-- What follows the last separator.
unfoldable pub last_part : Char → String → Option String
last_part sep [] = none
last_part sep (c ∷ s) =
    let later = last_part sep s in
    elim later [ none ↦ if eqb (code c) (code sep) then some s else none | some part ↦ some part ]

module _ (sep : Char) where
  last_part-Excludes : (s : String) → Excludes sep s → last_part sep s ≡ none
  unfolding last_part
  last_part-Excludes [] h = refl
  last_part-Excludes (c ∷ s) (ne, h) = ground (arith, last_part-Excludes s h)

  last_part-append : (a b : String) → Excludes sep b → last_part sep (a <> (sep ∷ b)) ≡ some b
  unfolding last_part
  last_part-append [] b h = rw nil-append (ground (arith, last_part-Excludes b h))
  last_part-append (c ∷ a) b h = rw cons-append (ground (arith, last_part-append a b h))

  -- A text, a separator and what has no separator in it.
  pub last_part-joined :
      (a b : String) → Excludes sep b → last_part sep (a <> (sep ∷ []) <> b) ≡ some b
  last_part-joined a b h = rw (singleton-append sep b) (last_part-append a b h)
