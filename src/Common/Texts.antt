-- ===== src/Common/Texts.antt =====
-- The functions of Go's `strings` package that the program calls, over the characters of a text.
use Prim.Native.Char.{Char, code}
use Prim.Native.String
use Prim.Native.String.{String, [], ◌∷◌}
use mathlib.Core.Path.{◌≡◌, refl}
use mathlib.Core.Bool.{Bool, true, false, ◌&&◌, ◌||◌}
use mathlib.Core.List.{List}
use mathlib.Core.Option.{Option, none, some}
use native.Mathlib.Omega.{arith}
use text.Mathlib.TextLemmas.{nil-append, cons-append}
use uplink_relay.Common.Tests.{eqb, if◌then◌else◌}

infixr 66 ◌<>◌
abbrev pub ◌<>◌ : String → String → String
s <> t = String.◌++◌ s t

-- strings.HasPrefix(s, p)
unfoldable pub starts_with : String → String → Bool
starts_with s [] = true
starts_with [] (p ∷ ps) = false
starts_with (c ∷ s) (p ∷ ps) = eqb (code c) (code p) && starts_with s ps

-- strings.Contains(s, p)
unfoldable pub contains : String → String → Bool
unfolding starts_with
contains [] p = starts_with [] p
contains (c ∷ s) p = starts_with (c ∷ s) p || contains s p

-- `c` in front of the first part
abbrev pub push_first : Char → List String → List String
push_first c List.[] = List.◌∷◌ (c ∷ []) List.[]
push_first c (List.◌∷◌ p ps) = List.◌∷◌ (c ∷ p) ps

-- strings.Split(s, sep) for a separator of one character
unfoldable pub split : Char → String → List String
split sep [] = List.◌∷◌ [] List.[]
split sep (c ∷ s) =
    let parts = split sep s in
    if eqb (code c) (code sep) then List.◌∷◌ [] parts else push_first c parts

pub singleton-append : (c : Char) (s : String) → (c ∷ []) <> s ≡ c ∷ s
singleton-append c s = rw cons-append (rw nil-append refl)

pub split-nil : (sep : Char) → split sep [] ≡ List.◌∷◌ [] List.[]
unfolding split
split-nil sep = refl

pub starts_with-append : (p s : String) → starts_with (String.◌++◌ p s) p ≡ true
unfolding starts_with
starts_with-append [] s = refl
starts_with-append (c ∷ p) s = rw cons-append (ground (arith, starts_with-append p s))

pub starts_with-cancel :
    (a s p : String) → starts_with (String.◌++◌ a s) (String.◌++◌ a p) ≡ starts_with s p
unfolding starts_with
starts_with-cancel [] s p = rw (nil-append, nil-append) refl
starts_with-cancel (c ∷ a) s p =
    rw (cons-append, cons-append) (ground (arith, starts_with-cancel a s p))

-- what follows the prefix p
unfoldable pub strip_prefix : String → String → Option String
strip_prefix s [] = some s
strip_prefix [] (p ∷ ps) = none
strip_prefix (c ∷ s) (p ∷ ps) = if eqb (code c) (code p) then strip_prefix s ps else none

-- what follows the first occurrence of p
unfoldable pub after_first : String → String → Option String
unfolding strip_prefix
after_first [] p = strip_prefix [] p
after_first (c ∷ s) p =
    let later = after_first s p in
    elim (strip_prefix (c ∷ s) p) [ none ↦ later | some rest ↦ some rest ]

-- what stands before the first occurrence of p, and all if there is none
unfoldable pub before_first : String → String → String
unfolding strip_prefix
before_first [] p = []
before_first (c ∷ s) p =
    let later = before_first s p in
    elim (strip_prefix (c ∷ s) p) [ none ↦ c ∷ later | some rest ↦ [] ]

-- strings.Split(s, p)[1], for a p that is not empty; none is out of range
unfoldable pub second_part : String → String → Option String
unfolding after_first before_first
second_part s p = elim (after_first s p) [ none ↦ none | some rest ↦ some (before_first rest p) ]

contains_of_starts_with : (s p : String) → starts_with s p ≡ true → contains s p ≡ true
unfolding contains
contains_of_starts_with [] p h = h
contains_of_starts_with (c ∷ s) p h = rw h refl

-- A text occurs in every concatenation around it.
pub contains_middle : (a p b : String) → contains (a <> p <> b) p ≡ true
unfolding contains
contains_middle [] p b = rw nil-append (contains_of_starts_with (p <> b) p (starts_with-append p b))
contains_middle (c ∷ a) p b = rw cons-append (ground (arith, contains_middle a p b))
