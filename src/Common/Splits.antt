-- ===== src/Common/Splits.antt =====
-- What `split` does, for a separator of one character.
use Prim.Native.Char.{Char, code}
use Prim.Native.String.{String, [], ◌∷◌, ◌++◌}
use mathlib.Core.Path.{◌≡◌, refl}
use mathlib.Core.Logic.{◌≢◌, inl, inr}
use mathlib.Core.Bool.{false}
use mathlib.Core.List.{List}
use native.Mathlib.Omega.{arith}
use text.Mathlib.TextLemmas.{nil-append, cons-append}
use text.Mathlib.TextEquality.{Char-path}
use uplink_relay.Common.Tests.{eqb, eqb_iff, Bool-cases}
use uplink_relay.Common.Texts.{split, push_first}

-- The separator does not occur in the text.
abbrev pub Excludes : Char → String → Type 0
Excludes sep [] = Unit
Excludes sep (c ∷ s) = (code c ≢ code sep) × Excludes sep s

abbrev pub one : String → List String
one a = List.◌∷◌ a List.[]

abbrev pub two : String → String → List String
two a b = List.◌∷◌ a (one b)

pub split_one : (sep : Char) (s : String) → Excludes sep s → split sep s ≡ one s
unfolding split
split_one sep [] h = refl
split_one sep (c ∷ s) (ne, h) = ground (arith, split_one sep s h)

pub split_two :
    (sep : Char) (a b : String)
    → Excludes sep a
    → Excludes sep b
    → split sep (a ++ (sep ∷ b)) ≡ two a b
unfolding split
split_two sep [] b h k = rw nil-append (ground (arith, split_one sep b k))
split_two sep (c ∷ a) b (ne, h) k = rw cons-append (ground (arith, split_two sep a b h k))

module _ (sep : Char) where
  split-ne_nil : (s : String) → split sep s ≢ List.[]
  unfolding split
  split-ne_nil [] = cc
  split-ne_nil (c ∷ s) = ground (arith, split-ne_nil s)

  push_first-one :
      (c : Char) (parts : List String) (a : String)
      → parts ≢ List.[]
      → push_first c parts ≡ one a
      → (p : String) × (parts ≡ one p) × (a ≡ c ∷ p)
  push_first-one c List.[] a ne h = absurd (ne refl)
  push_first-one c (List.◌∷◌ p List.[]) a ne h = (p, refl, cc)
  push_first-one c (List.◌∷◌ p (List.◌∷◌ q ps)) a ne h = cc

  push_first-two :
      (c : Char) (parts : List String) (a b : String)
      → push_first c parts ≡ two a b
      → (p : String) × (parts ≡ two p b) × (a ≡ c ∷ p)
  push_first-two c List.[] a b h = cc
  push_first-two c (List.◌∷◌ p ps) a b h = (p, cc, cc)

  differs : (c : Char) → eqb (code c) (code sep) ≡ false → code c ≢ code sep
  differs c h = ground arith

  pub of_split_one : (s a : String) → split sep s ≡ one a → (s ≡ a) × Excludes sep s
  unfolding split
  of_split_one [] a h = (cc, tt)
  of_split_one (c ∷ s) a h = elim (Bool-cases (eqb (code c) (code sep))) [
    | inl same ↦ absurd (ground (arith, split-ne_nil s))
    | inr other ↦
        let (p, rest, e) = push_first-one c (split sep s) a (split-ne_nil s) (ground arith) in
        let (same, free) = of_split_one s p rest in (cc, (differs c other, free))
  ]

  pub of_split_two :
      (s a b : String)
      → split sep s ≡ two a b
      → (s ≡ a ++ (sep ∷ b)) × Excludes sep a × Excludes sep b
  unfolding split
  of_split_two [] a b h = cc
  of_split_two (c ∷ s) a b h = elim (Bool-cases (eqb (code c) (code sep))) [
    | inl same ↦
        let (e, free) = of_split_one s b (ground arith) in
        let empty : a ≡ [] = ground arith in
        let at : c ≡ sep = Char-path c sep ((eqb_iff _ _).0 same) in
        rw (empty, at, e) (rw nil-append refl, tt, rw (← e) free)
    | inr other ↦
        let (p, rest, e) = push_first-two c (split sep s) a b (ground arith) in
        let (same, free, free') = of_split_two s p b rest in
        (cc (cons-append c p (sep ∷ b)), rw e (differs c other, free), free')
  ]
