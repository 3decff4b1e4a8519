-- ===== src/Config/Merging.antt =====
-- MergeWithDefaultConfig of config/config.go, applied twice.
use uplink_relay.Common.{◌≡◌, refl, String, Bool, Option, none, some, List, [], ◌∷◌, ℤ, arith}
use uplink_relay.Config.{Config, merge_with_default_config, or_text, or_list, or_int, or_bool}

or_text_idem :
    (loaded default : String) → or_text (or_text loaded default) default ≡ or_text loaded default
unfolding or_text
or_text_idem loaded default = ground arith

or_int_idem :
    (zero loaded default : ℤ)
    → or_int zero (or_int zero loaded default) default ≡ or_int zero loaded default
unfolding or_int
or_int_idem zero loaded default = ground arith

or_bool_idem :
    (loaded default : Option Bool)
    → or_bool (or_bool loaded default) default ≡ or_bool loaded default
unfolding or_bool
or_bool_idem none none = refl
or_bool_idem none (some b) = refl
or_bool_idem (some b) default = refl

or_list_idem {ℓ} :
    {A : Type ℓ} (loaded default : List A)
    → or_list (or_list loaded default) default ≡ or_list loaded default
unfolding or_list
or_list_idem [] [] = refl
or_list_idem [] (x ∷ xs) = refl
or_list_idem (x ∷ xs) default = refl

-- Merging with the same defaults a second time changes nothing.
pub merge_idempotent :
    (d c : Config)
    → merge_with_default_config d (merge_with_default_config d c) ≡ merge_with_default_config d c
merge_idempotent d c =
    unfold merge_with_default_config in simp (or_text_idem, or_int_idem, or_bool_idem, or_list_idem)
