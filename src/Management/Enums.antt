-- ===== src/Management/Enums.antt =====
-- graph/model/models_gen.go and graph/operation_type.go: the texts of the enumerations, and how they are read and written.
use uplink_relay.Common.{
  String, Bool, true, false, ◌||◌, ◌==◌, if◌then◌else◌, ◌≡◌, ◌↔◌, refl, sym, ap, Act, ok, err,
  failed, raise, ◌<>◌, eq_iff, Bool-cases, inl, inr, arith,
}
use uplink_relay.Management.Model.{
  OperationType, schema, entitlement, persisted_query_manifest, invalid,
}
use uplink_relay.Uplink.{supergraph_query, license_query, persisted_queries_query}
use uplink_relay.Wire.{Value, null, text, other}

-- The value of type string, by which the program knows an operation type.
unfoldable pub operation_text : OperationType → String
operation_text schema = "SCHEMA"
operation_text entitlement = "ENTITLEMENT"
operation_text persisted_query_manifest = "PERSISTED_QUERY_MANIFEST"
operation_text (invalid name) = name

-- What a switch over a text of type OperationType does with it.
unfoldable pub operation_of : String → OperationType
operation_of s =
    if s == "SCHEMA"
    then schema
    else if s == "ENTITLEMENT"
    then entitlement
    else if s == "PERSISTED_QUERY_MANIFEST"
    then persisted_query_manifest
    else invalid s

unfoldable pub operation_type_is_valid : String → Bool
operation_type_is_valid e = e == "SCHEMA" || e == "ENTITLEMENT" || e == "PERSISTED_QUERY_MANIFEST"

unfoldable pub health_status_is_valid : String → Bool
health_status_is_valid e = e == "OK" || e == "DOWN"

-- graph/operation_type.go: the operation names; a key that the map does not have reads as "".
abbrev pub operation_enum_mapping : OperationType → String
operation_enum_mapping schema = supergraph_query
operation_enum_mapping entitlement = license_query
operation_enum_mapping persisted_query_manifest = persisted_queries_query
operation_enum_mapping (invalid name) = ""

-- UnmarshalGQL of an enumeration, given its IsValid and its name, on what the pointer points to.
-- The text is assigned before it is tested.
unfoldable pub unmarshal_enum : (String → Bool) → String → Value → Act String (Unit {0})
unmarshal_enum is_valid name (text s) e =
    if is_valid s then (ok tt, s) else (err (failed (s <> " is not a valid " <> name)), s)
unmarshal_enum is_valid name null e = raise (failed "enums must be strings") e
unmarshal_enum is_valid name (other v) e = raise (failed "enums must be strings") e

abbrev pub unmarshal_operation_type : Value → Act String (Unit {0})
unmarshal_operation_type = unmarshal_enum operation_type_is_valid "OperationType"

abbrev pub unmarshal_health_status : Value → Act String (Unit {0})
unmarshal_health_status = unmarshal_enum health_status_is_valid "HealthStatus"

-- MarshalGQL of both, with strconv.Quote.
abbrev pub marshal_enum : (quote : String → String) → String → String
marshal_enum quote e = quote e

-- The resolver of the field health.
abbrev pub health : String
health = "OK"

abbrev pub is_named : OperationType → Bool
is_named (invalid name) = false
is_named schema = true
is_named entitlement = true
is_named persisted_query_manifest = true

operation_text-of_valid :
    (s : String)
    → operation_type_is_valid s ≡ true
    → (is_named (operation_of s) ≡ true) × (operation_text (operation_of s) ≡ s)
unfolding operation_type_is_valid operation_of operation_text
operation_text-of_valid s valid = elim (Bool-cases (s == "SCHEMA")) [
  | inl same ↦ rw same (refl, sym ((eq_iff s "SCHEMA").0 same))
  | inr no_schema ↦ elim (Bool-cases (s == "ENTITLEMENT")) [
    | inl same ↦ rw (no_schema, same) (refl, sym ((eq_iff s "ENTITLEMENT").0 same))
    | inr no_entitlement ↦
        let same : s == "PERSISTED_QUERY_MANIFEST" ≡ true =
          ground (arith, no_schema, no_entitlement, valid) in
        rw (no_schema, no_entitlement, same)
          (refl, sym ((eq_iff s "PERSISTED_QUERY_MANIFEST").0 same))
  ]
]

operation_of-text :
    (e : OperationType)
    → is_named e ≡ true
    → (operation_type_is_valid (operation_text e) ≡ true) × (operation_of (operation_text e) ≡ e)
unfolding operation_type_is_valid operation_of operation_text
operation_of-text schema named = (refl, refl)
operation_of-text entitlement named = (refl, refl)
operation_of-text persisted_query_manifest named = (refl, refl)
operation_of-text (invalid name) named = cc

-- UnmarshalGQL of an operation type succeeds exactly for the texts of the three named operation
-- types, and then has assigned that text.
pub unmarshal_operation_type-ok :
    (v : Value) (old : String)
    → ((unmarshal_operation_type v old).0 ≡ ok tt) ↔ (
        (e : OperationType) × (is_named e ≡ true)
        × (v ≡ text (operation_text e))
        × ((unmarshal_operation_type v old).1 ≡ operation_text e))
unfolding unmarshal_enum
unmarshal_operation_type-ok null old = (λ h. cc, λ (e, n, same, o). cc)
unmarshal_operation_type-ok (other v) old = (λ h. cc, λ (e, n, same, o). cc)
unmarshal_operation_type-ok (text s) old = elim (Bool-cases (operation_type_is_valid s)) [
  | inl valid ↦
      let (named, same) = operation_text-of_valid s valid in
      rw valid (λ _. (operation_of s, named, ap text (sym same), sym same), λ _. refl)
  | inr not_valid ↦ rw not_valid (
    λ h. ground (arith, h),
    λ (e, named, _, same).
        let (valid, _) = operation_of-text e named in
        let valid_too : operation_type_is_valid s ≡ true = rw same valid in
        absurd (ground (arith, not_valid, valid_too)),
  )
]
