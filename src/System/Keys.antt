-- ===== src/System/Keys.antt =====
-- The key of a pinned artifact, which cache/cache.go makes without arguments, among the other keys.
use Prim.Native.Char.{Char, code}
use uplink_relay.Common.{
  ℕ, Time, String, eq_iff, last_part-joined, last_part, ◌≡◌, ◌≢◌, ◌⊎◌, inl, inr, refl, sym, ◌∙◌, ap,
  ℤ, negsuc, Bool, true, ◌&&◌, ◌||◌, leb, none, some, [], ◌∷◌, ◌<>◌, Excludes, text_append_assoc,
  arith, Result-cases, ok,
}
use uplink_relay.Cache.Keys.{
  make_cache_prefix, make_cache_key, default_cache_key, hash_string, artifact_variables,
}
use uplink_relay.Cache.{CacheItem}
use uplink_relay.Cache.Writes.{
  IsWrite, IsPin, schema_filed, license_filed, manifest_filed, polled, hooked, chunk, pinned,
}
use uplink_relay.Cache.Contents.{make_cache_prefix_lem}
use uplink_relay.Externals.{Externals}
use uplink_relay.GraphRef.{parse_graph_ref}
use uplink_relay.PersistedQueries.Keys.{make_persisted_query_cache_key, colon}
use uplink_relay.Uplink.{supergraph_query, license_query, persisted_queries_query}
use uplink_relay.Pinning.Names.{
  operation_mapping, supergraph_pinned, license_pinned, persisted_queries_pinned,
}
use uplink_relay.Wire.{Variables}

-- A digit of a number in hexadecimal or decimal, and a text of such digits.
unfoldable pub is_digit : Char → Bool
is_digit c =
    leb (code "0") (code c) && leb (code c) (code "9")
    || leb (code "a") (code c) && leb (code c) (code "f")

unfoldable pub IsDigits : String → Type 0
IsDigits String.[] = Unit
IsDigits (String.◌∷◌ c s) = (is_digit c ≡ true) × IsDigits s

IsDigits-Excludes : (s : String) → IsDigits s → Excludes colon s
unfolding IsDigits is_digit
IsDigits-Excludes String.[] h = tt
IsDigits-Excludes (String.◌∷◌ c s) (digit, h) = (λ same. ground arith, IsDigits-Excludes s h)

-- What sha256 in hexadecimal and strconv.Itoa are documented to give.
pub record GivesDigits (x : Externals) : Type 0 where
  pub hashes : (s : String) → IsDigits (x.sha256_hex s)
  pub numbers : (n : ℕ) → IsDigits (x.itoa n)

-- A pinned artifact: an operation that the map of pinned names has.
abbrev pub IsArtifact : String → Type 0
IsArtifact operation_name =
    (operation_name ≡ supergraph_query)
    ⊎ ((operation_name ≡ license_query) ⊎ (operation_name ≡ persisted_queries_query))

-- A name that no key of another kind ends in.
record IsApart (name : String) : Type 0 where
  free : Excludes colon name
  no_digits : ¬ IsDigits name
  no_query : name ≢ supergraph_query

supergraph_pinned-IsApart : IsApart supergraph_pinned
unfolding IsDigits is_digit
supergraph_pinned-IsApart = record {
  free = ground arith;
  no_digits = λ h. ground (arith, h.0);
  no_query = λ h. ground (arith, eq_iff supergraph_pinned supergraph_query);
}

license_pinned-IsApart : IsApart license_pinned
unfolding IsDigits is_digit
license_pinned-IsApart = record {
  free = ground arith;
  no_digits = λ h. ground (arith, h.0);
  no_query = λ h. ground (arith, eq_iff license_pinned supergraph_query);
}

persisted_queries_pinned-IsApart : IsApart persisted_queries_pinned
unfolding IsDigits is_digit
persisted_queries_pinned-IsApart = record {
  free = ground arith;
  no_digits = λ h. ground (arith, h.0);
  no_query = λ h. ground (arith, eq_iff persisted_queries_pinned supergraph_query);
}

operation_mapping-IsApart :
    (operation_name : String)
    → IsArtifact operation_name
    → IsApart (operation_mapping operation_name)
unfolding operation_mapping
operation_mapping-IsApart operation_name (inl e) = rw e supergraph_pinned-IsApart
operation_mapping-IsApart operation_name (inr (inl e)) = rw e license_pinned-IsApart
operation_mapping-IsApart operation_name (inr (inr e)) = rw e persisted_queries_pinned-IsApart

module _ (x : Externals) (digits : GivesDigits x) (graph_ref operation_name : String) where
  last_part-filed :
      (v : Variables)
      → (s : String) × (last_part colon (make_cache_key x graph_ref operation_name (v ∷ []))
          ≡ some s)
        × IsDigits s
  unfolding make_cache_key hash_string
  last_part-filed v =
      let hash = x.sha256_hex (x.sprint (v ∷ [])) in
      (
        hash,
        last_part-joined colon (make_cache_prefix graph_ref operation_name) hash
            (IsDigits-Excludes hash (digits.hashes _)),
        digits.hashes _,
      )

  last_part-prefix :
      Excludes colon operation_name
      → (graph_id variant_id : String) → parse_graph_ref graph_ref ≡ ok (graph_id, variant_id)
      → last_part colon (make_cache_key x graph_ref operation_name []) ≡ some operation_name
  unfolding make_cache_key
  last_part-prefix h graph_id variant_id parsed =
      rw
        (
          make_cache_prefix_lem x graph_ref operation_name graph_id variant_id parsed,
          ← text_append_assoc,
          ← text_append_assoc,
        )
        (last_part-joined colon ((graph_id <> ":") <> variant_id) operation_name h)

last_part-chunk :
    (x : Externals) (digits : GivesDigits x) (id : String) (n : ℕ)
    → last_part colon (make_persisted_query_cache_key id (x.itoa n)) ≡ some (x.itoa n)
unfolding make_persisted_query_cache_key
last_part-chunk x digits id n =
    rw (← text_append_assoc)
      (last_part-joined colon ("pq:" <> id) (x.itoa n) (IsDigits-Excludes _ (digits.numbers n)))

-- A key without arguments, which is empty for a graph_ref that does not parse.
last_part-named :
    (x : Externals) (digits : GivesDigits x) (graph_ref name : String)
    → Excludes colon name
    → (last_part colon (make_cache_key x graph_ref name []) ≡ none)
      ⊎ (last_part colon (make_cache_key x graph_ref name []) ≡ some name)
unfolding make_cache_key make_cache_prefix last_part
last_part-named x digits graph_ref name free = elim (Result-cases (parse_graph_ref graph_ref)) [
  | inl ((graph_id, variant_id), parsed) ↦
      inr (last_part-prefix x digits graph_ref name free graph_id variant_id parsed)
  | inr (inl (e, refused)) ↦ inl (rw refused refl)
  | inr (inr crashed) ↦ inl (rw crashed refl)
]

some_text : (a b : String) → some a ≡ some b → a ≡ b
some_text a b h = cc

module _ (x : Externals) (digits : GivesDigits x) (operation_name graph_ref : String)
    (artifact : IsArtifact operation_name) (graph_id variant_id : String)
    (parsed : parse_graph_ref graph_ref ≡ ok (graph_id, variant_id)) where
  abbrev pub pinned_key : String
  pinned_key = make_cache_key x graph_ref (operation_mapping operation_name) []

  last_part-pinned_key : last_part colon pinned_key ≡ some (operation_mapping operation_name)
  last_part-pinned_key =
      last_part-prefix x digits graph_ref (operation_mapping operation_name)
        (operation_mapping-IsApart operation_name artifact).free graph_id variant_id parsed

  pub pinned_key-ne_empty : pinned_key ≢ ""
  unfolding last_part
  pinned_key-ne_empty empty =
      let none_left : none ≡ some (operation_mapping operation_name) =
        rw empty at last_part-pinned_key in
      cc

  -- A key that ends in another name is another key.
  no_clash :
      (key name : String)
      → last_part colon key ≡ some name
      → operation_mapping operation_name ≢ name
      → key ≢ pinned_key
  no_clash key name ends differs same =
      differs (some_text _ _ (sym last_part-pinned_key ∙ ap (last_part colon) (sym same) ∙ ends))

  no_hash :
      (key g operation : String) (v : Variables)
      → key ≡ make_cache_key x g operation (v ∷ [])
      → key ≢ pinned_key
  no_hash key g operation v e same =
      let (name, ends, name_digits) = last_part-filed x digits g operation v in
      let apart = operation_mapping-IsApart operation_name artifact in
      no_clash key name (rw e ends) (λ h. apart.no_digits (rw h name_digits)) same

  -- A key without arguments of another name.
  pub no_name :
      (key g name : String)
      → key ≡ make_cache_key x g name []
      → Excludes colon name
      → operation_mapping operation_name ≢ name
      → key ≢ pinned_key
  no_name key g name e free differs same = elim (last_part-named x digits g name free) [
    | inl nothing ↦
        let ends : last_part colon key ≡ none = rw e nothing in
        let none_left : none ≡ some (operation_mapping operation_name) =
          sym ends ∙ ap (last_part colon) same ∙ last_part-pinned_key in
        cc
    | inr ends ↦ no_clash key name (rw e ends) differs same
  ]

  -- What the program writes under the key of a pinned artifact is the item of a pin, and has no
  -- end.
  pub write-pinned_key :
      (pins : Bool) (now : Time) (key value : String) (d : ℤ)
      → IsWrite x pins now key value d
      → key ≡ pinned_key
      → (pins ≡ true)
        × (d ≡ negsuc 0)
        × (item : CacheItem) × IsPin x now key item
        × (x.item.marshal item ≡ some value)
  write-pinned_key pins now key value d (pinned item pin marshalled endless pinning) same =
      (pinning, endless, item, pin, marshalled)
  write-pinned_key pins now key value d (schema_filed g i schema id ends e m f) same =
      absurd (no_hash key g _ _ e same)
  write-pinned_key pins now key value d (license_filed g i jwt id e m) same =
      absurd (no_hash key g _ _ e same)
  write-pinned_key pins now key value d (manifest_filed g manifest id v ends e m f) same =
      absurd (no_hash key g _ _ e same)
  write-pinned_key pins now key value d (polled g response e m) same =
      let filed : key ≡ make_cache_key x g persisted_queries_query (artifact_variables g "" ∷ []) =
        unfold default_cache_key in e in
      absurd (no_hash key g persisted_queries_query (artifact_variables g "") filed same)
  write-pinned_key pins now key value d (chunk id content n e c) same =
      let apart = operation_mapping-IsApart operation_name artifact in
      absurd (
        no_clash key (x.itoa n) (rw e (last_part-chunk x digits id n))
          (λ h. apart.no_digits (rw h (digits.numbers n))) same)
  write-pinned_key pins now key value d (hooked g url resp e fetched body) same =
      let apart = operation_mapping-IsApart operation_name artifact in
      absurd (no_name key g supergraph_query e (ground arith) apart.no_query same)
