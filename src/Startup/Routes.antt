-- ===== src/Startup/Routes.antt =====
-- Which paths the routes of startup in main.go serve, by the documentation of Go's ServeMux.
use Prim.Native.Char.{code}
use Prim.Native.String.{String}
use uplink_relay.Common.{
  ◌≡◌, refl, ◌∙◌, subst, ok_inj, map, Bool, true, false, not, ◌&&◌, eqb, List, [], ◌∷◌, ◌++◌, Time,
  All, Act, Result-cases, ok, pure, ◌>>=◌, inl, inr, arith, if◌then◌else◌, contains, starts_with,
}
use uplink_relay.Cache.{Cache}
use uplink_relay.Config.{Config}
use uplink_relay.Externals.{Externals}
use uplink_relay.Server.{Server}
use uplink_relay.Startup.{
  Handler, relay, persisted_queries, webhook, management, ServeMux, Started, register_handlers,
  pin_supergraphs, startup,
}

unfoldable ends_with_slash : String → Bool
ends_with_slash String.[] = false
ends_with_slash (String.◌∷◌ c s) =
    let rest = ends_with_slash s in elim s [ String.[] ↦ eqb (code c) 47 | String.◌∷◌ _ _ ↦ rest ]

-- A pattern that is a path, without wildcards and without a final slash.
unfoldable pub is_literal : String → Bool
unfolding ends_with_slash
is_literal pattern =
    starts_with pattern "/" && not (contains pattern "{") && not (ends_with_slash pattern)

-- What ServeMux documents: such a pattern serves its own path and no other.
abbrev pub MatchesLiterally : ServeMux → Type 0
MatchesLiterally mux =
    (pattern path : String)
    → is_literal pattern ≡ true
    → mux.serves pattern path ≡ true
    → path ≡ pattern

-- The pattern with which startup registers each handler.
abbrev pub pattern_of : Config → Handler → String
pattern_of config relay = "/*"
pattern_of config persisted_queries = "/persisted-queries/*"
pattern_of config webhook = config.webhook.path
pattern_of config management = config.management_api.path

abbrev pub Named : Config → List (String × Handler) → Type 0
Named config routes = All (λ (r : String × Handler). r.0 ≡ pattern_of config r.1) routes

-- What a call gives has a property.
abbrev Ensures : {S A : Type 0} → (A → Type 0) → Act S A → Type 0
Ensures {S} {A} Holds m = (a : A) (s : S) → (m s).0 ≡ ok a → Holds a

module _ {S A : Type 0} where
  bind-Ensures :
      {B : Type 0} (Before : A → Type 0) (After : B → Type 0) (m : Act S A) (f : A → Act S B)
      → Ensures Before m
      → ((a : A) → Before a → Ensures After (f a))
      → Ensures After (m >>= f)
  bind-Ensures Before After m f first later b s h = elim (Result-cases (m s).0) [
    | inl (a, done) ↦ later a (first a s done) b (m s).1 (rw done at h)
    | inr (inl (e, failed_)) ↦ absurd (ground (arith, failed_, h))
    | inr (inr crashed) ↦ absurd (ground (arith, crashed, h))
  ]

  pure-Ensures : (Holds : A → Type 0) (a : A) → Holds a → Ensures {S = S} Holds (pure a)
  pure-Ensures Holds a holds b s h = subst Holds (ok_inj a b h) holds

  if-Ensures :
      (Holds : A → Type 0) (b : Bool) (m k : Act S A)
      → Ensures Holds m
      → Ensures Holds k
      → Ensures Holds (if b then m else k)
  if-Ensures Holds true m k first second = first
  if-Ensures Holds false m k first second = second

All-append :
    {A : Type 0} (Holds : A → Type 0) (xs : List A) (y : A)
    → All Holds xs
    → Holds y
    → All Holds (xs ++ y ∷ [])
All-append Holds [] y all holds = (holds, tt)
All-append Holds (x ∷ xs) y (first, all) holds = (first, All-append Holds xs y all holds)

module _ {C : Type 0} (x : Externals) (mux : ServeMux) (cache : Cache C) (now : Time) where
  register-Named :
      (config : Config) (routes : List (String × Handler)) (handler : Handler)
      → Named config routes
      → Ensures
          (Named config)
          (register_handlers x mux cache now routes (pattern_of config handler) handler)
  unfolding register_handlers
  register-Named config routes handler named =
      if-Ensures (Named config)
        (mux.accepts (map (λ (r : String × Handler). r.0) routes) (pattern_of config handler)) _ _
        (pure-Ensures (Named config) _ (
          All-append (λ (r : String × Handler). r.0 ≡ pattern_of config r.1) routes
            (pattern_of config handler, handler) named refl))
        (λ a s h. absurd (ground (arith, h)))

  pub startup_ensures :
      (s : Server C) (st : Started)
      → (startup x mux cache now s).0 ≡ ok st
      → Named s.config st.routes × (st.polls ≡ s.config.polling.enabled)
  unfolding startup
  startup_ensures s st h =
      let fits = λ (started : Started).
        Named s.config started.routes × (started.polls ≡ s.config.polling.enabled) in
      let any = λ (u : Unit {0}). Unit {0} in
      bind-Ensures (Named s.config) fits (register_handlers x mux cache now [] "/*" relay) _
        (register-Named s.config [] relay tt)
        (λ relay_only first.
          bind-Ensures (Named s.config) fits _ _
            (register-Named s.config relay_only persisted_queries first)
            (λ chunks second.
              bind-Ensures (Named s.config) fits _ _
                (if-Ensures (Named s.config) s.config.webhook.enabled _ _
                  (register-Named s.config chunks webhook second)
                  (pure-Ensures (Named s.config) chunks second))
                (λ routes third.
                  bind-Ensures any fits (pin_supergraphs x mux cache now s.config.supergraphs) _
                    (λ _ _ _. tt)
                    (λ _ _.
                      bind-Ensures (Named s.config) fits _ _
                        (if-Ensures (Named s.config) s.config.management_api.enabled _ _
                          (register-Named s.config routes management third)
                          (pure-Ensures (Named s.config) routes third))
                        (λ all_routes fourth. pure-Ensures fits _ (fourth, refl))))))
        st s h

  star : is_literal "/*" ≡ true
  unfolding is_literal ends_with_slash starts_with contains
  star = refl

  chunks_star : is_literal "/persisted-queries/*" ≡ true
  unfolding is_literal ends_with_slash starts_with contains
  chunks_star = refl

  -- The paths that a route serves, by its handler.
  abbrev pub ServesLiterally : List (String × Handler) → Type 0
  ServesLiterally routes =
      All
        (λ (r : String × Handler).
          (path : String)
          → mux.serves r.0 path ≡ true
          → (r.1 ≡ relay → path ≡ "/*") × (r.1 ≡ persisted_queries → path ≡ "/persisted-queries/*"))
        routes

  Named-ServesLiterally :
      (config : Config) (routes : List (String × Handler))
      → MatchesLiterally mux
      → Named config routes
      → ServesLiterally routes
  Named-ServesLiterally config [] literal named = tt
  Named-ServesLiterally config ((pattern, handler) ∷ routes) literal (named, all) = (
    λ path serves. (
      λ (is_relay : handler ≡ relay).
          let same : pattern ≡ "/*" = rw is_relay at named in
          literal pattern path (rw same star) serves ∙ same,
      λ (is_chunks : handler ≡ persisted_queries).
          let same : pattern ≡ "/persisted-queries/*" = rw is_chunks at named in
          literal pattern path (rw same chunks_star) serves ∙ same,
    ),
    Named-ServesLiterally config routes literal all,
  )

  -- For a ServeMux that matches a pattern without wildcards and without a final slash literally: of
  -- the routes that startup leaves behind, the one of the relay serves the path /* only, and the
  -- one of the chunks the path /persisted-queries/* only.
  pub startup-ServesLiterally :
      (s : Server C) (st : Started)
      → MatchesLiterally mux
      → (startup x mux cache now s).0 ≡ ok st
      → ServesLiterally st.routes
  startup-ServesLiterally s st literal h =
      Named-ServesLiterally s.config st.routes literal (startup_ensures s st h).0
