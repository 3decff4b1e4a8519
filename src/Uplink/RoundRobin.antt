-- ===== src/Uplink/RoundRobin.antt =====
-- The order in which the selector of uplink/uplink.go hands out its URLs.
use uplink_relay.Common.{
  ℕ, zero, suc, ◌+◌, ◌%◌, ◌<◌, ◌≡◌, refl, String, List, [], ◌∷◌, some, length, get_elem?, ok, arith,
}
use uplink_relay.Uplink.{RoundRobinSelector, new_round_robin_selector, next}
use native.Mathlib.Nat.{mod-lt, mod-eq_of_lt, mod-add-mod, zero-add, add-zero, add_assoc, add_comm}
use native.Mathlib.Numerals.{add-one}

-- The selector after n calls of Next.
unfoldable pub after : ℕ → RoundRobinSelector → RoundRobinSelector
after zero rr = rr
after (suc n) rr = after n (next rr).1

get_elem?-some_of_lt {ℓ} :
    {A : Type ℓ} (xs : List A) (i : ℕ) → i < length xs → (x : A) × (get_elem? xs i ≡ some x)
get_elem?-some_of_lt [] i h = elim h [ ]
get_elem?-some_of_lt (x ∷ xs) zero h = (x, refl)
get_elem?-some_of_lt (x ∷ xs) (suc i) h = get_elem?-some_of_lt xs i (omega arith)

-- One call in range: the URL at the index, and the index moved by one around the list.
next_lem :
    (u : String) (us : List String) (i : ℕ)
    → i < length (u ∷ us)
    → (url : String) × (get_elem? (u ∷ us) i ≡ some url)
      × (next (record { urls = u ∷ us; next_index = i })
          ≡ (ok url, record { urls = u ∷ us; next_index = (i + 1) % length (u ∷ us) }))
unfolding next
next_lem u us i h = let (url, e) = get_elem?-some_of_lt (u ∷ us) i h in (url, e, ground arith)

abbrev at : String → List String → ℕ → RoundRobinSelector
at u us i = record { urls = u ∷ us; next_index = i }

after_lem :
    (u : String) (us : List String) (n i : ℕ)
    → i < length (u ∷ us)
    → after n (at u us i) ≡ at u us ((i + n) % length (u ∷ us))
unfolding after
after_lem u us zero i h = rw (add-zero i, mod-eq_of_lt h)
after_lem u us (suc n) i h =
    let (url, _, e) = next_lem u us i h in
    rw (e, after_lem u us n ((i + 1) % length (u ∷ us)) (mod-lt (i + 1) (omega arith)))
      (rw (mod-add-mod, add_assoc, add_comm 1 n, add-one))

-- From the start over a list u ∷ us, after any number n of calls Next returns, without a panic, the
-- URL at position n modulo the length of the list.
pub next-after :
    (u : String) (us : List String) (n : ℕ)
    → (url : String) × (get_elem? (u ∷ us) (n % length (u ∷ us)) ≡ some url)
      × ((next (after n (new_round_robin_selector (u ∷ us)))).0 ≡ ok url)
unfolding new_round_robin_selector
next-after u us n =
    let start : 0 < length (u ∷ us) = omega arith in
    let (url, found, e) = next_lem u us (n % length (u ∷ us)) (mod-lt n start) in
    (url, found, rw (after_lem u us n 0 start, zero-add, e))
