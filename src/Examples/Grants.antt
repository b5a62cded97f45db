-- ===== src/Examples/Grants.antt =====
-- Runs of a grant's operations.
use idpy_oidc.Base.{
  ℕ, ◌+◌, ◌≤◌, ◌<◌, ◌≡◌, refl, ◌⊎◌, inl, inr, ◌↔◌, true, false, none, some, List, [], ◌∷◌, String,
  arith, In, eq_iff, is_nonempty, ◌≢◌,
}
use idpy_oidc.Session.Token.{
  Item, TokenArgs, is_active, init_token, no_rules, supports_minting, token_map,
}
use idpy_oidc.Session.Token.Lifetime.{IsLive, is_active_iff}
use idpy_oidc.Session.Grant.{Heap, Grant}
use idpy_oidc.Session.Grant.Mint.{mint_token, MintArgs, Minted, minted, scope_depth}
use idpy_oidc.Session.Grant.Mint
use idpy_oidc.Session.Grant.Payload.{payload_arguments}
use idpy_oidc.Session.Grant.Scope.{find_scope}
use idpy_oidc.Session.Grant.Mint.Effect.{Ends, mint_token-Ends}
use idpy_oidc.Session.Grant.Mint.Order.{HasOrder, IsFresh}
use idpy_oidc.Session.Grant.Mint.Family.{state_of, revoke_token-mint_token}
use idpy_oidc.Session.Grant.Mint.Total.{mint_token_in_depth}
use idpy_oidc.Session.Grant.Mint.Limit.{Request, total_from, total_from-le}
use idpy_oidc.Session.Grant.Revoke.{State, Config, revoke_token}
use idpy_oidc.Session.Grant.Revoke.Descent.{is_revoked}
use idpy_oidc.Session.Grant.Revoke.Reach.{IsUnder, revoke_token_recursive}
use idpy_oidc.Examples.Data.{item_with, code_rules, heap, grant, context, handler, mint_args}

abbrev request : String → Request
request token_class = record {
  now = 1000;
  id = "uuid";
  jti = "jti";
  context = context;
  handler = handler;
  args = mint_args token_class (some 0);
}

abbrev requests : List Request
requests = request "access_token" ∷ request "refresh_token" ∷ []

one_minted : total_from 0 requests heap grant ≡ 1
unfolding total_from mint_token Mint.issue init_token is_active supports_minting token_map
    find_scope payload_arguments
one_minted = refl

total_from-le_example : total_from 0 requests heap grant + 0 ≤ 1
total_from-le_example =
    total_from-le 0 1 requests heap grant
      (record { exists = omega arith; limit = refl; within = omega arith })

mint_token-Ends_example :
    Ends 1000 heap grant
      (mint_args "access_token" (some 0))
      (mint_token 1000 "uuid" "jti" context handler (mint_args "access_token" (some 0)) heap grant)
mint_token-Ends_example =
    mint_token-Ends 1000 heap grant (mint_args "access_token" (some 0)) "uuid" "jti" context handler

is_active_iff_example :
    (is_active 1000 (item_with code_rules) ≡ true) ↔ IsLive 1000 (item_with code_rules)
is_active_iff_example = is_active_iff 1000 (item_with code_rules)

abbrev expired : Item
expired = record (item_with no_rules) { expires_at = 500 }

abbrev token_args : TokenArgs
token_args = record {
  token_class = "authorization_code";
  value = "";
  based_on = none;
  id = "";
  scope = [];
  claims = [];
  resources = [];
  token_type = "";
}

abbrev state : State
state = record { heap = heap; issued = 0 ∷ 1 ∷ []; remembered = [] }

later_than :
    (p u : ℕ)
    → In p (0 ∷ 1 ∷ [])
    → In u (0 ∷ 1 ∷ [])
    → (heap.at u).based_on ≡ some (heap.at p).value
    → p < u
later_than p u (inl i) (inl j) e = absurd (none_some (rw (i, j) at e))
  where
    none_some : (heap.at 0).based_on ≡ some (heap.at 0).value → ⊥
    none_some q = ground arith
later_than p u (inl i) (inr (inl j)) e = omega (arith, i, j)
later_than p u (inr (inl i)) (inl j) e = absurd (none_some (rw (i, j) at e))
  where
    none_some : (heap.at 0).based_on ≡ some (heap.at 1).value → ⊥
    none_some q = ground arith
later_than p u (inr (inl i)) (inr (inl j)) e = absurd (differ (rw (i, j) at e))
  where
    differ : (heap.at 1).based_on ≡ some (heap.at 1).value → ⊥
    differ q = ground (arith, eq_iff "code" "refresh")
later_than p u (inr (inr i)) j e = absurd i
later_than p u i (inr (inr j)) e = absurd j

named : (u : ℕ) → In u (0 ∷ 1 ∷ []) → is_nonempty (heap.at u).value ≡ true
named u (inl i) = rw i refl
named u (inr (inl i)) = rw i refl
named u (inr (inr i)) = absurd i

pub ordered : HasOrder heap grant
ordered = record {
  bounded = λ u i. elim i [
    | inl e ↦ omega (arith, e)
    | inr j ↦ elim j [ inl e ↦ omega (arith, e) | inr k ↦ absurd k ]
  ];
  later = later_than;
  named = named;
}

revoke_token_recursive_example :
    (s' : State) × (revoke_token 3
        (record { remove_inactive_token = false; remembers = false })
        "code"
        ""
        true
        state
      ≡ some s')
    × (s'.issued ≡ state.issued)
    × ((u : ℕ) → (is_revoked s' u ≡ true) ↔ ((is_revoked state u ≡ true) ⊎ IsUnder state "code" u))
revoke_token_recursive_example =
    revoke_token_recursive 3 2 (record { remove_inactive_token = false; remembers = false }) "code"
      state refl ordered refl (omega arith)

abbrev minting : MintArgs
minting = mint_args "access_token" (some 0)

abbrev new_value : String
new_value = ((mint_token 1000 "uuid" "jti" context handler minting heap grant).1.at 2).value

new_value_fresh : new_value ≡ "fresh"
unfolding mint_token Mint.issue init_token is_active supports_minting token_map find_scope
    payload_arguments
new_value_fresh = refl

childless : (u : ℕ) → In u (0 ∷ 1 ∷ []) → (heap.at u).based_on ≢ some "fresh"
childless u (inl i) e = absurd (first (rw i at e))
  where
    first : (heap.at 0).based_on ≡ some "fresh" → ⊥
    first q = ground arith
childless u (inr (inl i)) e = absurd (second (rw i at e))
  where
    second : (heap.at 1).based_on ≡ some "fresh" → ⊥
    second q = ground (arith, eq_iff "code" "fresh")
childless u (inr (inr i)) e = absurd i

is_fresh : IsFresh heap grant (some 0) new_value
is_fresh = rw new_value_fresh (record {
  named = refl;
  childless = childless;
  own = λ e. ground (arith, eq_iff "code" "fresh");
})

abbrev after_minting : Minted × Heap × Grant
after_minting = mint_token 1000 "uuid" "jti" context handler minting heap grant

minted_run : after_minting ≡ (minted 2, after_minting.1, after_minting.2)
unfolding mint_token Mint.issue init_token is_active supports_minting token_map find_scope
    payload_arguments
minted_run = refl

minted_next : after_minting.1.next ≡ 3
unfolding mint_token Mint.issue init_token is_active supports_minting token_map find_scope
    payload_arguments
minted_next = refl

abbrev keeping : Config
keeping = record { remove_inactive_token = false; remembers = false }

revoke_token-mint_token_example :
    (s' : State) × (revoke_token 4 keeping "code" "" true
        (state_of [] after_minting.1 after_minting.2)
      ≡ some s')
    × (is_revoked s' 2 ≡ true)
    × ((u : ℕ)
        → is_revoked s' u ≡ true
        → (is_revoked (state_of [] after_minting.1 after_minting.2) u ≡ true)
          ⊎ IsUnder (state_of [] after_minting.1 after_minting.2) "code" u)
revoke_token-mint_token_example =
    revoke_token-mint_token 1000 "uuid" "jti" context handler minting heap after_minting.1 grant
      after_minting.2 0 2 4 keeping [] ordered (inl refl) refl minted_run is_fresh refl
      (omega (arith, minted_next))

mint_token_in_depth_example :
    (mint_token 1000 "uuid" "jti" context handler minting heap grant).0 ≢ scope_depth
mint_token_in_depth_example =
    mint_token_in_depth heap grant ordered 1000 minting (inl refl) "uuid" "jti" context handler
