-- ===== src/Session/Token/Lifetime.antt =====
-- When a token is active, and what a use, a revocation and time do to that.
use idpy_oidc.Base.{
  ℕ, ◌≤◌, ◌<◌, ◌≡◌, ◌≢◌, ◌↔◌, true, false, Option, none, some, String, arith, refl,
}
use idpy_oidc.Session.Token.{
  Item, ItemArgs, TokenArgs, authorization_code, limit_reached, is_active, revoke, init_token,
  register_usage,
}

-- The limit on uses leaves room for one more.
abbrev pub HasUsesLeft : Option ℕ → ℕ → Type 0
HasUsesLeft none used = Unit
HasUsesLeft (some m) used = used < m

-- What an active item is, without reference to the order of the tests. A time of 0 is no limit.
pub record IsLive (now : ℕ) (i : Item) : Type 0 where
  pub uses : HasUsesLeft i.usage_rules.max_usage i.used
  pub unrevoked : i.revoked ≡ false
  pub begun : i.not_before ≢ 0 → i.not_before ≤ now
  pub unexpired : i.expires_at ≢ 0 → now ≤ i.expires_at

limit_uses : (o : Option ℕ) (used : ℕ) → limit_reached used o ≡ false → HasUsesLeft o used
limit_uses none used h = tt
limit_uses (some m) used h = ground arith

uses_limit : (o : Option ℕ) (used : ℕ) → HasUsesLeft o used → limit_reached used o ≡ false
uses_limit none used h = refl
uses_limit (some m) used h = ground arith

-- An item is active exactly when it has uses left, is not revoked, has begun and has not expired.
pub is_active_iff : (now : ℕ) (i : Item) → (is_active now i ≡ true) ↔ IsLive now i
unfolding is_active
is_active_iff now i = (
  λ h. record {
    uses = limit_uses i.usage_rules.max_usage i.used (ground arith);
    unrevoked = ground arith;
    begun = λ nz. ground arith;
    unexpired = λ nz. ground arith;
  },
  λ l. rw (uses_limit i.usage_rules.max_usage i.used l.uses) (ground (arith, l.begun, l.unexpired)),
)

-- Once the `not_before` of an item has come, an item that is not active is not active at any
-- later time either.
pub is_active_antitone :
    (now later : ℕ) (i : Item)
    → i.not_before ≤ now
    → now ≤ later
    → is_active now i ≡ false
    → is_active later i ≡ false
unfolding is_active
is_active_antitone now later i b le h = ground arith

-- A revoked item is not active at any time.
pub is_active-revoke : (now : ℕ) (i : Item) → is_active now (revoke i) ≡ false
unfolding is_active revoke
is_active-revoke now i = ground arith

-- A new authorization code, whatever usage rules it was made with, is not active at any time once
-- its usage is registered.
pub code_single_use :
    (now later : ℕ) (fresh : String) (ia : ItemArgs) (ta : TokenArgs)
    → is_active later (register_usage (init_token now fresh authorization_code ia ta)).item ≡ false
unfolding is_active register_usage init_token
code_single_use now later fresh ia ta = ground arith
