-- ===== src/Session/Grant/Mint.antt =====
-- `Grant.mint_token`. The context and the token handler are arguments of the method, and
-- `uuid1().hex` is one where it is called. Python shares a dictionary of usage rules between a grant and a
-- token; the entries that `set_defaults` then writes into it are written again for the next token,
-- so the model copies. The keyword argument `token_args` is not modelled.
pub mod Effect
pub mod Order
pub mod Limit
pub mod Total
pub mod Family
use idpy_oidc.Base.{
  ℕ, ◌+◌, Bool, ◌&&◌, ◌||◌, not, is_some, Option, none, some, List, [], ◌∷◌, ◌++◌, String, ◌==◌,
  is_nonempty, contains, if◌then◌else◌,
}
use idpy_oidc.Dict
use idpy_oidc.Dict.{Dict}
use idpy_oidc.Session.Token.{
  SessionToken, UsageRules, TokenClass, default_args, init_token, is_active, supports_minting,
  token_map,
}
use idpy_oidc.Session.Claims.{Value}
use idpy_oidc.Session.Grant.{Heap, Grant, write, alloc}
use idpy_oidc.Session.Grant.Scope.{find_scope}
use idpy_oidc.Session.Grant.Payload.{Context, payload_arguments}

-- The arguments of `mint_token`. A token given as `based_on` is an address. The keyword arguments
-- `code`, `access_token` and `as_if`, `none` where they are not given, are for an ID token: the classes of the
-- other tokens do not take them.
pub record MintArgs : Type 0 where
  pub session_id : String
  pub token_class : String
  pub based_on : Option ℕ
  pub usage_rules : Option UsageRules
  pub scope : Option (List String)
  pub token_type : String
  pub expires_in : ℕ
  pub not_before : ℕ
  pub claims : List String
  pub resources : List String
  pub audience : List String
  pub aud : List String
  pub code : Option String
  pub access_token : Option String
  pub as_if : Option String

-- `None`, an exception, or the new token.
pub data Minted : Type 0 where
  inactive_grant : Minted
  not_supported : Minted
  token_inactive : Minted
  cannot_mint : Minted
  minted : ℕ → Minted
  -- a keyword argument that the class does not take
  type_error : Minted
  -- the search for a scope did not end within the depth given to it; Python's own limit on the depth of calls,
  -- which a chain of a thousand tokens without a scope passes, is not modelled
  scope_depth : Minted

-- A set union; Python's order is arbitrary.
unfoldable pub union : List String → List String → List String
union xs [] = xs
union xs (y ∷ ys) = union (if contains y xs then xs else xs ++ y ∷ []) ys

abbrev put_opt : Dict Value → String → Option String → Dict Value
put_opt p k none = p
put_opt p k (some v) = Dict.put p k (Value.text v)

abbrev handler_args : MintArgs → Dict Value
handler_args a =
    if a.token_class == "id_token"
    then put_opt (put_opt [] "code" a.code) "access_token" a.access_token
    else []

abbrev rules_for : Grant → MintArgs → Option UsageRules
rules_for g a = elim a.usage_rules [ none ↦ Dict.get g.class_rules a.token_class | some r ↦ some r ]

abbrev pub ref_of : Heap → Option ℕ → Option String
ref_of h none = none
ref_of h (some p) = some (h.at p).value

-- What the guards on `based_on` raise.
abbrev pub objection : ℕ → Heap → String → Option ℕ → Option Minted
objection now h c none = none
objection now h c (some p) =
    if not (supports_minting (h.at p) c)
    then some not_supported
    else if not (is_active now (h.at p).item)
    then some token_inactive
    else none

abbrev pub scope_for : Heap → Grant → MintArgs → Option (List String)
scope_for h g a = elim a.scope [
  | some s ↦ some s
  | none ↦ elim a.based_on [ none ↦ some g.scope | some p ↦ find_scope h.next h g (some p) ]
]

-- The token, with its value still to come.
abbrev fresh_token : ℕ → String → Heap → Grant → MintArgs → TokenClass → List String → SessionToken
fresh_token now id h g a cls scope =
    init_token now id cls
      (record default_args {
        usage_rules = rules_for g a;
        expires_in = a.expires_in;
        not_before = a.not_before;
      })
      (record {
        token_class = a.token_class;
        value = "";
        based_on = ref_of h a.based_on;
        id = "";
        scope = scope;
        claims = a.claims;
        resources = union (union a.resources a.audience) a.aud;
        token_type =
            if a.token_class == "access_token" && is_nonempty a.token_type
            then a.token_type
            else "bearer";
      })

-- `item.session_id = session_id` and `item.value = token_handler(...)`
abbrev finish :
    Context
    → (String → Option UsageRules → Dict Value → String)
    → String
    → Grant
    → MintArgs
    → List String
    → SessionToken
    → SessionToken
finish ctx token_handler jti g a scope t =
    let point = if contains a.token_class ctx.claims_release_points then a.token_class else "" in
    let t' = record t { session_id = if a.token_class == "id_token" then a.session_id else "" } in
    record t' {
      value =
          token_handler a.session_id (rules_for g a) (
            payload_arguments g ctx jti a.session_id t' point (some scope) (handler_args a)
              a.as_if);
    }

abbrev pub use_once : Heap → Option ℕ → Heap
use_once h none = h
use_once h (some p) =
    write h p (record (h.at p) { item = record (h.at p).item { used = (h.at p).used + 1 } })

-- `issued_token.append(item)` and `self.used += 1`
abbrev pub add_issued : Grant → ℕ → Grant
add_issued g t = record g {
  item = record g.item { used = g.used + 1 };
  issued_token = g.issued_token ++ t ∷ [];
}

-- The keyword arguments reach `_class(...)`.
abbrev pub refuses_args : MintArgs → Bool
refuses_args a =
    not (a.token_class == "id_token")
    && (is_some a.code || is_some a.access_token || is_some a.as_if)

-- The part of `mint_token` behind the guards.
unfoldable pub issue :
    ℕ
    → String
    → String
    → Context
    → (String → Option UsageRules → Dict Value → String)
    → MintArgs
    → Heap
    → Grant
    → Minted × Heap × Grant
issue now id jti ctx token_handler a h g = elim (token_map a.token_class) [
  | none ↦ (cannot_mint, h, g)
  | some cls ↦ elim (scope_for h g a) [
    | none ↦ (scope_depth, h, g)
    | some scope ↦ if refuses_args a then (type_error, h, g) else (
      minted h.next,
      use_once
          (alloc h (finish ctx token_handler jti g a scope (fresh_token now id h g a cls scope)))
          a.based_on,
      add_issued g h.next,
    )
  ]
]

unfoldable pub mint_token :
    ℕ
    → String
    → String
    → Context
    → (String → Option UsageRules → Dict Value → String)
    → MintArgs
    → Heap
    → Grant
    → Minted × Heap × Grant
mint_token now id jti ctx token_handler a h g =
    if not (is_active now g.item)
    then (inactive_grant, h, g)
    else elim (objection now h a.token_class a.based_on) [
      | some e ↦ (e, h, g)
      | none ↦ issue now id jti ctx token_handler a h g
    ]
