-- ===== src/TokenEndpoint.antt =====
-- The token endpoint's helpers: `TokenEndpointHelper` of
-- src/idpyoidc/server/oauth2/token_helper/__init__.py. The clock is read once for a request.
-- `_mint_token` also has the session manager store the grant again, under the key that `unpack_session_key` makes
-- of the session's identifier. That is the encrypted one, so the database gets a stray entry with the same
-- grant. The model has the tokens and the grant, which the stray entry shares, and not the database.
pub mod Request
pub mod Resources
pub mod Exchange
pub mod AccessToken
pub mod RefreshToken
use idpy_oidc.Base.{ℕ, ◌+◌, Option, none, some, List, [], ◌∷◌, String, is_nonzero, if◌then◌else◌}
use idpy_oidc.Dict
use idpy_oidc.Dict.{Dict}
use idpy_oidc.Authz.{is_empty}
use idpy_oidc.Session.Token.{UsageRules, set_expires_at}
use idpy_oidc.Session.Claims.{Value}
use idpy_oidc.Session.Grant.{Heap, Grant, write}
use idpy_oidc.Session.Grant.Mint as Mint
use idpy_oidc.Session.Grant.Mint.{
  MintArgs, Minted, minted, inactive_grant, not_supported, token_inactive, cannot_mint, scope_depth,
  mint_token,
}
use idpy_oidc.Session.Grant.Payload.{Context}

-- `token_args`, by the two keys that the endpoint fills.
pub record TokenArgs : Type 0 where
  pub resources : List String
  pub aud : List String

abbrev pub no_args : TokenArgs
no_args = record { resources = []; aud = [] }

-- `uuid1().hex` and the identifier that the token handler makes, for one token.
pub record Fresh : Type 0 where
  pub id : String
  pub jti : String

-- What the endpoint works with: the context, for each class of token its handler and the handler's
-- `lifetime`, and `token_args_methods`, which are configured.
pub record Endpoint : Type 0 where
  pub context : Context
  pub token_handler : String → String → Option UsageRules → Dict Value → String
  pub lifetime : String → ℕ
  pub token_args_methods : List (String → TokenArgs → TokenArgs)

-- The exceptions that leave the helpers; `minting_error` is `MintingNotAllowed`.
pub data Exception : Type 0 where
  key_error attribute_error value_error type_error : Exception
  unbound_local_error recursion_error minting_error : Exception

-- `_mint_token`: a token, `MintingNotAllowed`, or another exception.
pub data Made : Type 0 where
  made : ℕ → Made
  minting_not_allowed : Made
  raised : Exception → Made

unfoldable pub expires_in : Endpoint → String → Option UsageRules → Option ℕ
expires_in e token_class none = some (e.lifetime token_class)
expires_in e token_class (some rules) =
    if is_empty rules then some (e.lifetime token_class) else rules.expires_in

unfoldable pub apply_methods :
    List (String → TokenArgs → TokenArgs) → String → TokenArgs → TokenArgs
apply_methods [] client_id args = args
apply_methods (meth ∷ ms) client_id args = apply_methods ms client_id (meth client_id args)

abbrev pub expire : ℕ → Option ℕ → ℕ → Heap → Heap
expire now none t h = h
expire now (some s) t h =
    if is_nonzero s
    then write h t (record (h.at t) { item = set_expires_at now s (h.at t).item })
    else h

abbrev pub mint_args :
    Endpoint
    → String
    → String
    → String
    → Grant
    → Option ℕ
    → Option (List String)
    → TokenArgs
    → String
    → MintArgs
mint_args e client_id session_id token_class g based_on scope args token_type =
    let all = apply_methods e.token_args_methods client_id args in
    record {
      session_id = session_id;
      token_class = token_class;
      based_on = based_on;
      usage_rules = Dict.get g.class_rules token_class;
      scope = scope;
      token_type = token_type;
      expires_in = 0;
      not_before = 0;
      claims = [];
      resources = all.resources;
      audience = [];
      aud = all.aud;
      code = none;
      access_token = none;
      as_if = none;
    }

-- An inactive grant gives `None`, which has no `value`.
abbrev pub end_mint : ℕ → Option ℕ → Minted × Heap × Grant → Made × Heap × Grant
end_mint now exp (minted t, h, g) = (made t, expire now exp t h, g)
end_mint now exp (not_supported, h, g) = (minting_not_allowed, h, g)
end_mint now exp (token_inactive, h, g) = (minting_not_allowed, h, g)
end_mint now exp (inactive_grant, h, g) = (raised attribute_error, h, g)
end_mint now exp (cannot_mint, h, g) = (raised value_error, h, g)
end_mint now exp (scope_depth, h, g) = (raised recursion_error, h, g)
end_mint now exp (Mint.type_error, h, g) = (raised type_error, h, g)

-- `TokenEndpointHelper._mint_token`
unfoldable pub mint :
    Endpoint
    → ℕ
    → Fresh
    → String
    → String
    → String
    → Option ℕ
    → Option (List String)
    → TokenArgs
    → String
    → Heap
    → Grant
    → Made × Heap × Grant
mint e now fresh client_id session_id token_class based_on scope args token_type h g =
    end_mint now (expires_in e token_class (Dict.get g.class_rules token_class)) (
      mint_token now fresh.id fresh.jti e.context (e.token_handler token_class)
        (mint_args e client_id session_id token_class g based_on scope args token_type) h g)
