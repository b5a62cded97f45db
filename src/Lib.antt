-- ===== src/Lib.antt =====
-- idpy-oidc, a library for OAuth2 and OpenID Connect servers and clients, under src/idpyoidc.
--
-- An authorization request is checked (redirect URI, scopes, the PKCE challenge) and leads to a
-- grant in the session database, under the user and the client. The grant issues an authorization
-- code; the token endpoint checks a request that redeems it, against the same grant, and mints an
-- access token and a refresh token from the code. Tokens are based on one another, so a
-- revocation reaches those below. A client keeps what it knows of each state in a store of its
-- own.
--
-- Which file models which part:
-- - Session/Token.antt: src/idpyoidc/server/session/token.py. `Item` and `SessionToken` are
--   records; the class of a token is a data type, and `token_map` is `TOKEN_MAP`.
-- - Session/Grant.antt and below: `Grant` of src/idpyoidc/server/session/grant.py. Tokens are
--   shared objects, so they are on a heap and a grant lists addresses. Scope.antt is
--   `find_scope`, Payload.antt `payload_arguments`, Mint.antt `mint_token`, Revoke.antt
--   `revoke_token`.
-- - Session/Claims.antt: `claims_match` of src/idpyoidc/server/session/claims.py.
--   Claims/Interface.antt: `ClaimsInterface` of the same file; the client's list of claims, which
--   a call may extend, is part of what a call returns.
-- - Session/Database.antt and below: src/idpyoidc/server/session/database.py and info.py. Nodes
--   are values in a dictionary; Key.antt is `branch_key` and `unpack_branch_key`.
-- - Session/BranchId.antt: `encrypted_branch_id` and `decrypt_branch_id` of database.py, and
--   `lv_pack` and `lv_unpack` of src/idpyoidc/server/util.py. The encrypter is a parameter, with
--   base64.
-- - Session/Manager.antt and below: `GrantManager` of
--   src/idpyoidc/server/session/grant_manager.py and `SessionManager` of manager.py. A state is
--   the database and the heap of tokens. Manager.antt sets up branches, grants and sessions;
--   Lookup.antt has what reads, Revoke.antt what revokes; Sessions.antt is the abstract view, a
--   map from user, client and grant identifier to the grant, with what it becomes by a call.
-- - Authz.antt: src/idpyoidc/server/authz/__init__.py, and `get_usage_rules` of grant.py, with
--   `DEFAULT_USAGE` as a state.
-- - Pkce.antt: src/idpyoidc/server/oauth2/add_on/pkce.py. The digest of a method is a parameter.
-- - Scopes.antt: src/idpyoidc/server/scopes.py, and `check_unknown_scopes_policy` of
--   src/idpyoidc/server/oauth2/authorization.py.
-- - Authorization/RedirectUri.antt: `verify_uri` and `get_uri` of the same file. A URI comes as
--   its parts.
-- - TokenEndpoint.antt and below: src/idpyoidc/server/oauth2/token_helper/__init__.py,
--   access_token.py and refresh_token.py. The session that is found for a code is an argument;
--   exceptions that leave the helper are outcomes, with the state as they leave it.
-- - ClientAuthn.antt and below: src/idpyoidc/server/client_authn.py. Verify.antt has `_verify` of
--   each method, Loop.antt the loop of `verify_client`, with the variables that it keeps from one
--   round to the next. The state is the client database and `jti_db`.
-- - Introspection.antt: src/idpyoidc/server/oauth2/introspection.py. Revocation.antt:
--   token_revocation.py beside it; the attribute of the endpoint that a call assigns is part of
--   its state. Both use the session manager's models. Introspection asks the claims interface's
--   models for the claims to release. The policies of a client are functions.
-- - Message.antt and below: `Message` of src/idpyoidc/message/__init__.py. Parse.antt has
--   `from_dict` and `_add_value`, Verify.antt `verify`, Specs.antt the named entries of
--   `c_param`; Oauth2.antt has classes of src/idpyoidc/message/oauth2/__init__.py. A list holds
--   values that are no lists.
-- - Current.antt: src/idpyoidc/client/current.py.
-- - Dict.antt: Python's dictionaries with text keys. Base.antt: shared names, lists, tests and
--   results; Base/Decimal.antt: the decimal numbers of `str` and `int`.
-- - Examples.antt: concrete data, and runs of the models on it.
--
-- Errors are values: `Outcome` where a method returns or raises, or a data type of the outcomes.
-- The clock, fresh identifiers and the token handler, which makes a token's text, are arguments.
-- Times and counts are natural numbers.
--
-- Calls that may not end have a depth, and running out of it is an outcome, which stands for
-- RecursionError; the limit that Python itself has on nested calls is not modelled. `find_scope`
-- and `revoke_token` end when the depth passes the addresses of the grant's tokens, since a token
-- comes after the one that it is based on; `mint_token` calls `find_scope` with the first free
-- address. `Database.delete`, `delete_sub_tree` and `_revoke_tree` have the depth of the tree
-- below a node. `lv_unpack` takes at least one character each round, so the length of the text is
-- enough.
--
-- Not modelled: the urlencoded format and JSON, signed and encrypted tokens, HTTP and
-- configuration, which rest on other packages; exchange grants, grants without an authentication
-- event, and the kinds of subject identifiers, the other endpoints and the client's services; the
-- loading and dumping of objects.
pub mod Base
pub mod Dict
pub mod Session
pub mod Authz
pub mod Pkce
pub mod Scopes
pub mod Authorization
pub mod TokenEndpoint
pub mod ClientAuthn
pub mod Message
pub mod Introspection
pub mod Revocation
pub mod Current
pub mod Examples
