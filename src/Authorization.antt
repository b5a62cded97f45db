-- ===== src/Authorization.antt =====
-- src/idpyoidc/server/oauth2/authorization.py: `verify_uri` and `get_uri`.
pub mod RedirectUri
pub use RedirectUri.{Query}
