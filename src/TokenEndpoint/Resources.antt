-- ===== src/TokenEndpoint/Resources.antt =====
-- `validate_resource_indicators_policy` of src/idpyoidc/server/oauth2/token_helper/__init__.py. Lists
-- stand for the sets that the code makes of them.
pub mod Narrow
use Prim.Native.String.{◌++◌ as ◌+++◌}
use idpy_oidc.Base.{
  Option, none, some, List, [], ◌∷◌, ◌++◌, String, contains, Outcome, ok, err, ◌>>=◌, if◌then◌else◌,
}
use idpy_oidc.Dict
use idpy_oidc.Dict.{Dict}
use idpy_oidc.Scopes.{Client, keep_in}
use idpy_oidc.TokenEndpoint.{Exception, key_error}
use idpy_oidc.TokenEndpoint.Request.{AccessTokenRequest, Parsed, rejected, crashed, request}

-- `resource_servers_per_client`, a list or a dictionary.
pub data Servers : Type 0 where
  for_all : List String → Servers
  per_client : Dict (List String) → Servers

unfoldable pub permitted : Servers → String → Option (List String)
permitted (for_all l) client_id = some l
permitted (per_client d) client_id = Dict.get d client_id

abbrev invalid : String → Parsed
invalid client_id =
    rejected "invalid_target" ("Invalid resource requested by client " +++ client_id)

-- `[r for r in common_resources if r in context.cdb.keys()]`
unfoldable pub known_of : Dict Client → List String → List String
known_of cdb [] = []
known_of cdb (r ∷ rs) =
    let rest = known_of cdb rs in if Dict.contains_key cdb r then r ∷ rest else rest

abbrev pub allowed_of : Option Client → Outcome Exception (List String)
allowed_of none = err key_error
allowed_of (some c) = elim c.allowed_scopes [ none ↦ err key_error | some l ↦ ok l ]

-- `permitted_scopes`
unfoldable pub scopes_of : Dict Client → List String → Outcome Exception (List String)
scopes_of cdb [] = ok []
scopes_of cdb (r ∷ rs) = do l ← allowed_of (Dict.get cdb r); ls ← scopes_of cdb rs; ok (l ++ ls)

abbrev pub with_client : String → List String → List String
with_client client_id rs = if contains client_id rs then rs else rs ++ client_id ∷ []

abbrev pub end_narrow : AccessTokenRequest → List String → Outcome Exception (List String) → Parsed
end_narrow req rs (err x) = crashed x
end_narrow req rs (ok scopes) =
    request (record req { resource = some rs; scope = keep_in scopes req.scope })

abbrev pub narrow_known : Dict Client → AccessTokenRequest → String → List String → Parsed
narrow_known cdb req client_id [] = invalid client_id
narrow_known cdb req client_id (r ∷ rs) =
    let all = with_client client_id (r ∷ rs) in end_narrow req all (scopes_of cdb all)

abbrev pub narrow_common : Dict Client → AccessTokenRequest → String → List String → Parsed
narrow_common cdb req client_id [] = invalid client_id
narrow_common cdb req client_id (r ∷ rs) = narrow_known cdb req client_id (known_of cdb (r ∷ rs))

abbrev pub narrow :
    Dict Client → AccessTokenRequest → List String → String → Option (List String) → Parsed
narrow cdb req asked client_id none =
    rejected "invalid_target" ("Resources for client " +++ (client_id +++ " not found"))
narrow cdb req asked client_id (some l) = narrow_common cdb req client_id (keep_in l asked)

unfoldable pub validate_resource_indicators_policy :
    Servers → Dict Client → AccessTokenRequest → Parsed
validate_resource_indicators_policy servers cdb req = elim req.resource [
  | none ↦ rejected "invalid_target" "Missing resource parameter"
  | some asked ↦ elim req.client_id [
    | none ↦ crashed key_error
    | some client_id ↦ narrow cdb req asked client_id (permitted servers client_id)
  ]
]
