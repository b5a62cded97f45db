-- ===== src/Revocation/Leak.antt =====
-- The endpoint's list of supported types of token, from one request to the next.
use idpy_oidc.Base.{◌≡◌, refl, none, some, List, String}
use idpy_oidc.Dict
use idpy_oidc.Dict.{Dict}
use idpy_oidc.Revocation.{Endpoint, Settings, client_types, or_value, types_for}

-- The types that a client's own entry lists are kept in the endpoint, and are those of the next client that
-- has no list of its own, where the endpoint's configuration has none: a token that the class supports
-- is then refused, or one that it does not is taken.
pub types_for_leaks :
    (e : Endpoint) (first second : String) (ts current : List String) (c : Settings)
    → e.kwargs.token_types_supported ≡ none
    → Dict.get e.clients first ≡ some c
    → c.token_types_supported ≡ some ts
    → Dict.get e.clients second ≡ none
    → types_for e second (types_for e first current) ≡ ts
unfolding types_for
types_for_leaks e first second ts current c k f t n =
    rw (types_for, client_types, or_value, n, k, f, t) refl
