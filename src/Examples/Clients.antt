-- ===== src/Examples/Clients.antt =====
-- Runs of a client's store of states.
use idpy_oidc.Base.{◌≡◌, refl, none, [], ◌∷◌, String, arith, eq_iff, err, ok, opt_is, if◌then◌else◌}
use idpy_oidc.Dict
use idpy_oidc.Current.{Current, get, get_claim, update, remove_state, key_error}
use idpy_oidc.Dict.Keys.{or_else}
use idpy_oidc.Current.Merge.{claim_of, get_claim-update}
use idpy_oidc.Current.Removal.{remove_state-get}

abbrev states : Current String
states = record {
  db = ("s1", ("iss", "op") ∷ ("nonce", "n") ∷ []) ∷ ("s2", ("iss", "other") ∷ []) ∷ [];
  bound = ("n", "s1") ∷ ("m", "s2") ∷ [];
}

abbrev info : Dict.Dict String
info = ("nonce", "new") ∷ []

remove_state-get_example :
    (get (remove_state states "s1") "s1" ≡ err (key_error "s1"))
    × (get (remove_state states "s1") "s2" ≡ get states "s2")
    × (Dict.get (remove_state states "s1").bound "n"
        ≡ (if opt_is (Dict.get states.bound "n") "s1" then none else Dict.get states.bound "n"))
remove_state-get_example =
    remove_state-get states "s1" "s2" "n" (unfold Dict.contains_key Dict.get in refl)
      (λ e. ground (arith, eq_iff "s1" "s2"))

-- The claim that the update does not have.
get_claim-update_example :
    (get_claim (update states "s1" info) "s1" "iss"
      ≡ ok (or_else (Dict.get info "iss") (claim_of (Dict.get states.db "s1") "iss")))
    × (get (update states "s1" info) "s2" ≡ get states "s2")
get_claim-update_example =
    get_claim-update states "s1" "s2" info "iss" (unfold Dict.get in (refl, tt)) (λ e. ground arith)
      (λ e. ground (arith, eq_iff "s1" "s2"))
