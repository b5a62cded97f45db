-- ===== src/Current/Removal.antt =====
-- What is left of a state that has been removed.
use idpy_oidc.Base.{
  ◌≡◌, ◌≢◌, refl, sym, ap, inl, inr, true, ◌&&◌, Option, none, some, List, [], ◌∷◌, String, ◌==◌,
  eq_iff, arith, contains, opt_is, is_some, err, Bool-cases, ==_of_eq, if◌then◌else◌,
}
use idpy_oidc.Dict
use idpy_oidc.Dict.{Dict, get-delete}
use idpy_oidc.Dict.Keys.{contains_key-keys, get-delete_self, get-delete_ne}
use idpy_oidc.Current.{Current, key_error, get, unbind, remove_state}

get-unbind :
    (key : String) (ks : List String) (bound : Dict String) (a : String)
    → Dict.get (unbind key ks bound) a
      ≡ (if contains a ks && opt_is (Dict.get bound a) key then none else Dict.get bound a)
unfolding unbind
get-unbind key [] bound a = refl
get-unbind key (k ∷ ks) bound a = elim (Bool-cases (a == k)) [
  | inl t ↦
      let same : a ≡ k = ground (arith, eq_iff a k) in
      let e : Dict.get bound a ≡ Dict.get bound k = ap (Dict.get bound) same in
      ground (
        arith,
        e,
        ==_of_eq (sym same),
        get-delete bound k a,
        get-unbind key ks bound a,
        get-unbind key ks (Dict.delete bound k) a,
      )
  | inr f ↦ ground (
    arith,
    eq_iff a k,
    eq_iff k a,
    get-delete bound k a,
    get-unbind key ks bound a,
    get-unbind key ks (Dict.delete bound k) a,
  )
]

known_test : (o : Option String) (key : String) → (is_some o && opt_is o key) ≡ opt_is o key
known_test none key = refl
known_test (some v) key = refl

module _ {V : Type 0} where
  -- Once a known state is removed it is no state any more and no key is bound to it; every other
  -- state and every key that is bound to another state are as they were.
  pub remove_state-get :
      (s : Current V) (key j a : String)
      → Dict.contains_key s.db key ≡ true
      → key ≢ j
      → (get (remove_state s key) key ≡ err (key_error key))
        × (get (remove_state s key) j ≡ get s j)
        × (Dict.get (remove_state s key).bound a
            ≡ (if opt_is (Dict.get s.bound a) key then none else Dict.get s.bound a))
  unfolding get remove_state Dict.contains_key
  remove_state-get s key j a h ne = (
    rw (h, get-delete_self s.db key) refl,
    rw (h, get-delete_ne s.db key j ne) refl,
    rw
        (
          h,
          get-unbind key (Dict.keys s.bound) s.bound a,
          sym (contains_key-keys s.bound a),
          known_test (Dict.get s.bound a) key,
        )
        refl,
  )
