-- ===== src/Dict/Keys.antt =====
-- The keys of a dictionary and what it holds.
use idpy_oidc.Base.{
  ◌≡◌, ◌≢◌, refl, Option, none, some, [], ◌∷◌, String, eq_iff, eq_refl, arith, contains, true, ◌==◌,
  not-==_of_ne,
}
use idpy_oidc.Dict.{Dict, get, put, delete, keys, contains_key, update, get-put, get-delete}

module _ {ℓ} {V : Type ℓ} where
  pub contains_key-keys : (d : Dict V) (k : String) → contains_key d k ≡ contains k (keys d)
  unfolding contains_key get keys
  contains_key-keys [] k = refl
  contains_key-keys ((j, v) ∷ d) k = ground (arith, eq_iff j k, eq_iff k j, contains_key-keys d k)

  pub get-put_self : (d : Dict V) (k : String) (v : V) → get (put d k v) k ≡ some v
  get-put_self d k v = rw (get-put d k k v, eq_refl k)

  pub get-put_ne : (d : Dict V) (k j : String) (v : V) → k ≢ j → get (put d k v) j ≡ get d j
  get-put_ne d k j v h = rw (get-put d k j v, not-==_of_ne h)

  pub get-delete_self : (d : Dict V) (k : String) → get (delete d k) k ≡ none
  get-delete_self d k = rw (get-delete d k k, eq_refl k)

  pub get-delete_ne : (d : Dict V) (k j : String) → k ≢ j → get (delete d k) j ≡ get d j
  get-delete_ne d k j h = rw (get-delete d k j, not-==_of_ne h)

  -- The new dictionary wins where it has the key: the last entry of a key counts.
  pub get-update_missing :
      (d e : Dict V) (k : String) → get e k ≡ none → get (update d e) k ≡ get d k
  unfolding update get
  get-update_missing d [] k h = refl
  get-update_missing d ((j, v) ∷ e) k h =
      ground (arith, eq_iff j k, get-update_missing (put d j v) e k, get-put d j k v)

  abbrev pub or_else : Option V → Option V → Option V
  or_else none o = o
  or_else (some v) o = some v

module _ {V : Type 0} where
  -- No key twice, as in every dictionary of Python.
  abbrev pub IsDict : Dict V → Type 0
  IsDict [] = Unit
  IsDict ((k, v) ∷ d) = (get d k ≡ none) × IsDict d

  pub get-update :
      (d e : Dict V) (k : String) → IsDict e → get (update d e) k ≡ or_else (get e k) (get d k)
  unfolding update get
  get-update d [] k h = refl
  get-update d ((j, v) ∷ e) k (fresh, h) =
      ground (arith, get-update (put d j v) e k h, get-put d j k v, eq_iff j k, fresh_at)
    where
      fresh_at : (j == k) ≡ true → get e k ≡ none
      fresh_at t = ground (arith, eq_iff j k)
