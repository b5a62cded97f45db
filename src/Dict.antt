-- ===== src/Dict.antt =====
-- Python's `dict` with text keys, in insertion order; also src/idpyoidc/item.py `DLDict`, whose
-- item access is that of the `dict` it holds.
pub mod Keys
use idpy_oidc.Base.{
  ◌≡◌, refl, Bool, Option, none, some, List, [], ◌∷◌, String, ◌==◌, eq_iff, arith, is_some,
  if◌then◌else◌,
}

abbrev pub Dict {ℓ} : Type ℓ → Type ℓ
Dict V = List (String × V)

module _ {ℓ} {V : Type ℓ} where
  -- `d.get(k)`
  unfoldable pub get : Dict V → String → Option V
  get [] k = none
  get ((j, v) ∷ d) k = if j == k then some v else get d k

  -- `k in d`
  unfoldable pub contains_key : Dict V → String → Bool
  unfolding get
  contains_key d k = is_some (get d k)

  -- `d[k] = v`; an old key keeps its place
  unfoldable pub put : Dict V → String → V → Dict V
  put [] k v = (k, v) ∷ []
  put ((j, w) ∷ d) k v = if j == k then (j, v) ∷ d else (j, w) ∷ put d k v

  -- `d.pop(k, None)`: every entry of the key goes
  unfoldable pub delete : Dict V → String → Dict V
  delete [] k = []
  delete ((j, v) ∷ d) k = let rest = delete d k in if j == k then rest else (j, v) ∷ rest

  -- `list(d.keys())`
  unfoldable pub keys : Dict V → List String
  keys [] = []
  keys ((j, v) ∷ d) = j ∷ keys d

  -- `d.update(e)`
  unfoldable pub update : Dict V → Dict V → Dict V
  unfolding put
  update d [] = d
  update d ((k, v) ∷ e) = update (put d k v) e

  pub get-put :
      (d : Dict V) (k j : String) (v : V) → get (put d k v) j ≡ (if k == j then some v else get d j)
  unfolding get put
  get-put [] k j v = refl
  get-put ((i, w) ∷ d) k j v = ground (arith, eq_iff k j, eq_iff i k, eq_iff i j, get-put d k j v)

  pub get-delete :
      (d : Dict V) (k j : String) → get (delete d k) j ≡ (if k == j then none else get d j)
  unfolding get delete
  get-delete [] k j = ground arith
  get-delete ((i, w) ∷ d) k j = ground (arith, eq_iff k j, eq_iff i k, eq_iff i j, get-delete d k j)

pub ruleset dict_laws = (get-put, get-delete)
