-- ===== src/Current.antt =====
-- `Current` of src/idpyoidc/client/current.py: the claims that a client keeps of each state, and
-- other keys bound to that state. A message is given as the dictionary that it stands for, and a
-- message class as the list of its parameters. The claims are values here: a dictionary that the
-- caller changes after it has handed it over is not followed.
pub mod Merge
pub mod Removal
use idpy_oidc.Base.{
  Option, none, some, List, [], ◌∷◌, String, opt_is, Outcome, ok, err, ◌>>=◌, if◌then◌else◌,
}
use idpy_oidc.Dict
use idpy_oidc.Dict.{Dict}

pub record Current (V : Type 0) : Type 0 where
  pub db : Dict (Dict V)
  pub bound : Dict String

pub data KeyError : Type 0 where
  key_error : String → KeyError

abbrev names : Option (List String) → List String
names none = []
names (some ks) = ks

abbrev or_key_error : String → Option String → Outcome KeyError String
or_key_error key none = err (key_error key)
or_key_error key (some v) = ok v

module _ {V : Type 0} where
  abbrev pub empty : Current V
  empty = record { db = []; bound = [] }

  abbrev some_claims : String → Option (Dict V) → Outcome KeyError (Dict V)
  some_claims key none = err (key_error key)
  some_claims key (some []) = err (key_error key)
  some_claims key (some (c ∷ cs)) = ok (c ∷ cs)

  -- No claims at all is an error too.
  unfoldable pub get : Current V → String → Outcome KeyError (Dict V)
  get s key = some_claims key (Dict.get s.db key)

  abbrev merged : Option (Dict V) → Dict V → Dict V
  merged none info = info
  merged (some current) info = Dict.update current info

  -- `update`; the dictionary that it returns is the one that it stores.
  unfoldable pub update : Current V → String → Dict V → Current V
  update s key info = record {
    db = Dict.put s.db key (merged (Dict.get s.db key) info);
    bound = s.bound;
  }

  unfoldable pub set : Current V → String → Dict V → Current V
  set s key info = record { db = Dict.put s.db key info; bound = s.bound }

  unfoldable pub get_claim : Current V → String → String → Outcome KeyError (Option V)
  get_claim s key claim = do current ← get s key; ok (Dict.get current claim)

  abbrev put_some : Dict V → String → Option V → Dict V
  put_some res k none = res
  put_some res k (some v) = Dict.put res k v

  -- `{k: _current[k] for k in … if k in _current}`, added to `_res`
  unfoldable pub pick : Dict V → List String → Dict V → Dict V
  pick current [] res = res
  pick current (k ∷ ks) res = pick current ks (put_some res k (Dict.get current k))

  unfoldable pub get_set :
      Current V → String → Option (List String) → Option (List String) → Outcome KeyError (Dict V)
  get_set s key message claim = do
    current ← get s key
    ok (pick current (names claim) (pick current (names message) []))

  abbrev without : Dict (Dict V) → String → String → Option (Dict V) → Dict (Dict V)
  without db key claim none = db
  without db key claim (some current) = Dict.put db key (Dict.delete current claim)

  unfoldable pub rm_claim : Current V → String → String → Current V
  rm_claim s key claim = record { db = without s.db key claim (Dict.get s.db key); bound = s.bound }

  unfoldable pub bind_key : Current V → String → String → Current V
  bind_key s fro to = record { db = s.db; bound = Dict.put s.bound fro to }

  unfoldable pub get_base_key : Current V → String → Outcome KeyError String
  get_base_key s key = or_key_error key (Dict.get s.bound key)

  -- `create_state` with the key that `rndstr` gives.
  unfoldable pub create_state : String → Dict V → Current V → Current V
  create_state key claims s = record { db = Dict.put s.db key claims; bound = s.bound }

-- The loop of `remove_state` over the bound keys.
unfoldable pub unbind : String → List String → Dict String → Dict String
unbind key [] bound = bound
unbind key (k ∷ ks) bound =
    let rest = unbind key ks in
    if opt_is (Dict.get bound k) key then rest (Dict.delete bound k) else rest bound

module _ {V : Type 0} where
  unfoldable pub remove_state : Current V → String → Current V
  remove_state s key =
      if Dict.contains_key s.db key
      then record { db = Dict.delete s.db key; bound = unbind key (Dict.keys s.bound) s.bound }
      else s
