-- ===== src/Session/Token.antt =====
-- src/idpyoidc/server/session/token.py: `Item`, `SessionToken` and its subclasses. The clock
-- `utc_time_sans_frac()` is an argument `now`, a number of seconds. Times and counts are naturals.
pub mod Lifetime
use idpy_oidc.Base.{
  ℕ, ◌+◌, ◌==◌, Bool, true, false, ◌&&◌, Option, none, some, List, [], ◌∷◌, String, ltb, leb, eqb,
  is_nonzero, is_nonempty, contains, if◌then◌else◌,
}

-- The entries of a `usage_rules` dictionary that the code reads; `none` is a missing key.
pub record UsageRules : Type 0 where
  pub max_usage : Option ℕ
  pub supports_minting : Option (List String)
  pub expires_in : Option ℕ

abbrev pub no_rules : UsageRules
no_rules = record { max_usage = none; supports_minting = none; expires_in = none }

pub record Item : Type 0 where
  pub usage_rules : UsageRules
  pub issued_at : ℕ
  pub expires_at : ℕ
  pub not_before : ℕ
  pub revoked : Bool
  pub used : ℕ

-- The keyword arguments of `Item.__init__`.
pub record ItemArgs : Type 0 where
  pub usage_rules : Option UsageRules
  pub issued_at : ℕ
  pub expires_in : ℕ
  pub expires_at : ℕ
  pub not_before : ℕ
  pub revoked : Bool
  pub used : ℕ

abbrev pub default_args : ItemArgs
default_args = record {
  usage_rules = none;
  issued_at = 0;
  expires_in = 0;
  expires_at = 0;
  not_before = 0;
  revoked = false;
  used = 0;
}

abbrev rules_or_empty : Option UsageRules → UsageRules
rules_or_empty none = no_rules
rules_or_empty (some r) = r

-- `Item.__init__`
unfoldable pub init_item : ℕ → ItemArgs → Item
init_item now a = record {
  usage_rules = rules_or_empty a.usage_rules;
  issued_at = if is_nonzero a.issued_at then a.issued_at else now;
  expires_at =
      if eqb a.expires_at 0 && is_nonzero a.expires_in then now + a.expires_in else a.expires_at;
  not_before = a.not_before;
  revoked = a.revoked;
  used = a.used;
}

unfoldable pub set_expires_at : ℕ → ℕ → Item → Item
set_expires_at now expires_in i = record i { expires_at = now + expires_in }

abbrev limit_reached : ℕ → Option ℕ → Bool
limit_reached used none = false
limit_reached used (some m) = leb m used

unfoldable pub max_usage_reached : Item → Bool
max_usage_reached i = limit_reached i.used i.usage_rules.max_usage

-- `Item.is_active`, at a time: `now` is never 0, so the default argument is the clock's value.
unfoldable pub is_active : ℕ → Item → Bool
unfolding max_usage_reached
is_active now i =
    if max_usage_reached i
    then false
    else if i.revoked
    then false
    else if is_nonzero i.not_before && ltb now i.not_before
    then false
    else if is_nonzero i.expires_at && ltb i.expires_at now
    then false
    else true

unfoldable pub revoke : Item → Item
revoke i = record i { revoked = true }

-- The Python class of a token.
pub data TokenClass : Type 0 where
  session_token access_token authorization_code refresh_token id_token : TokenClass

pub record SessionToken : Type 0 where
  pub item : Item
  pub open item use *
  pub cls : TokenClass
  pub token_class : String
  pub value : String
  pub based_on : Option String
  pub id : String
  pub scope : List String
  pub claims : List String
  pub resources : List String
  pub token_type : String
  pub session_id : String

-- The other keyword arguments of `SessionToken.__init__`. `claims` has the keys of the dictionary.
pub record TokenArgs : Type 0 where
  pub token_class : String
  pub value : String
  pub based_on : Option String
  pub id : String
  pub scope : List String
  pub claims : List String
  pub resources : List String
  pub token_type : String

abbrev minting_or : Option (List String) → List String → Option (List String)
minting_or none d = some d
minting_or (some l) d = some l

-- `set_defaults`, of each class.
unfoldable pub set_defaults : TokenClass → UsageRules → UsageRules
set_defaults authorization_code r = record r {
  supports_minting =
      minting_or r.supports_minting ("access_token" ∷ "refresh_token" ∷ "id_token" ∷ []);
  max_usage = some 1;
}
set_defaults refresh_token r = record r {
  supports_minting = minting_or r.supports_minting ("access_token" ∷ "refresh_token" ∷ []);
}
set_defaults session_token r = r
set_defaults access_token r = r
set_defaults id_token r = r

abbrev type_of : TokenClass → String → String
type_of access_token t = t
type_of session_token t = ""
type_of authorization_code t = ""
type_of refresh_token t = ""
type_of id_token t = ""

-- `SessionToken.__init__` and `AccessToken.__init__`: `fresh` is `uuid1().hex`. Only an
-- `AccessToken` has a token type; the others have "" here.
unfoldable pub init_token : ℕ → String → TokenClass → ItemArgs → TokenArgs → SessionToken
unfolding init_item set_defaults
init_token now fresh cls ia ta = record {
  item = record (init_item now ia) {
    usage_rules = set_defaults cls (init_item now ia).usage_rules;
  };
  cls = cls;
  token_class = ta.token_class;
  value = ta.value;
  based_on = ta.based_on;
  id = if is_nonempty ta.id then ta.id else fresh;
  scope = ta.scope;
  claims = ta.claims;
  resources = ta.resources;
  token_type = type_of cls ta.token_type;
  session_id = "";
}

unfoldable pub register_usage : SessionToken → SessionToken
register_usage t = record t { item = record t.item { used = t.used + 1 } }

unfoldable pub has_been_used : SessionToken → Bool
has_been_used t = is_nonzero t.used

abbrev mints : Option (List String) → String → Bool
mints none c = false
mints (some l) c = contains c l

unfoldable pub supports_minting : SessionToken → String → Bool
supports_minting t token_class = mints t.usage_rules.supports_minting token_class

abbrev pub revoke_token_item : SessionToken → SessionToken
revoke_token_item t = record t { item = record t.item { revoked = true } }

-- `TOKEN_MAP.get`
unfoldable pub token_map : String → Option TokenClass
token_map c =
    if c == "authorization_code"
    then some authorization_code
    else if c == "access_token"
    then some access_token
    else if c == "refresh_token"
    then some refresh_token
    else if c == "id_token"
    then some id_token
    else none
