-- ===== src/ClientAuthn/Loop.antt =====
-- `verify_client` of client_authn.py: the loop over the methods of the endpoint.
use idpy_oidc.Base.{
  Bool, true, false, ◌&&◌, not, Option, none, some, List, [], ◌∷◌, String, ◌==◌, Outcome, ok, err,
  is_nonempty, is_some, if◌then◌else◌,
}
use idpy_oidc.Dict
use idpy_oidc.Dict.{Dict}
use idpy_oidc.ClientAuthn.{
  Request, ClientInfo, State, Method, client_authentication_error, bearer_token_error, other,
  Exception, failed, missing_key, unknown_client, invalid_client, AuthInfo, Context, is_usable,
  valid_client_secret, may_use,
}
use idpy_oidc.ClientAuthn.Verify.{Verified, verify}

-- The variables of the loop that live on from round to round: the client's identifier and its entry, and
-- whether the client database was taken. A round that ends with another method's turn leaves them.
pub record Locals : Type 0 where
  pub client_id : Option String
  pub cinfo : Option ClientInfo
  pub has_cdb : Bool

abbrev pub no_locals : Locals
no_locals = record { client_id = none; cinfo = none; has_cdb = false }

-- What a call of `verify_client` leaves: the state, and `auth_info`, where `none` is an empty dictionary.
abbrev pub Result : Type 0
Result = State × Outcome Exception (Option AuthInfo)

-- How a round ends.
pub data Round : Type 0 where
  next : State → Locals → Round
  break : State → Locals → AuthInfo → Round
  raise : State → Exception → Round

abbrev new_entry : ClientInfo
new_entry = record {
  client_secret = none;
  client_secret_expires_at = 0;
  endpoint_methods = [];
  client_authn_method = none;
  auth_method = [];
}

-- The name that the client is also known as.
unfoldable pub known_as : Context → String → Outcome Exception String
known_as c id = elim c.also_known_as [
  | [] ↦ ok id
  | p ∷ ps ↦ elim (Dict.get (p ∷ ps) id) [ none ↦ err missing_key | some k ↦ ok k ]
]

abbrev pub from_cdb :
    Context → String → State → Option ClientInfo → State × Outcome Exception ClientInfo
from_cdb c id s (some i) = (s, ok i)
from_cdb c id s none = elim c.automatic_registration [
  | none ↦ (s, err unknown_client)
  | some f ↦ (record s { cdb = f id new_entry s.cdb }, ok new_entry)
]

-- The client's entry, from the caller's function or from the client database.
unfoldable pub client_info : Context → String → State → State × Outcome Exception ClientInfo
client_info c id s = elim c.get_client_info [
  | none ↦ from_cdb c id s (Dict.get s.cdb id)
  | some f ↦ (s, elim (f id) [ none ↦ err unknown_client | some i ↦ ok i ])
]

abbrev pub locals_of : Context → String → ClientInfo → Locals
locals_of c id i = record {
  client_id = some id;
  cinfo = some i;
  has_cdb = not (is_some c.get_client_info);
}

-- The end of a round, with the client's entry.
unfoldable pub judge : Context → String → AuthInfo → State × Outcome Exception ClientInfo → Round
unfolding valid_client_secret may_use
judge c id a (s, err e) = raise s e
judge c id a (s, ok i) =
    if not (valid_client_secret c.now i)
    then raise s invalid_client
    else if may_use c i a.method
    then break s (locals_of c id i) (record a { client_id = some id })
    else next s (locals_of c id i)

abbrev pub with_id : Context → AuthInfo → State → Outcome Exception String → Round
with_id c a s (err e) = raise s e
with_id c a s (ok id) = judge c id a (client_info c id s)

abbrev pub identified : Context → Locals → AuthInfo → State → Option String → Round
identified c l a s none =
    if a.method == "none" then break s l a else raise s (failed client_authentication_error)
identified c l a s (some id) = with_id c a s (known_as c id)

-- What follows the call of a method.
unfoldable pub identify : Context → Locals → State × Verified → Round
unfolding known_as client_info judge
identify c l (s, err other) = next s l
identify c l (s, err client_authentication_error) = raise s (failed client_authentication_error)
identify c l (s, err bearer_token_error) = raise s (failed bearer_token_error)
identify c l (s, ok a) = identified c l a s a.client_id

unfoldable pub round :
    Context → Option Request → Option String → Option Method → State → Locals → Round
unfolding is_usable verify identify
round c r auth none s l = raise s missing_key
round c r auth (some m) s l =
    let called = identify c l (verify m c r auth s) in
    if is_usable m r auth then called else next s l

-- `_cdb[client_id]["auth_method"]` gets the method, under the type of the request.
abbrev pub noted : Context → AuthInfo → ClientInfo → ClientInfo → ClientInfo
noted c a i entry = record entry {
  auth_method = elim i.auth_method [
    | [] ↦ (c.request_type, a.method) ∷ []
    | p ∷ ps ↦ Dict.put entry.auth_method c.request_type a.method
  ];
}

abbrev pub note_in : Context → AuthInfo → String → ClientInfo → State → Option ClientInfo → Result
note_in c a id i s none = (s, err missing_key)
note_in c a id i s (some entry) =
    (record s { cdb = Dict.put s.cdb id (noted c a i entry) }, ok (some a))

abbrev pub is_empty_cdb : Dict ClientInfo → Bool
is_empty_cdb [] = true
is_empty_cdb (p ∷ ps) = false

-- What follows the loop where it was left with an `auth_info`.
unfoldable pub note : Context → AuthInfo → Option String → Option ClientInfo → Bool → State → Result
note c a (some id) (some i) true s =
    if is_nonempty id && not (is_empty_cdb s.cdb)
    then note_in c a id i s (Dict.get s.cdb id)
    else (s, ok (some a))
note c a (some id) (some i) false s = (s, ok (some a))
note c a (some id) none b s = (s, ok (some a))
note c a none i b s = (s, ok (some a))

abbrev pub go_on : Context → (State → Locals → Result) → Round → Result
go_on c rest (next s l) = rest s l
go_on c rest (raise s e) = (s, err e)
go_on c rest (break s l a) = note c a l.client_id l.cinfo l.has_cdb s

-- The loop, over the names of the methods.
unfoldable pub rounds :
    Context → Option Request → Option String → List String → State → Locals → Result
unfolding round note
rounds c r auth [] s l = (s, ok none)
rounds c r auth (name ∷ names) s l =
    go_on c (rounds c r auth names) (round c r auth (Dict.get c.client_authn_methods name) s l)

abbrev pub names_or_all : List String → Dict Method → List String
names_or_all [] methods = Dict.keys methods
names_or_all (n ∷ ns) methods = n ∷ ns

-- `verify_client`: `auth` is the authorization header.
unfoldable pub verify_client : Context → Option Request → Option String → State → Result
unfolding rounds
verify_client c r auth s =
    rounds c r auth (names_or_all c.client_authn_method c.client_authn_methods) s no_locals
