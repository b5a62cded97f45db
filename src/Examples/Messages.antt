-- ===== src/Examples/Messages.antt =====
-- Messages: an authorization request, a response to it, and a request object.
use idpy_oidc.Base.{◌≡◌, refl, ◌↔◌, none, some, [], ◌∷◌, ok, All}
use idpy_oidc.Dict
use idpy_oidc.Dict.{Dict}
use idpy_oidc.Dict.Keys.{or_else}
use idpy_oidc.Message.{str, pos, Value, list, urlencoded, dict_format, int_text, digits}
use idpy_oidc.Message.Parse.{
  from_dict, insert, add_value, add_several, single_value, checked, check_all, known_spec,
}
use idpy_oidc.Message.Parse.Stored.{IsTyped, IsTyped-empty, from_dict-IsTyped}
use idpy_oidc.Message.Specs.{texts, split_spaces, sp_sep_list_serializer, sp_sep_list_deserializer}
use idpy_oidc.Message.Specs.Spaces.{IsWord, deserializer-serializer}
use idpy_oidc.Message.Oauth2.{
  text, authorization_request, verify_authorization_response, whitelist, merge,
}
use idpy_oidc.Message.Oauth2.Merge.{own_value, get-merge}
use idpy_oidc.Message.Oauth2.Response.{
  IsExpected, HasCode, HasErrorChars, verify_authorization_response_iff,
}

abbrev parameters : Dict Value
parameters =
    ("client_id", text "client")
    ∷ ("response_type", text "code")
    ∷ ("scope", text "openid email")
    ∷ []

abbrev parsed : Dict Value
parsed =
    ("client_id", text "client")
    ∷ ("response_type", list (str "code" ∷ []))
    ∷ ("scope", list (str "openid" ∷ str "email" ∷ []))
    ∷ []

parsed_run : from_dict authorization_request parameters [] ≡ ok parsed
unfolding from_dict insert add_value add_several single_value checked check_all known_spec
    sp_sep_list_deserializer split_spaces Dict.get Dict.put
parsed_run = refl

from_dict-IsTyped_example : IsTyped authorization_request parsed
from_dict-IsTyped_example =
    from_dict-IsTyped authorization_request parameters [] (IsTyped-empty authorization_request)
      parsed_run

read_int : int_text " 3_600" ≡ some (pos 3600)
unfolding int_text digits
read_int = refl

abbrev response : Dict Value
response = ("code", text "c1") ∷ ("iss", text "https://op.example") ∷ []

verify_authorization_response_iff_example :
    (verify_authorization_response (some "client") (some "https://op.example") response ≡ ok tt) ↔ (
      HasCode response
      × HasErrorChars (Dict.get response "error_description")
      × IsExpected (Dict.get response "client_id") (some "client")
      × IsExpected (Dict.get response "iss") (some "https://op.example"))
verify_authorization_response_iff_example =
    verify_authorization_response_iff (some "client") (some "https://op.example") response

abbrev request_object : Dict Value
request_object = ("scope", text "openid") ∷ []

get-merge_example :
    Dict.get (merge (whitelist ("state" ∷ [])) request_object parsed) "client_id"
    ≡ or_else none (own_value (whitelist ("state" ∷ [])) parsed "client_id")
unfolding Dict.get
get-merge_example =
    get-merge (whitelist ("state" ∷ [])) request_object parsed "client_id" (refl, tt)

deserializer-serializer_example :
    (v : Value) × (sp_sep_list_serializer dict_format (list (texts ("openid" ∷ "email" ∷ [])))
      ≡ some v)
    × (sp_sep_list_deserializer urlencoded v ≡ some (list (texts ("openid" ∷ "email" ∷ []))))
deserializer-serializer_example =
    deserializer-serializer dict_format urlencoded "openid" ("email" ∷ []) words
  where
    words : All IsWord ("openid" ∷ "email" ∷ [])
    words = (
      (refl, (refl, (refl, (refl, (refl, (refl, tt)))))),
      ((refl, (refl, (refl, (refl, (refl, tt))))), tt),
    )
