-- ===== src/Session/Claims.antt =====
-- src/idpyoidc/server/session/claims.py: `claims_match`, and the values of claims.
pub mod Matching
pub mod Interface
use idpy_oidc.Base.{
  ℕ, Bool, true, false, ◌&&◌, ◌||◌, not, Option, none, some, List, [], ◌∷◌, String, ◌==◌, eqb,
  if◌then◌else◌,
}
use idpy_oidc.Dict.{Dict}

-- The JSON values that claims have here.
pub data Value : Type 0 where
  text : String → Value
  number : ℕ → Value
  texts : List String → Value
  flag : Bool → Value
  -- the `cnf` claim, `{"jkt": ...}`
  jkt : String → Value

abbrev same_texts : List String → List String → Bool
same_texts [] [] = true
same_texts (x ∷ xs) (y ∷ ys) = x == y && same_texts xs ys
same_texts _ _ = false

abbrev same_flag : Bool → Bool → Bool
same_flag true b = b
same_flag false b = not b

-- `int(b)`
abbrev pub bit : Bool → ℕ
bit true = 1
bit false = 0

-- Python's `==` on the values, where `True` is 1 and `False` is 0.
unfoldable pub same_value : Value → Value → Bool
same_value (text s) (text t) = s == t
same_value (number m) (number n) = eqb m n
same_value (texts s) (texts t) = same_texts s t
same_value (flag a) (flag b) = same_flag a b
same_value (flag a) (number n) = eqb (bit a) n
same_value (number m) (flag b) = eqb m (bit b)
same_value (jkt s) (jkt t) = s == t
same_value _ _ = false

-- One entry of a claim's specification, a dictionary in its order.
pub data Entry : Type 0 where
  value_is : Value → Entry
  values_are : List Value → Entry
  essential : Bool → Entry
  other : String → Entry

-- A specification is `None` or a dictionary.
abbrev pub Spec : Type 0
Spec = Option (List Entry)

abbrev pub Claims : Type 0
Claims = Dict Spec

-- `value in val`
unfoldable pub member : Value → List Value → Bool
unfolding same_value
member v [] = false
member v (w ∷ ws) = same_value v w || member v ws

-- the test in the body of the loop
unfoldable pub entry_matches : Value → Entry → Bool
unfolding same_value member
entry_matches v (value_is w) = same_value v w
entry_matches v (values_are ws) = member v ws
entry_matches v (essential b) = false
entry_matches v (other k) = false

-- the loop, which ends at the first entry that matches
unfoldable pub some_match : Value → List Entry → Bool
unfolding entry_matches
some_match v [] = false
some_match v (e ∷ es) = let rest = some_match v es in if entry_matches v e then true else rest

-- `list(claimspec.keys()) == ["essential"]`
unfoldable pub only_essential : List Entry → Bool
only_essential (essential b ∷ []) = true
only_essential _ = false

unfoldable pub claims_match : Option Value → Spec → Bool
unfolding some_match only_essential
claims_match none spec = false
claims_match (some v) none = true
claims_match (some v) (some spec) = if some_match v spec then true else only_essential spec
