-- ===== src/Session/Grant/Revoke.antt =====
-- `Grant.revoke_token`. The method calls itself from inside its loop, and each call ends by
-- replacing `issued_token`; the outer loop goes on over the list that it began with.
pub mod Descent
pub mod Depth
pub mod Reach
use idpy_oidc.Base.{
  ℕ, zero, suc, Bool, true, ◌&&◌, not, Option, none, some, List, [], ◌∷◌, ◌++◌, String, ◌==◌,
  is_nonempty, opt_is, if◌then◌else◌,
}
use idpy_oidc.Session.Token.{SessionToken, revoke_token_item}
use idpy_oidc.Session.Grant.{Heap, write}

-- What a call changes: the tokens, the grant's list, and what was handed to `remember_token`.
pub record State : Type 0 where
  pub heap : Heap
  pub issued : List ℕ
  pub remembered : List ℕ

-- The attributes of the grant that steer a call.
pub record Config : Type 0 where
  pub remove_inactive_token : Bool
  pub remembers : Bool

-- `t.revoked = True`
unfoldable pub mark : ℕ → State → State
mark t s = record s { heap = write s.heap t (revoke_token_item (s.heap.at t)) }

-- The tests in the loop, in their order; `hit_below` means that the tokens based on `t` follow.
pub data Verdict : Type 0 where
  keep hit hit_below : Verdict

unfoldable pub judge : String → String → Bool → SessionToken → Verdict
judge value based_on recursive t =
    if not (is_nonempty value) && not (is_nonempty based_on)
    then hit
    else if is_nonempty value && is_nonempty based_on
    then (if value == t.value && opt_is t.based_on based_on then hit else keep)
    else if is_nonempty value && t.value == value
    then (if recursive then hit_below else hit)
    else if is_nonempty based_on && opt_is t.based_on based_on
    then (if recursive then hit_below else hit)
    else keep

-- One round up to the recursive call, which is `call`.
unfoldable pub act : (String → State → Option State) → Verdict → ℕ → State → Option State
act call keep t s = some s
act call hit t s = some (mark t s)
act call hit_below t s = call (s.heap.at t).value (mark t s)

-- The end of a round, on the list `remain`.
unfoldable pub collect : Config → ℕ → State → List ℕ → State × List ℕ
collect c t s remain =
    if (s.heap.at t).revoked
    then (if c.remove_inactive_token
        then (if c.remembers then record s { remembered = s.remembered ++ t ∷ [] } else s, remain)
        else (s, remain ++ t ∷ []))
    else (s, remain ++ t ∷ [])

-- The loop and the assignment that follows it.
unfoldable pub rounds :
    Config
    → (String → State → Option State)
    → String
    → String
    → Bool
    → List ℕ
    → List ℕ
    → State
    → Option State
rounds c call value based_on recursive [] remain s = some (record s { issued = remain })
rounds c call value based_on recursive (t ∷ ts) remain s =
    elim (act call (judge value based_on recursive (s.heap.at t)) t s) [
      | none ↦ none
      | some s' ↦
          let (s'', remain') = collect c t s' remain in
          rounds c call value based_on recursive ts remain' s''
    ]

-- The number bounds the depth of the calls; `none` is Python's `RecursionError`.
unfoldable pub revoke_token : ℕ → Config → String → String → Bool → State → Option State
revoke_token zero c value based_on recursive s = none
revoke_token (suc depth) c value based_on recursive s =
    rounds c (λ v s'. revoke_token depth c "" v true s') value based_on recursive s.issued [] s
