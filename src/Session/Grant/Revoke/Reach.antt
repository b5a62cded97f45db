-- ===== src/Session/Grant/Revoke/Reach.antt =====
-- `Grant.revoke_token` by value, on the state of the grant: what it revokes and what it keeps.
use idpy_oidc.Base.{
  ℕ, zero, suc, ◌<◌, ◌≡◌, refl, ◌⊎◌, ◌↔◌, inl, inr, true, false, some, String, Option, eq_iff,
  arith, In, is_nonempty, ==_of_eq,
}
use idpy_oidc.Session.Grant.Revoke.{State, Config, revoke_token}
use idpy_oidc.Session.Grant.Revoke.Descent.{Descends, is_revoked, Reached, Revokes}
use idpy_oidc.Session.Grant.Revoke.Depth.{IsOrdered, sel_value, value_lem}

abbrev pub value_of : State → ℕ → String
value_of s u = (s.heap.at u).value

abbrev pub parent_of : State → ℕ → Option String
parent_of s u = (s.heap.at u).based_on

-- A token of the grant with this value, or one that was minted from it, directly or through others.
abbrev pub IsUnder : State → String → ℕ → Type 0
IsUnder s v u =
    (t : ℕ) × In t s.issued
    × (value_of s t ≡ v)
    × ((u ≡ t) ⊎ Descends (value_of s) (parent_of s) s.issued v u)

-- A recursive call by value on a grant that keeps its revoked tokens returns if the depth of calls
-- may pass the number of tokens: a token has a value, and is made after the token that it is based
-- on. It then revokes the tokens with that value and all that were minted from them, no others, and
-- lists the same tokens.
pub revoke_token_recursive :
    (depth n : ℕ) (c : Config) (v : String) (s : State)
    → c.remove_inactive_token ≡ false
    → IsOrdered (value_of s) (parent_of s) s.issued n
    → is_nonempty v ≡ true
    → n < depth
    → (s' : State) × (revoke_token depth c v "" true s ≡ some s')
      × (s'.issued ≡ s.issued)
      × ((u : ℕ) → (is_revoked s' u ≡ true) ↔ ((is_revoked s u ≡ true) ⊎ IsUnder s v u))
revoke_token_recursive zero n c v s keeps order ne lt = absurd (omega arith)
revoke_token_recursive (suc f) n c v s keeps order ne lt = (
  r.0,
  r.1,
  r.2.shape.listed,
  λ u. (
    λ g. elim (r.2.sound u g) [ inl o ↦ inl o | inr x ↦ inr (to u x) ],
    elim [ inl o ↦ r.2.grows u o | inr x ↦ r.2.complete u (from u x) ],
  ),
)
  where
    r :
        (s' : State) × (revoke_token (suc f) c v "" true s ≡ some s')
        × Revokes
            (value_of s)
            (parent_of s)
            s.issued
            (Reached (value_of s) (parent_of s) s.issued (sel_value (value_of s) v) s.issued)
            s
            s'
    r =
        value_lem (value_of s) (parent_of s) s.issued c keeps n order f v ne (omega arith) s
          (record { values = λ u. refl; parents = λ u. refl; listed = refl })

    to :
        (u : ℕ)
        → Reached (value_of s) (parent_of s) s.issued (sel_value (value_of s) v) s.issued u
        → IsUnder s v u
    to u (t, i, e, inl q) = (t, i, (eq_iff (value_of s t) v).0 e, inl q)
    to u (t, i, e, inr d) = let p = (eq_iff (value_of s t) v).0 e in (t, i, p, inr (rw p at d))

    from :
        (u : ℕ)
        → IsUnder s v u
        → Reached (value_of s) (parent_of s) s.issued (sel_value (value_of s) v) s.issued u
    from u (t, i, p, inl q) = (t, i, ==_of_eq p, inl q)
    from u (t, i, p, inr d) = (t, i, ==_of_eq p, inr (rw p d))
