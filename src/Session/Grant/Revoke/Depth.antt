-- ===== src/Session/Grant/Revoke/Depth.antt =====
-- The depth of calls that a recursive revocation needs, where revoked tokens stay in the list.
-- Python bounds the depth of calls.
use idpy_oidc.Base.{
  ℕ, zero, suc, ◌+◌, ◌≤◌, ◌<◌, ◌≡◌, refl, sym, inl, inr, Bool, true, false, Option, some, List, [],
  String, ◌==◌, arith, In, is_nonempty, opt_is, opt_is_lem, opt_is_of_eq, if◌then◌else◌,
}
use mathlib.Core.Path.{subst}
use idpy_oidc.Session.Grant.Revoke.{State, Config, keep, hit_below, judge, rounds, revoke_token}
use idpy_oidc.Session.Grant.Revoke.Descent.{
  Descends, child, below, HasShape, Reached, Revokes, rounds_lem, Revokes-map,
}

-- A token has a name and a lower address than the tokens based on it; `n` is above them all.
pub record IsOrdered (val : ℕ → String) (par : ℕ → Option String) (issued : List ℕ) (n : ℕ)
    : Type 0 where
  pub bounded : (u : ℕ) → In u issued → u < n
  pub later : (p u : ℕ) → In p issued → In u issued → par u ≡ some (val p) → p < u
  pub named : (u : ℕ) → In u issued → is_nonempty (val u) ≡ true

abbrev pub sel_value : (ℕ → String) → String → ℕ → Bool
sel_value val v u = val u == v

module _ (val : ℕ → String) (par : ℕ → Option String) (issued : List ℕ) (c : Config)
    (keeps : c.remove_inactive_token ≡ false) (n : ℕ) (order : IsOrdered val par issued n) where
  abbrev Shape : State → Type 0
  Shape = HasShape val par issued

  from_issued :
      (call : String → State → Option State) (value based_on : String) (s s' : State)
      → Shape s
      → rounds c call value based_on true issued [] s ≡ some s'
      → rounds c call value based_on true s.issued [] s ≡ some s'
  from_issued call value based_on s s' h e =
      subst (λ l. rounds c call value based_on true l [] s ≡ some s') (sym h.listed) e

  judge_below :
      (v : String)
      → is_nonempty v ≡ true
      → (s : State) → Shape s
      → (t : ℕ) → judge "" v true (s.heap.at t) ≡ (if opt_is (par t) v then hit_below else keep)
  unfolding judge
  judge_below v ne s h t = ground (arith, h.parents t)

  judge_value :
      (v : String)
      → is_nonempty v ≡ true
      → (s : State) → Shape s
      → (t : ℕ) → judge v "" true (s.heap.at t) ≡ (if val t == v then hit_below else keep)
  unfolding judge
  judge_value v ne s h t = ground (arith, h.values t)

  abbrev sel_based : String → ℕ → Bool
  sel_based v u = opt_is (par u) v

  -- A call with `based_on` returns, when the depth allows one level for each address left, and
  -- revokes what is under the value.
  abbrev Below : ℕ → Type 0
  Below f =
      (k : ℕ) (v : String)
      → is_nonempty v ≡ true
      → ((u : ℕ) → In u issued → par u ≡ some v → k ≤ u)
      → k ≤ n
      → n < k + f
      → (s : State) → Shape s
      → (s' : State) × (revoke_token f c "" v true s ≡ some s')
        × Revokes val par issued (Descends val par issued v) s s'

  Below-token :
      (f : ℕ)
      → Below f
      → (u : ℕ) → In u issued
      → n < suc u + f
      → (s : State) → Shape s
      → (s' : State) × (revoke_token f c "" (val u) true s ≡ some s')
        × Revokes val par issued (Descends val par issued (val u)) s s'
  Below-token f ih u i lt s h =
      ih (suc u) (val u) (order.named u i) (λ w j e. order.later u w i j e) (order.bounded u i) lt s
        h

  Below-step : (f : ℕ) → Below f → Below (suc f)
  unfolding revoke_token
  Below-step f ih k v ne level le lt s h = (
    r.0,
    from_issued (λ w t. revoke_token f c "" w true t) "" v s r.0 h r.1,
    Revokes-map val par issued s r.0 to from r.2,
  )
    where
      r :
          (s' : State) × (rounds c (λ w t. revoke_token f c "" w true t) "" v true issued [] s
            ≡ some s')
          × Revokes val par issued (Reached val par issued (sel_based v) issued) s s'
      r =
          rounds_lem val par issued c keeps (λ w t. revoke_token f c "" w true t) "" v (sel_based v)
            (judge_below v ne)
            (λ u i e. Below-token f ih u i (omega (arith, level u i (opt_is_lem (par u) v e))))
            issued [] s refl (λ u i. i) h

      to : (u : ℕ) → Reached val par issued (sel_based v) issued u → Descends val par issued v u
      to u (t, i, e, inl q) = rw q (child i (opt_is_lem (par t) v e))
      to u (t, i, e, inr d) = below t i (opt_is_lem (par t) v e) d

      from : (u : ℕ) → Descends val par issued v u → Reached val par issued (sel_based v) issued u
      from u (child i e) = (u, i, opt_is_of_eq (par u) v e, inl refl)
      from u (below p i e d) = (p, i, opt_is_of_eq (par p) v e, inr d)

  below_lem : (f : ℕ) → Below f
  below_lem zero k v ne level le lt s h = absurd (omega arith)
  below_lem (suc f) k v ne level le lt s h = Below-step f (below_lem f) k v ne level le lt s h

  -- The call by value, on the shape of the state that it begins with.
  pub value_lem :
      (f : ℕ) (v : String)
      → is_nonempty v ≡ true
      → n ≤ f
      → (s : State) → Shape s
      → (s' : State) × (revoke_token (suc f) c v "" true s ≡ some s')
        × Revokes val par issued (Reached val par issued (sel_value val v) issued) s s'
  unfolding revoke_token
  value_lem f v ne le s h =
      (r.0, from_issued (λ w t. revoke_token f c "" w true t) v "" s r.0 h r.1, r.2)
    where
      r :
          (s' : State) × (rounds c (λ w t. revoke_token f c "" w true t) v "" true issued [] s
            ≡ some s')
          × Revokes val par issued (Reached val par issued (sel_value val v) issued) s s'
      r =
          rounds_lem val par issued c keeps (λ w t. revoke_token f c "" w true t) v ""
            (sel_value val v) (judge_value v ne)
            (λ u i e. Below-token f (below_lem f) u i (omega arith)) issued [] s refl (λ u i. i) h
