-- ===== src/Session/Grant/Revoke/Descent.antt =====
-- Which tokens a recursive revocation reaches, where revoked tokens stay in the list
-- (`remove_inactive_token` is false).
use idpy_oidc.Base.{
  ℕ, ◌≡◌, refl, sym, ap, ◌∙◌, ◌⊎◌, inl, inr, Bool, true, false, Option, some, List, [], ◌∷◌, ◌++◌,
  String, arith, In, eqb, Bool-cases, if◌then◌else◌,
}
use mathlib.Core.List.{append-nil, append_assoc}
use idpy_oidc.Session.Grant.Revoke.{
  State, Config, keep, hit_below, mark, judge, act, collect, rounds,
}

-- The tokens under a value: those based on it, those based on their values, and so on. `val` and
-- `par` are the `value` and the `based_on` of each token.
pub data Descends (val : ℕ → String) (par : ℕ → Option String) (issued : List ℕ)
    : String → ℕ → Type 0 where
  child : {v : String} {u : ℕ} → In u issued → par u ≡ some v → Descends val par issued v u
  below :
      {v : String} {u : ℕ} (p : ℕ)
      → In p issued
      → par p ≡ some v
      → Descends val par issued (val p) u
      → Descends val par issued v u

abbrev pub is_revoked : State → ℕ → Bool
is_revoked s u = (s.heap.at u).revoked

module _ (val : ℕ → String) (par : ℕ → Option String) (issued : List ℕ) where
  -- The tokens of a state have these values and parents, and the grant lists these tokens.
  pub record HasShape (s : State) : Type 0 where
    pub values : (u : ℕ) → (s.heap.at u).value ≡ val u
    pub parents : (u : ℕ) → (s.heap.at u).based_on ≡ par u
    pub listed : s.issued ≡ issued

  mark-HasShape : (t : ℕ) (s : State) → HasShape s → HasShape (mark t s)
  unfolding mark
  mark-HasShape t s h = record {
    values = λ u. ground (arith, h.values u, h.values t);
    parents = λ u. ground (arith, h.parents u, h.parents t);
    listed = h.listed;
  }

  -- Being under one of the tokens of a list that a test selects, or being that token.
  abbrev pub Reached : (ℕ → Bool) → List ℕ → ℕ → Type 0
  Reached sel ts w =
      (u : ℕ) × In u ts × (sel u ≡ true) × ((w ≡ u) ⊎ Descends val par issued (val u) w)

  -- What a call has done that began at `s` and ended at `s'`: it has revoked `New`, and no more.
  pub record Revokes (New : ℕ → Type 0) (s s' : State) : Type 0 where
    pub shape : HasShape s'
    pub grows : (u : ℕ) → is_revoked s u ≡ true → is_revoked s' u ≡ true
    pub complete : (u : ℕ) → New u → is_revoked s' u ≡ true
    pub sound : (u : ℕ) → is_revoked s' u ≡ true → (is_revoked s u ≡ true) ⊎ New u

  mark_self : (t : ℕ) (s : State) → is_revoked (mark t s) t ≡ true
  unfolding mark
  mark_self t s = ground arith

  mark_grows : (t : ℕ) (s : State) (u : ℕ) → is_revoked s u ≡ true → is_revoked (mark t s) u ≡ true
  unfolding mark
  mark_grows t s u h = ground arith

  mark_only :
      (t : ℕ) (s : State) (u : ℕ)
      → is_revoked (mark t s) u ≡ true
      → (is_revoked s u ≡ true) ⊎ (u ≡ t)
  unfolding mark
  mark_only t s u h = elim (Bool-cases (eqb t u)) [
    | inl e ↦ inr (ground arith)
    | inr e ↦ inl (ground arith)
  ]

  module _ (c : Config) (keeps : c.remove_inactive_token ≡ false) where
    collect_keeps :
        (t : ℕ) (s : State) (remain : List ℕ) → collect c t s remain ≡ (s, remain ++ t ∷ [])
    unfolding collect
    collect_keeps t s remain = rw keeps (ground arith)

    module _ (call : String → State → Option State) (value based_on : String) (sel : ℕ → Bool)
        (judged : (s : State)
          → HasShape s
          → (t : ℕ) → judge value based_on true (s.heap.at t) ≡ (if sel t then hit_below else keep))
        (called : (u : ℕ)
          → In u issued
          → sel u ≡ true
          → (s : State) → HasShape s
          → (s' : State) × (call (val u) s ≡ some s')
            × Revokes (Descends val par issued (val u)) s s') where
      abbrev Act : ℕ → State → Option State → Type 0
      Act t s r = (s' : State) × (r ≡ some s') × Revokes (Reached sel (t ∷ [])) s s'

      hit_Revokes :
          (t : ℕ) (s s' : State)
          → sel t ≡ true
          → Revokes (Descends val par issued (val t)) (mark t s) s'
          → Revokes (Reached sel (t ∷ [])) s s'
      hit_Revokes t s s' e r = record {
        shape = r.shape;
        grows = λ u g. r.grows u (mark_grows t s u g);
        complete = complete;
        sound = λ w g. elim (r.sound w g) [
          | inr d ↦ inr (t, inl refl, e, inr d)
          | inl m ↦ elim (mark_only t s w m) [ inl o ↦ inl o | inr q ↦ inr (t, inl refl, e, inl q) ]
        ];
      }
        where
          complete : (w : ℕ) → Reached sel (t ∷ []) w → is_revoked s' w ≡ true
          complete w (u, inl i, _, inl q) = rw (q, i) (r.grows t (mark_self t s))
          complete w (u, inl i, _, inr d) = r.complete w (rw i at d)
          complete w (u, inr i, _, _) = absurd i

      keep_Revokes :
          (t : ℕ) (s : State) → sel t ≡ false → HasShape s → Revokes (Reached sel (t ∷ [])) s s
      keep_Revokes t s e h = record {
        shape = h;
        grows = λ u g. g;
        complete = complete;
        sound = λ w g. inl g;
      }
        where
          complete : (w : ℕ) → Reached sel (t ∷ []) w → is_revoked s w ≡ true
          complete w (u, inl i, q, _) = cc (ap sel i)
          complete w (u, inr i, _, _) = absurd i

      act_lem :
          (t : ℕ) (s : State)
          → In t issued
          → HasShape s
          → Act t s (act call (judge value based_on true (s.heap.at t)) t s)
      unfolding act
      act_lem t s m h = elim (Bool-cases (sel t)) [
        | inl e ↦
            let (s', p, r) = called t m e (mark t s) (mark-HasShape t s h) in
            (s', rw (judged s h t, e, h.values t) p, hit_Revokes t s s' e r)
        | inr e ↦ (s, rw (judged s h t, e), keep_Revokes t s e h)
      ]

      -- Two lists, one after the other.
      Revokes-trans :
          (t : ℕ) (ts : List ℕ) (s s' s'' : State)
          → Revokes (Reached sel (t ∷ [])) s s'
          → Revokes (Reached sel ts) s' s''
          → Revokes (Reached sel (t ∷ ts)) s s''
      Revokes-trans t ts s s' s'' a b = record {
        shape = b.shape;
        grows = λ u g. b.grows u (a.grows u g);
        complete = complete;
        sound = λ w g. elim (b.sound w g) [
          | inr (u, i, e, why) ↦ inr (u, inr i, e, why)
          | inl g' ↦ elim (a.sound w g') [
            | inl g'' ↦ inl g''
            | inr (u, inl i, e, why) ↦ inr (u, inl i, e, why)
            | inr (u, inr i, e, why) ↦ absurd i
          ]
        ];
      }
        where
          complete : (w : ℕ) → Reached sel (t ∷ ts) w → is_revoked s'' w ≡ true
          complete w (u, inl i, e, why) = b.grows w (a.complete w (u, inl i, e, why))
          complete w (u, inr i, e, why) = b.complete w (u, i, e, why)

      pub rounds_lem :
          (ts remain : List ℕ) (s : State)
          → remain ++ ts ≡ issued
          → ((u : ℕ) → In u ts → In u issued)
          → HasShape s
          → (s' : State) × (rounds c call value based_on true ts remain s ≡ some s')
            × Revokes (Reached sel ts) s s'
      unfolding rounds
      rounds_lem [] remain s e sub h = (
        record s { issued = remain },
        refl,
        record {
          shape = record {
            values = h.values;
            parents = h.parents;
            listed = sym (append-nil _) ∙ e;
          };
          grows = λ u g. g;
          complete = λ w (u, i, _, _). absurd i;
          sound = λ w g. inl g;
        },
      )
      rounds_lem (t ∷ ts) remain s e sub h =
          let (s', p, r) = act_lem t s (sub t (inl refl)) h in
          let (s'', p', r') =
            rounds_lem ts (remain ++ t ∷ []) s' (append_assoc remain (t ∷ []) ts ∙ e)
              (λ u i. sub u (inr i)) r.shape in
          (s'', rw (p, rounds, collect_keeps t s' remain) p', Revokes-trans t ts s s' s'' r r')

  pub Revokes-map :
      {A B : ℕ → Type 0} (s s' : State)
      → ((u : ℕ) → A u → B u)
      → ((u : ℕ) → B u → A u)
      → Revokes A s s'
      → Revokes B s s'
  Revokes-map s s' to from r = record {
    shape = r.shape;
    grows = r.grows;
    complete = λ u b. r.complete u (from u b);
    sound = λ u g. elim (r.sound u g) [ inl o ↦ inl o | inr a ↦ inr (to u a) ];
  }
