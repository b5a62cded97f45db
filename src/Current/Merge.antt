-- ===== src/Current/Merge.antt =====
-- What a state's claims are after an update, and what a selection of them holds.
use idpy_oidc.Base.{
  ◌≡◌, ◌≢◌, refl, ap, inl, inr, ◌||◌, Option, none, some, List, [], ◌∷◌, String, ◌==◌, eq_iff,
  arith, contains, ok, Option-cases, Bool-cases, if◌then◌else◌,
}
use idpy_oidc.Dict
use idpy_oidc.Dict.{Dict, get-put}
use idpy_oidc.Dict.Keys.{get-put_ne, get-put_self, or_else, IsDict, get-update}
use idpy_oidc.Current.{
  Current, some_claims, merged, get, update, get_claim, pick, put_some, get_set, names,
}

module _ {V : Type 0} where
  abbrev pub claim_of : Option (Dict V) → String → Option V
  claim_of none c = none
  claim_of (some d) c = Dict.get d c

  put-ne : (d : Dict V) (k : String) (v : V) → Dict.put d k v ≢ []
  unfolding Dict.put
  put-ne [] k v p = ground (arith)
  put-ne ((j, w) ∷ d) k v p = elim (Bool-cases (j == k)) [
    | inl t ↦ ground (arith)
    | inr f ↦ ground (arith)
  ]

  update-ne : (d e : Dict V) → d ≢ [] → Dict.update d e ≢ []
  unfolding Dict.update
  update-ne d [] n = n
  update-ne d ((k, v) ∷ e) n = update-ne (Dict.put d k v) e (put-ne d k v)

  some_claims-ne : (key : String) (d : Dict V) → d ≢ [] → some_claims key (some d) ≡ ok d
  some_claims-ne key [] n = absurd (n refl)
  some_claims-ne key (c ∷ cs) n = refl

  merged-ne : (o : Option (Dict V)) (info : Dict V) → info ≢ [] → merged o info ≢ []
  unfolding Dict.update
  merged-ne none info n = n
  merged-ne (some current) [] n = absurd (n refl)
  merged-ne (some current) ((k, v) ∷ e) n = update-ne (Dict.put current k v) e (put-ne current k v)

  get-merged :
      (o : Option (Dict V)) (info : Dict V) (c : String)
      → IsDict info
      → Dict.get (merged o info) c ≡ or_else (Dict.get info c) (claim_of o c)
  get-merged none info c d = elim (Option-cases (Dict.get info c)) [
    | inl e ↦ rw e refl
    | inr (v, e) ↦ rw e refl
  ]
  get-merged (some current) info c d = get-update current info c d

  -- After an update with at least one claim, and no name twice, each claim of the state is the one that the
  -- update has, or else the one that the state had; every other state is as it was.
  pub get_claim-update :
      (s : Current V) (key j : String) (info : Dict V) (c : String)
      → IsDict info
      → info ≢ []
      → key ≢ j
      → (get_claim (update s key info) key c
          ≡ ok (or_else (Dict.get info c) (claim_of (Dict.get s.db key) c)))
        × (get (update s key info) j ≡ get s j)
  unfolding get_claim get update
  get_claim-update s key j info c d n ne = (
    rw (get-put_self s.db key all, some_claims-ne key all (merged-ne (Dict.get s.db key) info n))
        (ap ok (get-merged (Dict.get s.db key) info c d)),
    rw (get-put_ne s.db key j all ne) refl,
  )
    where
      all : Dict V
      all = merged (Dict.get s.db key) info

  get-put_some :
      (res : Dict V) (k c : String) (o : Option V)
      → Dict.get (put_some res k o) c
        ≡ (if k == c then or_else o (Dict.get res c) else Dict.get res c)
  get-put_some res k c none = ground (arith)
  get-put_some res k c (some v) = ground (arith, get-put res k c v)

  -- What the selection holds of a claim whose entry, if any, is right before.
  get-pick :
      (current : Dict V) (ks : List String) (res : Dict V) (c : String)
      → Dict.get (pick current ks res) c
        ≡ (if contains c ks then or_else (Dict.get current c) (Dict.get res c) else Dict.get res c)
  unfolding pick
  get-pick current [] res c = refl
  get-pick current (k ∷ ks) res c = elim (Bool-cases (c == k)) [
    | inl t ↦
        let e : c ≡ k = ground (arith, eq_iff c k) in
        let next = get-pick current ks (put_some res k (Dict.get current k)) c in
        let put = get-put_some res k c (Dict.get current k) in
        let at : Dict.get current c ≡ Dict.get current k = ap (Dict.get current) e in
        elim (Option-cases (Dict.get current k)) [
          | inl f ↦ ground (arith, eq_iff k c, next, put, at)
          | inr (v, f) ↦ ground (arith, eq_iff k c, next, put, at)
        ]
    | inr f ↦ ground (
      arith,
      eq_iff c k,
      eq_iff k c,
      get-pick current ks (put_some res k (Dict.get current k)) c,
      get-put_some res k c (Dict.get current k),
    )
  ]

  -- A selection of a state's claims has the claims of the message class and those that are asked
  -- for, where the state has them, and nothing else.
  pub get_set_lem :
      (s : Current V) (key : String) (message claim : Option (List String)) (current : Dict V)
      → get s key ≡ ok current
      → (res : Dict V) × (get_set s key message claim ≡ ok res)
        × ((c : String)
            → Dict.get res c ≡ (
                if contains c (names message) || contains c (names claim)
                then Dict.get current c
                else none))
  unfolding get_set Dict.get
  get_set_lem s key message claim current h =
      (pick current (names claim) (pick current (names message) []), ground (arith, h), picked)
    where
      first : Dict V
      first = pick current (names message) []

      picked :
          (c : String)
          → Dict.get (pick current (names claim) first) c ≡ (
              if contains c (names message) || contains c (names claim)
              then Dict.get current c
              else none)
      picked c =
          let two = get-pick current (names claim) first c in
          let one = get-pick current (names message) [] c in
          elim (Option-cases (Dict.get current c)) [
            | inl f ↦ ground (arith, one, two)
            | inr (v, f) ↦ ground (arith, one, two)
          ]
