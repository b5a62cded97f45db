-- ===== src/Session/Manager/Sessions/Calls.antt =====
-- What `create_session` stores, and what a session identifier then finds.
use mathlib.Core.Path.{subst}
use idpy_oidc.Base.{
  ℕ, suc, ◌≡◌, refl, sym, ap, ◌↔◌, ◌⊎◌, inl, inr, false, Option, none, some, none-some, some_inj,
  List, [], ◌∷◌, String, ok, In, In-append_either, In-append_left, In-append_right,
}
use idpy_oidc.Dict
use idpy_oidc.Session.Token.{revoke, init_item}
use idpy_oidc.Session.Grant.{Grant}
use idpy_oidc.Session.BranchId.{encrypted_branch_id, decrypt_branch_id}
use idpy_oidc.Session.BranchId.Packing.{IsClosed}
use idpy_oidc.Session.BranchId.Identifier.{Decrypts, decrypt_branch_id-encrypted_branch_id}
use idpy_oidc.Session.Database.{leaf, Db, get}
use idpy_oidc.Session.Database.Key.{branch_key}
use idpy_oidc.Session.Database.Returns.{IsInner}
use idpy_oidc.Session.Manager.{
  Manager, SessionArgs, SessionRequest, create_session, subject, make_path, init_grant, grant_args,
  Audience, one, several, audience_of, or_empty, scopes_or, resources_for,
}
use idpy_oidc.Session.Manager.Lookup.{get_grant, get_node_info, level_of, index_from, node_at, take}
use idpy_oidc.Session.Manager.Revoke.{revoke_grant, revoke_node, revoke_tree}
use idpy_oidc.Session.Manager.Create.{IsStandard, Stores, add_grant_returns}
use idpy_oidc.Session.Manager.Sessions.Stored.{ArePlain}

standard_path :
    (m : Manager) (u c : String) → IsStandard m → make_path m.node_type u c ≡ ok (u ∷ c ∷ [])
unfolding make_path
standard_path m u c st = ap (λ ts. make_path ts u c) st.0

-- What `create_session` stores, where no grant is in its way.
pub create_session-Stores :
    (m : Manager) (now : ℕ) (fresh rnd : String) (a : SessionArgs) (r : SessionRequest) (db : Db)
    (f : String → String → String)
    → IsStandard m
    → Dict.get m.sub_func a.sub_type ≡ some f
    → IsInner (Dict.get db (branch_key (a.user_id ∷ [])))
    → IsInner (Dict.get db (branch_key (a.user_id ∷ a.client_id ∷ [])))
    → (db' : Db) × (create_session m now fresh rnd a r db
        ≡ ok (encrypted_branch_id m.crypt rnd (a.user_id ∷ a.client_id ∷ fresh ∷ []), db'))
      × Stores db db'
          (a.user_id ∷ a.client_id ∷ fresh ∷ [])
          (init_grant m now fresh (grant_args a r (f a.user_id r.sector_identifier_uri)))
unfolding create_session
create_session-Stores m now fresh rnd a r db f st sub iu ic =
    let (db', e, s) =
      add_grant_returns m now fresh rnd a.user_id a.client_id
        (grant_args a r (f a.user_id r.sector_identifier_uri)) db st iu ic in
    (db', rw (standard_path m a.user_id a.client_id st, subject, sub) e, s)

standard_level : (m : Manager) → IsStandard m → level_of m "grant" ≡ ok 2
unfolding level_of
standard_level m st = ap (λ ts. index_from 0 ts "grant") st.0

module _ (depth : ℕ) (m : Manager) (rnd u c g : String) (v : Grant) (db : Db) (st : IsStandard m)
    (dec : Decrypts m.crypt) (p : ArePlain u c g) (closed : IsClosed (branch_key (u ∷ c ∷ g ∷ [])))
    (there : Dict.get db (branch_key (u ∷ c ∷ g ∷ [])) ≡ some (leaf v)) where
  abbrev pub sid : String
  sid = encrypted_branch_id m.crypt rnd (u ∷ c ∷ g ∷ [])

  reads : decrypt_branch_id m.crypt sid ≡ ok (u ∷ c ∷ g ∷ [])
  reads =
      decrypt_branch_id-encrypted_branch_id m.crypt rnd u (c ∷ g ∷ []) dec p.0 (p.1, (p.2, tt))
        closed

  -- The identifier of a session finds its grant.
  pub get_grant-sid : get_grant m sid db ≡ ok v
  unfolding get_grant get_node_info node_at take get
  get_grant-sid = rw (reads, standard_level m st, there) refl

  pub revoke_grant-sid :
      revoke_grant (suc depth) m sid db
      ≡ ok (Dict.put db (branch_key (u ∷ c ∷ g ∷ [])) (leaf (record v { item = revoke v.item })))
  unfolding revoke_grant revoke_tree revoke_node take
  revoke_grant-sid = rw (get_grant-sid, reads, standard_level m st, there) refl

-- The first list that is given; no list is an empty one.
abbrev pub first_given : Option (List String) → Option (List String) → List String
first_given (some xs) o = xs
first_given none (some ys) = ys
first_given none none = []

abbrev pub IsAsked : String → Option (List String) → Type 0
IsAsked x o = (xs : List String) × (o ≡ some xs) × In x xs

abbrev pub IsAudience : String → Option Audience → Type 0
IsAudience x o = (o ≡ some (one x)) ⊎ ((xs : List String) × (o ≡ some (several xs)) × In x xs)

-- A grant that nothing was done with yet, with what a session was asked to be made with; `sub` is what
-- the minter of subject identifiers made.
pub record IsMadeFor (a : SessionArgs) (r : SessionRequest) (sub : String) (v : Grant)
    : Type 0 where
  pub scope : v.scope ≡ first_given a.scopes r.scope
  pub claims : v.claims ≡ r.claims
  pub request : v.authorization_request ≡ some r.kept
  pub authn_info : v.authn_info ≡ a.authn_info
  pub subject : v.sub ≡ sub
  pub resources : (x : String) → In x v.resources ↔ (IsAsked x r.resource ⊎ IsAudience x r.audience)
  pub unused : v.used ≡ 0
  pub live : v.revoked ≡ false
  pub without_tokens : v.issued_token ≡ []

or_empty_iff : (x : String) (o : Option (List String)) → In x (or_empty o) ↔ IsAsked x o
or_empty_iff x none = (λ i. absurd i, λ (xs, e, i). absurd (none-some e))
or_empty_iff x (some ys) =
    (λ i. (ys, refl, i), λ (xs, e, i). subst (λ l. In x l) (sym (some_inj e)) i)

one_inj : {s t : String} → one s ≡ one t → s ≡ t
one_inj e = cc

several_inj : {s t : List String} → several s ≡ several t → s ≡ t
several_inj e = cc

audience_iff : (x : String) (o : Option Audience) → In x (audience_of o) ↔ IsAudience x o
audience_iff x none =
    (λ i. absurd i, elim [ inl e ↦ absurd (none-some e) | inr (xs, e, i) ↦ absurd (none-some e) ])
audience_iff x (some (one y)) = (
  elim [ inl e ↦ inl (ap (λ z. some (one z)) (sym e)) | inr i ↦ absurd i ],
  elim [ inl e ↦ inl (sym (one_inj (some_inj e))) | inr (xs, e, i) ↦ cc ],
)
audience_iff x (some (several ys)) = (
  λ i. inr (ys, refl, i),
  elim [ inl e ↦ cc | inr (xs, e, i) ↦ subst (λ l. In x l) (sym (several_inj (some_inj e))) i ],
)

resources_iff :
    (x : String) (r : SessionRequest)
    → In x (resources_for r) ↔ (IsAsked x r.resource ⊎ IsAudience x r.audience)
unfolding resources_for
resources_iff x r = (
  λ i. elim (In-append_either x (or_empty r.resource) (audience_of r.audience) i) [
    | inl j ↦ inl ((or_empty_iff x r.resource).0 j)
    | inr j ↦ inr ((audience_iff x r.audience).0 j)
  ],
  elim [
    | inl q ↦
        In-append_left x (or_empty r.resource) (audience_of r.audience)
          ((or_empty_iff x r.resource).1 q)
    | inr q ↦
        In-append_right x (or_empty r.resource) (audience_of r.audience)
          ((audience_iff x r.audience).1 q)
  ],
)

scope_lem : (o q : Option (List String)) → or_empty (scopes_or o q) ≡ first_given o q
scope_lem (some xs) q = refl
scope_lem none (some ys) = refl
scope_lem none none = refl

init_grant-IsMadeFor :
    (m : Manager) (now : ℕ) (fresh sub : String) (a : SessionArgs) (r : SessionRequest)
    → IsMadeFor a r sub (init_grant m now fresh (grant_args a r sub))
unfolding init_grant grant_args init_item
init_grant-IsMadeFor m now fresh sub a r = record {
  scope = scope_lem a.scopes r.scope;
  claims = refl;
  request = refl;
  authn_info = refl;
  subject = refl;
  resources = λ x. resources_iff x r;
  unused = refl;
  live = refl;
  without_tokens = refl;
}

-- A session that `create_session` makes is found by the identifier that it returns: `get_grant` then gives a
-- grant without tokens, unused and not revoked, with the scopes of the call, else those of the request, else
-- none, the request's claims, the request itself, the authentication information of the call, the resources
-- that the request names as such or as its audience, and the subject that the minter for the type makes. The
-- manager has the standard types and classes of node, and a minter for the type; its decrypter reads what its
-- encrypter writes; the names of the user, the client and the grant have no two semicolons side by side, and
-- their key has no white space at its end; and the database has no grant where the user or the client goes.
pub get_grant-create_session :
    (m : Manager) (now : ℕ) (fresh rnd : String) (a : SessionArgs) (r : SessionRequest) (db : Db)
    (f : String → String → String)
    → IsStandard m
    → Decrypts m.crypt
    → ArePlain a.user_id a.client_id fresh
    → IsClosed (branch_key (a.user_id ∷ a.client_id ∷ fresh ∷ []))
    → Dict.get m.sub_func a.sub_type ≡ some f
    → IsInner (Dict.get db (branch_key (a.user_id ∷ [])))
    → IsInner (Dict.get db (branch_key (a.user_id ∷ a.client_id ∷ [])))
    → (sid : String) × (db' : Db) × (v : Grant) × (create_session m now fresh rnd a r db
        ≡ ok (sid, db'))
      × (get_grant m sid db' ≡ ok v)
      × IsMadeFor a r (f a.user_id r.sector_identifier_uri) v
get_grant-create_session m now fresh rnd a r db f st dec p closed sub iu ic =
    let (db', e, stores) = create_session-Stores m now fresh rnd a r db f st sub iu ic in
    (
      encrypted_branch_id m.crypt rnd (a.user_id ∷ a.client_id ∷ fresh ∷ []),
      db',
      init_grant m now fresh (grant_args a r (f a.user_id r.sector_identifier_uri)),
      e,
      get_grant-sid 0 m rnd a.user_id a.client_id fresh _ db' st dec p closed stores.0,
      init_grant-IsMadeFor m now fresh (f a.user_id r.sector_identifier_uri) a r,
    )
