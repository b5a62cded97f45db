-- ===== src/Session/BranchId/Identifier.antt =====
-- The identifier of a branch, there and back.
use idpy_oidc.Base.{◌≡◌, refl, some, List, [], ◌∷◌, String, All, ok}
use idpy_oidc.Session.BranchId.{Crypt, encrypted_branch_id, decrypt_branch_id, lv_pack}
use idpy_oidc.Session.BranchId.Packing.{IsClosed, lv_unpack-lv_pack}
use idpy_oidc.Session.Database.Key.{branch_key}
use idpy_oidc.Session.Database.Key.Unpack.{IsPlain, unpack-branch_key}

-- What an encrypter promises: a text that it made is read back.
abbrev pub Decrypts : Crypt → Type 0
Decrypts c = (s : String) → c.decrypt (c.encrypt s) ≡ some s

-- Where the encrypter reads back what it made, a branch of plain names whose key does not end in
-- white space is read back from its encrypted identifier.
pub decrypt_branch_id-encrypted_branch_id :
    (c : Crypt) (rnd : String) (x : String) (xs : List String)
    → Decrypts c
    → IsPlain x
    → All IsPlain xs
    → IsClosed (branch_key (x ∷ xs))
    → decrypt_branch_id c (encrypted_branch_id c rnd (x ∷ xs)) ≡ ok (x ∷ xs)
unfolding decrypt_branch_id encrypted_branch_id
decrypt_branch_id-encrypted_branch_id c rnd x xs dec h hs closed =
    rw
      (
        dec (lv_pack (rnd ∷ branch_key (x ∷ xs) ∷ [])),
        lv_unpack-lv_pack (rnd ∷ branch_key (x ∷ xs) ∷ []) closed,
        unpack-branch_key x xs h hs,
      )
      refl
