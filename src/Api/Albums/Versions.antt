-- ===== src/Api/Albums/Versions.antt =====
-- What a new password does to the version that sessions are tied to: changePassword of
-- backend/internal/api/publish_albums.go and album set-password of backend/cmd/smugbox/admin.go.
use smugbox.Api.Albums.{Passwords, change_password}
use smugbox.Admin.{with_hash}
use smugbox.Db.{Album}
use smugbox.Exec.{ok}
use smugbox.Common.{
  Option, Text, ℕ, ◌≡◌, ◌⊎◌, ◌+◌, ◌≤◌, inl, inr, arith, some, none, refl, subst, sym, ◌∙◌,
}

module _ (passwords : Passwords) where
  -- A change of the password that is accepted either leaves the album as it was, or keeps its id
  -- and counts its version up by one.
  pub change_password-version :
      (pw : Option Text) (a b : Album)
      → change_password passwords pw a ≡ ok b
      → (b ≡ a) ⊎ ((b.id ≡ a.id) × (b.password_version ≡ a.password_version + 1))
  unfolding change_password
  change_password-version none a b e = inl (ground arith)
  change_password-version (some pw) a b e = ground (arith, passwords.hash_password pw)

  -- What may become of an album's row: edits that leave its password, and new passwords.
  pub data Follows (a : Album) : Album → Type 0 where
    itself : Follows a a
    then_changed :
        {b : Album} (pw : Option Text) (c : Album)
        → Follows a b
        → change_password passwords pw b ≡ ok c
        → Follows a c
    then_reset :
        {b : Album} (now : ℕ) (hash : Text)
        → Follows a b
        → Follows a (with_hash passwords now hash b)
    then_edited :
        {b : Album} (c : Album)
        → Follows a b
        → c.id ≡ b.id
        → c.password_version ≡ b.password_version
        → Follows a c

  -- The version only grows.
  pub Follows-version :
      (a : Album) {b : Album}
      → Follows a b
      → (b.id ≡ a.id) × (a.password_version ≤ b.password_version)
  Follows-version a itself = (refl, omega arith)
  Follows-version a (then_changed {b} pw c f e) =
      let (id, old) = Follows-version a f in
      elim (change_password-version pw b c e) [
        | inl same ↦
            subst (λ x. (x.id ≡ a.id) × (a.password_version ≤ x.password_version)) (sym same)
              (id, old)
        | inr (kept, version) ↦ (kept ∙ id, omega (arith, version, old))
      ]
  Follows-version a (then_reset now hash f) =
      let (id, old) = Follows-version a f in (id, omega (arith, old))
  Follows-version a (then_edited c f kept version) =
      let (id, old) = Follows-version a f in (kept ∙ id, omega (arith, version, old))
