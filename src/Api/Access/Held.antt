-- ===== src/Api/Access/Held.antt =====
-- The cookies of a visitor over the life of an album: any number of unlocks, of this album and of others,
-- before and after any number of new passwords (unlockAlbum of backend/internal/api/unlock.go,
-- changePassword of backend/internal/api/publish_albums.go, album set-password of
-- backend/cmd/smugbox/admin.go).
use smugbox.Api.Access.{
  album_access, judge, next_session, unix, session_ttl, with_grants, session_grants,
}
use smugbox.Api.Albums.{Passwords, change_password}
use smugbox.Api.Albums.Versions.{change_password-version, Follows, Follows-version}
use smugbox.Admin.{with_hash}
use smugbox.Auth.Session.{Codec, Session, granted, add, encode, decode, new_session}
use smugbox.Auth.Session.Cookie.{decode-encode}
use smugbox.Auth.Session.Grants.{granted-add_self, granted-add_other}
use smugbox.Db.{Album, protected}
use smugbox.Exec.{ok}
use smugbox.Common.{
  Text, ℕ, ◌≡◌, ◌≢◌, Option, true, refl, some, ◌==◌, bind, if◌then◌else◌, Bool, leb, false, none,
  ◌∙◌, arith, subst, sym, Bool-cases, inl, inr, ◌≤◌, ◌<◌,
}

module _ (codec : Codec) (passwords : Passwords) (check_password : Text → Text → Bool) where
  -- `Held a c`: a visitor may have the cookie `c` when the row of the album is `a`. It is what unlocks
  -- answered to cookies held before; between them the row may be edited and its password changed.
  pub data Held : Album → Option Text → Type 0 where
    nothing : (a : Album) → Held a none
    unlocked :
        {a : Album} {c : Option Text} (now : ℕ) (password value : Text)
        → Held a c
        → judge codec check_password now c password (ok a) ≡ ok (some value)
        → Held a (some value)
    unlocked_other :
        {a : Album} {c : Option Text} (b : Album) (now : ℕ) (password value : Text)
        → Held a c
        → b.id ≢ a.id
        → judge codec check_password now c password (ok b) ≡ ok (some value)
        → Held a (some value)
    changed :
        {a : Album} {c : Option Text} (pw : Option Text) (b : Album)
        → Held a c
        → change_password passwords pw a ≡ ok b
        → Held b c
    reset :
        {a : Album} {c : Option Text} (now : ℕ) (hash : Text)
        → Held a c
        → Held (with_hash passwords now hash a) c
    edited :
        {a : Album} {c : Option Text} (b : Album)
        → Held a c
        → b.id ≡ a.id
        → b.password_version ≡ a.password_version
        → Held b c

  -- No grant of the session is newer than the album.
  abbrev IsPast : Album → Session → Type 0
  IsPast a s = (w : ℕ) → granted s a.id w ≡ true → w ≤ a.password_version

  abbrev AllPast : Album → Option Text → Type 0
  AllPast a c =
      (now : ℕ) (s : Session) → bind c (λ value. decode codec now value) ≡ some s → IsPast a s

  IsPast-grown :
      (a b : Album) (s : Session)
      → b.id ≡ a.id
      → a.password_version ≤ b.password_version
      → IsPast a s
      → IsPast b s
  IsPast-grown a b s same grown h w g =
      let old = h w (subst (λ x. granted s x w ≡ true) same g) in omega (arith, old, grown)

  IsPast-with_grants :
      (a : Album) (now : ℕ) (o : Option Session)
      → ((s : Session) → o ≡ some s → IsPast a s)
      → IsPast a (with_grants codec o (new_session now session_ttl))
  unfolding granted new_session
  IsPast-with_grants a now none h w g = absurd (cc)
  IsPast-with_grants a now (some old) h w g = h old refl w g

  IsPast-next_session :
      (a : Album) (c : Option Text) (now : ℕ) → AllPast a c → IsPast a (next_session codec now c)
  unfolding next_session
  IsPast-next_session a c now h =
      IsPast-with_grants a (unix now) (bind c (λ value. decode codec (unix now) value))
        (h (unix now))

  AllPast-encode : (a : Album) (t : Session) → IsPast a t → AllPast a (some (encode codec t))
  AllPast-encode a t h now s e =
      subst (IsPast a) (one (leb t.expires now) (sym (decode-encode codec now t) ∙ e)) h
    where
      one : (b : Bool) → (if b then none else some t) ≡ some s → t ≡ s
      one true e = absurd (cc)
      one false e = ground (arith, e)

  IsPast-add_self : (a : Album) (s : Session) → IsPast a (add s a.id a.password_version)
  IsPast-add_self a s w g =
      let same : (a.password_version == w) ≡ true =
        sym (granted-add_self s a.id a.password_version w) ∙ g in
      ground (arith, same)

  judge-made :
      (now : ℕ) (c : Option Text) (password value : Text) (a : Album)
      → judge codec check_password now c password (ok a) ≡ ok (some value)
      → value ≡ encode codec (add (next_session codec now c) a.id a.password_version)
  unfolding judge
  judge-made now c password value a e = ground (arith, e)

  Held-AllPast : {a : Album} {c : Option Text} → Held a c → AllPast a c
  Held-AllPast (nothing a) = λ now s e. absurd (cc)
  Held-AllPast {a} (unlocked {c} now password value h e) =
      subst (λ x. AllPast a (some x)) (sym (judge-made now c password value a e))
        (AllPast-encode a _ (IsPast-add_self a (next_session codec now c)))
  Held-AllPast {a} (unlocked_other {c} b now password value h other e) =
      subst (λ x. AllPast a (some x)) (sym (judge-made now c password value b e))
        (AllPast-encode a _ λ w g.
          IsPast-next_session a c now (Held-AllPast h) w (
            (granted-add_other (next_session codec now c) b.id a.id b.password_version w other).0
              g))
  Held-AllPast (changed {a} pw b h e) = λ now s q.
      elim (change_password-version passwords pw a b e) [
        | inl same ↦ subst (λ x. IsPast x s) (sym same) (Held-AllPast h now s q)
        | inr (id, version) ↦
            IsPast-grown a b s id (omega (arith, version)) (Held-AllPast h now s q)
      ]
  Held-AllPast (reset {a} now hash h) = λ later s q.
      IsPast-grown a (with_hash passwords now hash a) s refl (omega arith)
        (Held-AllPast h later s q)
  Held-AllPast (edited {a} b h id version) =
      λ now s q. IsPast-grown a b s id (omega (arith, version)) (Held-AllPast h now s q)

  -- A version past the one that a cookie was held at is a version that it does not open.
  Held-closed :
      {a : Album} {c : Option Text} (b : Album) (later : ℕ)
      → Held a c
      → b.id ≡ a.id
      → a.password_version < b.password_version
      → protected b ≡ true
      → album_access codec later c b ≡ false
  unfolding album_access
  Held-closed {a} {c = none} b later h same grown p = rw p refl
  Held-closed {a} {c = some value} b later h same grown p =
      rw p (closed (decode codec (unix later) value) (Held-AllPast h (unix later)))
    where
      closed :
          (o : Option Session)
          → ((s : Session) → o ≡ some s → IsPast a s)
          → session_grants codec o b ≡ false
      closed none f = refl
      closed (some s) f = elim (Bool-cases (granted s b.id b.password_version)) [
        | inr shut ↦ shut
        | inl opens ↦
            let old =
              f s refl b.password_version
                (subst (λ x. granted s x b.password_version ≡ true) same opens) in
            absurd (omega (arith, old, grown))
      ]

  -- A row with a newer version, and all that become of it.
  pub Held-closed_after :
      {a : Album} {c : Option Text} (b : Album) {e : Album} (later : ℕ)
      → Held a c
      → b.id ≡ a.id
      → a.password_version < b.password_version
      → Follows passwords b e
      → protected e ≡ true
      → album_access codec later c e ≡ false
  Held-closed_after b {e} later held id newer f p =
      let (kept, grown) = Follows-version passwords b f in
      Held-closed e later held (kept ∙ id) (omega (arith, newer, grown)) p

  -- Once the API has changed the password of an album, no cookie that a visitor held before opens the
  -- album while it is protected, whatever unlocks, of this album at any version and of other albums,
  -- went into the cookie, and whatever edits and new passwords the album gets afterwards.
  pub album_access-change_password :
      (later : ℕ) (c : Option Text) (pw : Option Text) (a b e : Album)
      → Held a c
      → change_password passwords pw a ≡ ok b
      → b ≢ a
      → Follows passwords b e
      → protected e ≡ true
      → album_access codec later c e ≡ false
  album_access-change_password later c pw a b e held q other f p =
      elim (change_password-version passwords pw a b q) [
        | inl same ↦ absurd (other same)
        | inr (id, version) ↦ Held-closed_after b later held id (omega (arith, version)) f p
      ]
