-- ===== src/Api/Access/Unlocked.antt =====
-- Why a visitor gets a session cookie, and what it opens.
use smugbox.Api.Access.{
  album_access, judge, unlock_album, next_session, unix, session_ttl, max_unlock_password_len,
  with_grants, check, limited, denied,
}
use smugbox.Auth.Session.{Codec, Session, granted, add, encode, decode, new_session}
use smugbox.Auth.Session.Cookie.{decode-encode}
use smugbox.Auth.Session.Grants.{granted-add_self}
use smugbox.Auth.Limiter.{RateLimiter, Verdict, allow, denied, allowed}
use smugbox.World.{World}
use smugbox.World.Invariant.{query-found, Tabled}
use smugbox.Db.{Album, Tables, protected}
use smugbox.Db.Albums.{get_album_by_slug}
use smugbox.Exec.{Result, ok, err, lift, not_found}
use smugbox.Exec.Runs.{Runs, Runs-bind, Runs-attempt, Post, Runs_weaken}
use smugbox.Common.{
  Text, ℕ, ◌≡◌, Option, ◌+◌, true, refl, some, ltb, ◌&&◌, ◌==◌, bind, if◌then◌else◌, Bool, leb,
  false, take, none, ◌∙◌, arith, ap, subst, sym, Bool-cases, inl, inr, ◌++◌, ◌∷◌,
}
use smugbox.Slug.{valid_slug}

module _ (codec : Codec) where
  expires-add : (s : Session) (id : Text) (v : ℕ) → (add s id v).expires ≡ s.expires
  unfolding add
  expires-add s id v = refl

  expires-with_grants :
      (old : Option Session) (s : Session) → (with_grants codec old s).expires ≡ s.expires
  expires-with_grants none s = refl
  expires-with_grants (some old) s = refl

  expires-next :
      (now : ℕ) (cookie : Option Text)
      → (next_session codec now cookie).expires ≡ unix now + session_ttl
  unfolding next_session new_session
  expires-next now cookie =
      expires-with_grants (bind cookie (λ value. decode codec (unix now) value))
        (new_session (unix now) session_ttl)

  -- The cookie that an unlock of `a` makes opens that album, if it is protected, exactly while a
  -- day has not passed and the album has the password version of then.
  pub album_access-next :
      (now later : ℕ) (cookie : Option Text) (a b : Album)
      → protected b ≡ true
      → b.id ≡ a.id
      → album_access codec later
          (some (encode codec (add (next_session codec now cookie) a.id a.password_version)))
          b
        ≡ (ltb (unix later) (unix now + session_ttl) && a.password_version == b.password_version)
  unfolding album_access
  album_access-next now later cookie a b p same =
      let s = next_session codec now cookie in
      let t = add s a.id a.password_version in
      let read : decode codec (unix later) (encode codec t)
          ≡ (if leb (unix now + session_ttl) (unix later) then none else some t) =
        decode-encode codec (unix later) t
        ∙ ap (λ x. if leb x (unix later) then none else some t)
            (expires-add s a.id a.password_version ∙ expires-next now cookie) in
      let own : granted t b.id b.password_version ≡ (a.password_version == b.password_version) =
        subst (λ x. granted t x b.password_version ≡ (a.password_version == b.password_version))
          (sym same) (granted-add_self s a.id a.password_version b.password_version) in
      rw (p, read)
        (elim (Bool-cases (leb (unix now + session_ttl) (unix later))) [
          | inl late ↦ rw late (ground arith)
          | inr early ↦ rw (early, own) (ground arith)
        ])

  module _ (check_password : Text → Text → Bool) where
    -- Why an unlock succeeds: without a cookie the album is public, and with one the password is the
    -- protected album's, and the cookie holds its grant.
    unfoldable pub Entitled : ℕ → Text → Option Text → Text → Tables → Option Text → Type 0
    Entitled now slug cookie password t none =
        (a : Album) × (get_album_by_slug slug t ≡ ok a) × (protected a ≡ false)
    Entitled now slug cookie password t (some value) =
        (a : Album) × (get_album_by_slug slug t ≡ ok a)
        × (protected a ≡ true)
        × (check_password a.password_hash (take max_unlock_password_len password) ≡ true)
        × (value ≡ encode codec (add (next_session codec now cookie) a.id a.password_version))

    judge-Entitled :
        (now : ℕ) (slug : Text) (cookie : Option Text) (password : Text) (t : Tables)
        (r : Result Album) (out : Option Text)
        → ((a : Album) → r ≡ ok a → get_album_by_slug slug t ≡ ok a)
        → judge codec check_password now cookie (take max_unlock_password_len password) r ≡ ok out
        → Entitled now slug cookie password t out
    unfolding judge Entitled
    judge-Entitled now slug cookie password t (ok a) none f e = (a, f a refl, ground arith)
    judge-Entitled now slug cookie password t (ok a) (some v) f e =
        (a, f a refl, ground arith, ground arith, ground arith)
    judge-Entitled now slug cookie password t (err not_found) out f e = absurd (cc)
    judge-Entitled now slug cookie password t (err x) out f e = absurd (ground arith)

    -- What the lookup of the album knows, in the tables `t`.
    abbrev Looked : Text → Tables → Result Album → World → Type 0
    Looked slug t r w =
        Post (λ a (v : World). (v.tables ≡ t) × (get_album_by_slug slug v.tables ≡ ok a))
          (λ (v : World). v.tables ≡ t) r w

    judged :
        (now : ℕ) (slug : Text) (cookie : Option Text) (password : Text) (t : Tables)
        (r : Result Album)
        → Runs
            (Looked slug t r)
            (lift (judge codec check_password now cookie (take max_unlock_password_len password) r))
            (λ out w. Entitled now slug cookie password t out)
            (λ w. Unit {0})
    judged now slug cookie password t r = record {
      run = λ w h.
          outcome (judge codec check_password now cookie (take max_unlock_password_len password) r)
            refl w (looked r w h);
    }
      where
        looked :
            (r : Result Album) (w : World)
            → Looked slug t r w
            → (a : Album) → r ≡ ok a
            → get_album_by_slug slug t ≡ ok a
        looked (ok b) w (s, e) a q = subst (λ x. get_album_by_slug slug x ≡ ok a) s (e ∙ q)
        looked (err x) w h a q = absurd (cc)

        outcome :
            (o : Result (Option Text))
            → judge codec check_password now cookie (take max_unlock_password_len password) r ≡ o
            → (w : World) → ((a : Album) → r ≡ ok a → get_album_by_slug slug t ≡ ok a)
            → Post (λ out w. Entitled now slug cookie password t out) (λ w. Unit {0}) o w
        outcome (ok out) e w f = judge-Entitled now slug cookie password t r out f e
        outcome (err x) e w f = tt

    check-Entitled :
        (now : ℕ) (slug : Text) (cookie : Option Text) (body : Result Text) (t : Tables)
        → Runs
            (Tabled (λ x. x ≡ t))
            (check codec check_password now slug cookie body)
            (λ out w.
              (password : Text) × (body ≡ ok password) × Entitled now slug cookie password t out)
            (λ w. Unit {0})
    check-Entitled now slug cookie (err e) t = record { run = λ w h. tt }
    check-Entitled now slug cookie (ok password) t =
        Runs_weaken (λ out w h. (password, refl, h)) (λ w h. h)
          (Runs-bind (Looked slug t) _ _
            (Runs-attempt _ (query-found (λ x. x ≡ t) (get_album_by_slug slug)))
            λ r. judged now slug cookie password t r)

    limited-Entitled :
        (verdict : Verdict) (now : ℕ) (slug : Text) (cookie : Option Text) (body : Result Text)
        (w : World) (out : Option Text)
        → (limited codec check_password verdict
            (check codec check_password now slug cookie body)
            w).0
          ≡ ok out
        → (password : Text) × (body ≡ ok password) × Entitled now slug cookie password w.tables out
    limited-Entitled (denied wait) now slug cookie body w out e = absurd (cc)
    limited-Entitled allowed now slug cookie body w out e =
        subst
          (λ (o : Result (Option Text)).
            Post
              (λ out v.
                (password : Text) × (body ≡ ok password)
                × Entitled now slug cookie password w.tables out)
              (λ v. Unit {0}) o (check codec check_password now slug cookie body w).1)
          e ((check-Entitled now slug cookie body w.tables).run w refl)

    -- Whoever unlocks an album without an error was entitled to it by the tables at that moment,
    -- whatever the limiter holds and whatever fails: the album is public, or the password is its
    -- password and the cookie adds its grant to the visitor's session.
    pub unlock_album-Entitled :
        (now : ℕ) (ip slug : Text) (cookie : Option Text) (body : Result Text) (l : RateLimiter)
        (w : World) (out : Option Text)
        → ((unlock_album codec check_password now ip slug cookie body l).1 w).0 ≡ ok out
        → (password : Text) × (body ≡ ok password) × Entitled now slug cookie password w.tables out
    unfolding unlock_album
    unlock_album-Entitled now ip slug cookie body l w out e = elim (Bool-cases (valid_slug slug)) [
      | inl valid ↦
          limited-Entitled (allow now (ip ++ (b'|' ∷ slug)) l).1 now slug cookie body w out
            (ground (arith, valid, e))
      | inr invalid ↦ absurd (ground (arith, invalid, e))
    ]
