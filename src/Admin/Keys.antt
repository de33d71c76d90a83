-- ===== src/Admin/Keys.antt =====
-- An API key from its creation to its end.
use smugbox.Admin.{create_key, revoke_key, new_key, drawn, or_none}
use smugbox.Api.Keys.{scheme, require_api_key}
use smugbox.Api.Keys.Known.{
  fits, presented, bears_key, is_known, require_api_key_answer, fails_first,
}
use smugbox.Auth.ApiKey.{api_key_prefix, api_key_prefix_len, generate_api_key, api_key_bytes}
use smugbox.World.{World, execute}
use smugbox.Exec.Runs.{
  Runs, Runs-bind, Runs-lift, Runs-return, Runs_weaken, Post, Runs-fail, Runs-attempt,
}
use smugbox.World.Invariant.{execute-Runs}
use smugbox.Exec.{Result, ok, err, lift, client, not_found}
use smugbox.Db.{ApiKey, Tables}
use smugbox.Db.ApiKeys.{create_api_key, revoke_api_key, in_force}
use smugbox.Common.{
  ℕ, Text, List, ◌≡◌, ◌≤◌, ◌*◌, true, text_eq, text_eq_refl, any, length, ◌++◌, trim_space, arith,
  refl, ◌∷◌, [], any-append, ◌∙◌, take, some, false, Bool-cases, subst, ltb, inl, inr, length-take,
  map, ◌&&◌, if◌then◌else◌, not, sym,
}
use smugbox.Exec.Runs.{Post, Runs-bind, Runs-lift, Runs_weaken, Runs-return}
use smugbox.World.Invariant.{execute-Runs}

created :
    (sha256 : Text → Text) (id label : Text) (now : ℕ) (plain : Text) (t t' : Tables)
    → 2 * api_key_prefix_len ≤ length plain
    → create_api_key (new_key sha256 id label now plain) t ≡ ok t'
    → any (fits sha256 plain) t'.api_keys ≡ true
unfolding create_api_key api_key_prefix
created sha256 id label now plain t t' long e =
    let after : t' ≡ record t { api_keys = t.api_keys ++ new_key sha256 id label now plain ∷ [] } =
      ground arith in
    rw after (
      any-append (fits sha256 plain) t.api_keys (new_key sha256 id label now plain ∷ [])
      ∙ ground (arith, text_eq_refl (take api_key_prefix_len plain), text_eq_refl (sha256 plain)))

opens :
    (sha256 : Text → Text) (plain : Text) (t : Tables)
    → 2 * api_key_prefix_len ≤ length plain
    → trim_space plain ≡ plain
    → any (fits sha256 plain) t.api_keys ≡ true
    → (bears_key (scheme ++ plain) ≡ true) × (is_known sha256 (scheme ++ plain) t ≡ true)
opens sha256 plain t long spaceless row = rw spaceless (ground arith, row)

module _ (sha256 base64 : Text → Text)
    -- What base64 makes of a key's bytes: 43 characters, and no white space.
    (printable : (bytes : Text)
      → length bytes ≡ api_key_bytes
      → (length (base64 bytes) ≡ 43) × (trim_space (base64 bytes) ≡ base64 bytes)) where
  drawn_key :
      (random : List ℕ) (plain : Text)
      → drawn (generate_api_key base64 random) ≡ ok plain
      → (length plain ≡ 43) × (trim_space plain ≡ plain)
  unfolding generate_api_key
  drawn_key random plain e = elim (Bool-cases (ltb (length random) api_key_bytes)) [
    | inl short ↦ absurd (ground (arith, short))
    | inr long ↦
        let same : base64 (take api_key_bytes random) ≡ plain = ground (arith, long) in
        subst (λ p. (length p ≡ 43) × (trim_space p ≡ p)) same
          (printable (take api_key_bytes random)
            (length-take api_key_bytes random ∙ ground (arith, long)))
  ]

  create_key-Runs :
      (id label : Text) (now : ℕ) (random : List ℕ)
      → Runs
          (λ (w : World). Unit {0})
          (create_key sha256 base64 id label now random)
          (λ plain w.
            (2 * api_key_prefix_len ≤ length plain)
            × (trim_space plain ≡ plain)
            × (any (fits sha256 plain) w.tables.api_keys ≡ true))
          (λ w. Unit {0})
  unfolding create_key
  create_key-Runs id label now random =
      Runs-bind (λ plain w. Unit {0} × (drawn (generate_api_key base64 random) ≡ ok plain))
        (lift (drawn (generate_api_key base64 random))) _ (Runs-lift _ (λ w h. tt))
        λ plain. record {
          run = λ w h.
              let d = drawn_key random plain h.1 in
              let long : 2 * api_key_prefix_len ≤ length plain = omega (arith, d.0) in
              (Runs-bind (λ u w. any (fits sha256 plain) w.tables.api_keys ≡ true)
                  (execute (create_api_key (new_key sha256 id label now plain))) _
                  (Runs_weaken (λ u w h. h) (λ w h. tt)
                    (execute-Runs (λ w. Unit {0})
                      (λ w. any (fits sha256 plain) w.tables.api_keys ≡ true)
                      (create_api_key (new_key sha256 id label now plain)) (λ w fs h. tt)
                      (λ w t h e. created sha256 id label now plain w.tables t long e)))
                  λ u. Runs-return plain (λ w h. (long, d.1, h))).run
                w tt;
        }

  returned :
      (r : Result Text) (plain : Text) (w : World)
      → r ≡ ok plain
      → Post
          (λ plain w.
            (2 * api_key_prefix_len ≤ length plain)
            × (trim_space plain ≡ plain)
            × (any (fits sha256 plain) w.tables.api_keys ≡ true))
          (λ w. Unit {0})
          r
          w
      → (2 * api_key_prefix_len ≤ length plain)
        × (trim_space plain ≡ plain)
        × (any (fits sha256 plain) w.tables.api_keys ≡ true)
  returned r plain w e h =
      subst
        (λ r.
          Post
            (λ plain w.
              (2 * api_key_prefix_len ≤ length plain)
              × (trim_space plain ≡ plain)
              × (any (fits sha256 plain) w.tables.api_keys ≡ true))
            (λ w. Unit {0}) r w)
        e h

  -- A key that the admin command prints opens the publish API as long as its row is as it was made,
  -- unless the lookup fails.
  pub create_key-require_api_key :
      (id label : Text) (now later : ℕ) (random : List ℕ) (plain : Text) (w : World)
      → (create_key sha256 base64 id label now random w).0 ≡ ok plain
      → fails_first (create_key sha256 base64 id label now random w).1 ≡ false
      → (require_api_key sha256 later
          (scheme ++ plain)
          (create_key sha256 base64 id label now random w).1).0
        ≡ ok tt
  create_key-require_api_key id label now later random plain w e calm =
      let v = (create_key sha256 base64 id label now random w).1 in
      let (long, spaceless, row) =
        returned _ plain v e ((create_key-Runs id label now random).run w tt) in
      let (bears, known) = opens sha256 plain v.tables long spaceless row in
      require_api_key_answer sha256 later (scheme ++ plain) v ∙ rw (bears, calm, known) refl

module _ (sha256 : Text → Text) where
  still_fits :
      (plain id : Text) (now : ℕ) (ks : List ApiKey)
      → any
          (fits sha256 plain)
          (map (λ k. if in_force id k then record k { revoked_at = some now } else k) ks)
        ≡ true
      → any (λ k. fits sha256 plain k && not (text_eq k.id id)) ks ≡ true
  still_fits plain id now [] h = absurd (cc)
  still_fits plain id now (k ∷ ks) h = ground (arith, h, still_fits plain id now ks)

  revoke_key-Runs :
      (plain id : Text) (now : ℕ) (t : Tables)
      → Runs
          (λ w. w.tables ≡ t)
          (revoke_key id now)
          (λ u w.
            any (fits sha256 plain) w.tables.api_keys ≡ true
            → any (λ k. fits sha256 plain k && not (text_eq k.id id)) t.api_keys ≡ true)
          (λ w. Unit {0})
  unfolding revoke_key revoke_api_key
  revoke_key-Runs plain id now t =
      Runs-bind (λ r w. Post (λ u w. Left w) (λ w. Unit {0}) r w) _ _
        (Runs-attempt _ (
          Runs_weaken (λ u w h. h) (λ w h. tt)
            (execute-Runs (λ w. w.tables ≡ t) Left (revoke_api_key id now) (λ w fs h. h)
              (λ w t' h e f.
                let after : record w.tables {
                  api_keys =
                      map (λ k. if in_force id k then record k { revoked_at = some now } else k)
                        w.tables.api_keys;
                }
                    ≡ t' =
                  ground (arith, e) in
                subst
                  (λ t. any (λ k. fits sha256 plain k && not (text_eq k.id id)) t.api_keys ≡ true) h
                  (still_fits plain id now w.tables.api_keys (
                    subst (λ (t : Tables). any (fits sha256 plain) t.api_keys ≡ true) (sym after)
                      f))))))
        λ r. told r
    where
      Left : World → Type 0
      Left w =
          any (fits sha256 plain) w.tables.api_keys ≡ true
          → any (λ k. fits sha256 plain k && not (text_eq k.id id)) t.api_keys ≡ true

      told :
          (r : Result (Unit {0}))
          → Runs
              (λ w. Post (λ u w. Left w) (λ w. Unit {0}) r w)
              (or_none "no active key with that id" r)
              (λ u w. Left w)
              (λ w. Unit {0})
      told (ok u) = Runs-return tt (λ w h. h)
      told (err not_found) = Runs-fail (client "no active key with that id") (λ w h. tt)
      told (err e) = Runs-fail e (λ w h. tt)

  -- Once the key with this id has been revoked, a request is let through only by another row.
  pub revoke_key-require_api_key :
      (id header : Text) (now later : ℕ) (w : World)
      → (revoke_key id now w).0 ≡ ok tt
      → (require_api_key sha256 later header (revoke_key id now w).1).0 ≡ ok tt
      → any (λ k. fits sha256 (presented header) k && not (text_eq k.id id)) w.tables.api_keys
        ≡ true
  revoke_key-require_api_key id header now later w e h =
      let v = (revoke_key id now w).1 in
      let answer = require_api_key_answer sha256 later header v in
      let known : is_known sha256 header v.tables ≡ true = ground (arith, h, answer) in
      got _ v e ((revoke_key-Runs (presented header) id now w.tables).run w refl) known
    where
      got :
          (r : Result (Unit {0})) (v : World)
          → r ≡ ok tt
          → Post
              (λ u v.
                any (fits sha256 (presented header)) v.tables.api_keys ≡ true
                → any
                    (λ k. fits sha256 (presented header) k && not (text_eq k.id id))
                    w.tables.api_keys
                  ≡ true)
              (λ w. Unit {0})
              r
              v
          → any (fits sha256 (presented header)) v.tables.api_keys ≡ true
          → any (λ k. fits sha256 (presented header) k && not (text_eq k.id id)) w.tables.api_keys
            ≡ true
      got (ok u) v e p = p
      got (err x) v e p = absurd (cc)
