-- ===== src/Auth/Session/Cookie.antt =====
-- The cookie's round trip, and what an accepted cookie proves.
use smugbox.Auth.Session.{Session, cut_dot, Codec, decode, encode, checked}
use smugbox.Common.{
  Text, ℕ, All, ◌≡◌, ◌≢◌, if◌then◌else◌, some, ◌++◌, leb, ◌<◌, ◌∷◌, none, arith, text_eq_refl,
  text_eq_iff, [], refl, bind-eq-some,
}

cut_dot-append : (a b : Text) → All (λ c. c ≢ b'.') a → cut_dot (a ++ (b'.' ∷ b)) ≡ some (a, b)
unfolding cut_dot
cut_dot-append [] b h = refl
cut_dot-append (c ∷ a) b (p, h) = ground (arith, cut_dot-append a b h)

module _ (codec : Codec) where
  open codec use {unmarshal, encode64, decode64, sign, marshal}

  -- A cookie that the server wrote is read back until it expires, and is refused from then on.
  pub decode-encode :
      (now : ℕ) (s : Session)
      → decode codec now (encode codec s) ≡ (if leb s.expires now then none else some s)
  unfolding decode encode
  decode-encode now s = rw (
    cut_dot-append (encode64 (marshal s)) (encode64 (sign (marshal s)))
        (codec.encode64-HasNoDot (marshal s)),
    codec.decode64-encode64 (marshal s),
    codec.decode64-encode64 (sign (marshal s)),
    text_eq_refl (sign (marshal s)),
    codec.unmarshal-marshal s,
  )

  -- Why a cookie is accepted: the part behind the dot is the signature of the part before it, which
  -- holds the session.
  pub record IsSigned (now : ℕ) (value : Text) (s : Session) : Type 0 where
    pub front : Text
    pub back : Text
    pub payload : Text
    pub cut : cut_dot value ≡ some (front, back)
    pub decoded : decode64 front ≡ some payload
    pub tagged : decode64 back ≡ some (sign payload)
    pub parsed : unmarshal payload ≡ some s
    pub fresh : now < s.expires

  checked-IsSigned :
      (now : ℕ) (value front back payload sig : Text) (s : Session)
      → cut_dot value ≡ some (front, back)
      → decode64 front ≡ some payload
      → decode64 back ≡ some sig
      → checked codec now payload sig ≡ some s
      → IsSigned now value s
  checked-IsSigned now value front back payload sig s c d t e =
      let same : sig ≡ sign payload = ground (arith, text_eq_iff sig (sign payload)) in
      record {
        front = front;
        back = back;
        payload = payload;
        cut = c;
        decoded = d;
        tagged = rw (← same) t;
        parsed = ground arith;
        fresh = ground arith;
      }

  -- A cookie is accepted only if the part behind its dot is the signature of the part before it,
  -- which holds the session, and the session has not expired.
  pub decode-IsSigned :
      (now : ℕ) (value : Text) (s : Session)
      → decode codec now value ≡ some s
      → IsSigned now value s
  unfolding decode
  decode-IsSigned now value s e =
      let (parts, c, e₁) = bind-eq-some (cut_dot value) _ s e in
      let (payload, d, e₂) = bind-eq-some (decode64 parts.0) _ s e₁ in
      let (sig, t, e₃) = bind-eq-some (decode64 parts.1) _ s e₂ in
      checked-IsSigned now value parts.0 parts.1 payload sig s c d t e₃
