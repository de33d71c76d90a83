-- ===== src/Auth/Session/Grants.antt =====
-- What `Add` does to the grants of a session.
use smugbox.Auth.Session.{Session, Grant, add, granted, newest, is_grant, max_grants, replaced}
use smugbox.Common.{
  List, ℕ, Bool, Text, ◌≤◌, any, length, ◌++◌, ◌≡◌, ◌≢◌, drop, ◌∷◌, ◌==◌, true, filter, [], arith,
  ◌<◌, suc, not, if◌then◌else◌, Bool-cases, zero, text_eq, ◌-◌, ltb, refl, ◌&&◌, any-append,
  text_eq_iff, inl, length-append, text_eq_refl, ltb→lt, length-filter, inr,
}

any-drop : (p : Grant → Bool) (n : ℕ) (xs : List Grant) → any p (drop n xs) ≡ true → any p xs ≡ true
any-drop p zero xs h = h
any-drop p (suc n) [] h = h
any-drop p (suc n) (x ∷ xs) h = ground (arith, any-drop p n xs h)

any-filter_other :
    (grants : List Grant) (id j : Text) (w : ℕ)
    → any (is_grant j w) (filter (λ g. not (text_eq g.album_id id)) grants)
      ≡ (not (text_eq id j) && any (is_grant j w) grants)
any-filter_other [] id j w = ground arith
any-filter_other (g ∷ grants) id j w = ground (
  arith,
  any-filter_other grants id j w,
  text_eq_iff g.album_id id,
  text_eq_iff g.album_id j,
  text_eq_iff id j,
)

-- Before the oldest are dropped.
any-replaced :
    (grants : List Grant) (id j : Text) (v w : ℕ)
    → any (is_grant j w) (replaced grants id v)
      ≡ (if text_eq id j then v == w else any (is_grant j w) grants)
any-replaced grants id j v w =
    rw
      (any-append (is_grant j w) (filter (λ g. not (text_eq g.album_id id)) grants)
        (record { album_id = id; version = v } ∷ []))
      (ground (arith, any-filter_other grants id j w))

drop-append_last :
    (n : ℕ) (xs : List Grant) (x : Grant)
    → n ≤ length xs
    → drop n (xs ++ x ∷ []) ≡ drop n xs ++ x ∷ []
drop-append_last zero xs x h = refl
drop-append_last (suc n) [] x h = elim h [ ]
drop-append_last (suc n) (y ∷ xs) x h = drop-append_last n xs x (omega arith)

newest_split :
    (kept : List Grant) (x : Grant) → (n : ℕ) × (newest (kept ++ x ∷ []) ≡ drop n kept ++ x ∷ [])
newest_split kept x = elim (Bool-cases (ltb max_grants (length (kept ++ x ∷ [])))) [
  | inl long ↦
      let size = length-append kept (x ∷ []) in
      let over = ltb→lt max_grants (length (kept ++ x ∷ [])) long in
      (
        length (kept ++ x ∷ []) - max_grants,
        rw long (drop-append_last _ kept x (omega (arith, size, over))),
      )
  | inr short ↦ (0, rw short)
]

-- Once an album is unlocked at a version, the session grants it at that version and at no other,
-- whatever had to be dropped.
pub granted-add_self : (s : Session) (id : Text) (v w : ℕ) → granted (add s id v) id w ≡ (v == w)
unfolding granted add
granted-add_self s id v w =
    let others = filter (λ g. not (text_eq g.album_id id)) s.grants in
    let (n, split) = newest_split others (record { album_id = id; version = v }) in
    let gone = any-filter_other s.grants id id w in
    rw
      (
        split,
        any-append (is_grant id w) (drop n others) (record { album_id = id; version = v } ∷ []),
      )
      (ground (arith, gone, text_eq_refl id, any-drop (is_grant id w) n others))

-- To add a grant unlocks no other album, and where there is room for one more it locks none out.
pub granted-add_other :
    (s : Session) (id j : Text) (v w : ℕ)
    → id ≢ j
    → (granted (add s id v) j w ≡ true → granted s j w ≡ true)
      × (length s.grants < max_grants → granted (add s id v) j w ≡ granted s j w)
unfolding granted add
granted-add_other s id j v w other =
    let others = filter (λ g. not (text_eq g.album_id id)) s.grants in
    let x : Grant = record { album_id = id; version = v } in
    let all = any-replaced s.grants id j v w in
    (
      λ h. ground (
        arith,
        all,
        text_eq_iff id j,
        any-drop (is_grant j w) (length (others ++ x ∷ []) - max_grants) (others ++ x ∷ []),
      ),
      λ h. ground (
        arith,
        all,
        text_eq_iff id j,
        length-append others (x ∷ []),
        length-filter (λ g. not (text_eq g.album_id id)) s.grants,
      ),
    )
