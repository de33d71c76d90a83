-- ===== src/Api/Visitor/Looked.antt =====
-- The handlers for visitors only read: what they look up is what the tables and the disk hold.
use smugbox.Api.{or_internal, found_or, internal_error}
use smugbox.World.{World, query, io}
use smugbox.World.Invariant.{io-Keeps}
use smugbox.Exec.{Result, ok, err, attempt, gets, not_found, answered, ◌>>=◌}
use smugbox.Exec.Runs.{Runs, Runs-bind, Runs-attempt, Runs-return, Runs-fail, Runs_of_Keeps, Post}
use smugbox.Db.{Tables}
use smugbox.Storage.Disk.{StoredFile}
use smugbox.Common.{
  refl, ℕ, String, List, ◌≡◌, ap, subst, sym, Text, if◌then◌else◌, ltb, length, is_empty, ◌∷◌, [],
  arith,
}

module _ (t : Tables) (d : List StoredFile) where
  abbrev pub Same : World → Type 0
  Same w = (w.tables ≡ t) × (w.disk ≡ d)

  abbrev pub Any : World → Type 0
  Any w = Unit {0}

  pub io-Same : Runs Same io (λ u. Same) Same
  io-Same = Runs_of_Keeps (io-Keeps Same (λ w fs h. h))

  module _ {A : Type 0} where
    -- A fact about the answer, in a state that has not changed.
    abbrev pub Knowing : (A → Type 0) → A → World → Type 0
    Knowing F a w = Same w × F a

    pub query-Same : (f : Tables → Result A) → Runs Same (query f) (Knowing (λ a. f t ≡ ok a)) Same
    unfolding query
    query-Same f =
        Runs-bind (λ u. Same) _ _ io-Same
          λ u.
            Runs-bind (λ r w. Same w × (f t ≡ r)) (gets (λ w. f w.tables)) _
              (record { run = λ w h. (h, ap f (sym h.0)) }) λ r. record { run = λ w h. told r w h }
      where
        told :
            (r : Result A) (w : World)
            → Same w × (f t ≡ r)
            → Post (Knowing (λ a. f t ≡ ok a)) Same r w
        told (ok a) w h = h
        told (err e) w h = h.0

    pub or_internal-Same :
        (F : A → Type 0) (r : Result A)
        → Runs (λ w. Post (Knowing F) Same r w) (or_internal r) (Knowing F) Any
    unfolding or_internal
    or_internal-Same F (ok a) = Runs-return a (λ w h. h)
    or_internal-Same F (err e) = Runs-fail internal_error (λ w h. tt)

    pub found_or-Same :
        (F : A → Type 0) (st : ℕ) (code : String) (r : Result A)
        → Runs (λ w. Post (Knowing F) Same r w) (found_or st code r) (Knowing F) Any
    unfolding found_or
    found_or-Same F st code (ok a) = Runs-return a (λ w h. h)
    found_or-Same F st code (err not_found) = Runs-fail (answered st code) (λ w h. tt)
    found_or-Same F st code (err e) = Runs-fail internal_error (λ w h. tt)

    pub find-Same :
        (f : Tables → Result A) (st : ℕ) (code : String)
        → Runs Same (attempt (query f) >>= λ r. found_or st code r) (Knowing (λ a. f t ≡ ok a)) Any
    find-Same f st code =
        Runs-bind (λ r w. Post (Knowing (λ a. f t ≡ ok a)) Same r w) _ _
          (Runs-attempt _ (query-Same f)) λ r. found_or-Same (λ a. f t ≡ ok a) st code r

    pub get-Same :
        (f : Tables → Result A)
        → Runs Same (attempt (query f) >>= λ r. or_internal r) (Knowing (λ a. f t ≡ ok a)) Any
    get-Same f =
        Runs-bind (λ r w. Post (Knowing (λ a. f t ≡ ok a)) Same r w) _ _
          (Runs-attempt _ (query-Same f)) λ r. or_internal-Same (λ a. f t ≡ ok a) r

    pub returned :
        (F : A → Type 0) (r : Result A) (a : A) (w : World)
        → r ≡ ok a
        → Post (λ a w. F a) Any r w
        → F a
    returned F r a w e h = subst (λ r. Post (λ a w. F a) Any r w) e h

-- A test for a password is one for its hash.
pub if-protected {ℓ} :
    {A : Type ℓ} (h : Text) (x y : A)
    → (if ltb 0 (length h) then x else y) ≡ (if is_empty h then y else x)
if-protected [] x y = refl
if-protected (c ∷ h) x y = ground arith
