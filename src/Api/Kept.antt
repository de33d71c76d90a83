-- ===== src/Api/Kept.antt =====
-- What the shared parts of the handlers leave true of the tables.
use smugbox.Api.{
  or_internal, found_or, prior, gone_or_internal, resolve_parent_folder, parent_or, internal_error,
}
use smugbox.Api.UniqueSlug.{attempts, with_unique_slug, settle, retried}
use smugbox.World.{World, query}
use smugbox.World.Invariant.{Tabled, Keeps-query, query-found}
use smugbox.Exec.{
  Exec, Result, ok, err, attempt, not_found, answered, slug_taken, internal, ◌>>=◌, client,
  key_taken, photo_exists, invalid_id,
}
use smugbox.Exec.Keeps.{Keeps, Keeps-return, Keeps-fail, Keeps-if, Keeps-bind, Keeps-attempt}
use smugbox.Exec.Runs.{
  Runs, Runs-bind, Runs-attempt, Post, Runs-if, Runs-return, Runs-fail, Runs_of_Keeps,
}
use smugbox.Db.{Tables}
use smugbox.Db.Folders.{get_folder}
use smugbox.Media.{Tools}
use smugbox.Slug.{slug_suffix, slug_retries}
use smugbox.Common.{
  ℕ, some, ◌≡◌, Text, String, none, [], Option, List, suc, ◌++◌, zero, ◌∷◌, is_empty, ◌⊎◌, not,
  is_some, inl, inr, refl,
}

module _ (P : Tables → Type 0) where
  module _ {A : Type 0} where
    pub Keeps-or_internal : (r : Result A) → Keeps (Tabled P) (or_internal r)
    unfolding or_internal
    Keeps-or_internal (ok a) = Keeps-return a
    Keeps-or_internal (err e) = Keeps-fail internal_error

    pub Keeps-found_or :
        (st : ℕ) (code : String) (r : Result A) → Keeps (Tabled P) (found_or st code r)
    unfolding found_or
    Keeps-found_or st code (ok a) = Keeps-return a
    Keeps-found_or st code (err not_found) = Keeps-fail (answered st code)
    Keeps-found_or st code (err e) = Keeps-fail internal_error

    pub Keeps-prior : (r : Result A) → Keeps (Tabled P) (prior r)
    unfolding prior
    Keeps-prior (ok a) = Keeps-return (some a)
    Keeps-prior (err not_found) = Keeps-return none
    Keeps-prior (err e) = Keeps-fail internal_error

    pub Keeps-gone_or_internal : (r : Result A) → Keeps (Tabled P) (gone_or_internal r)
    unfolding gone_or_internal
    Keeps-gone_or_internal (ok a) = Keeps-return tt
    Keeps-gone_or_internal (err not_found) = Keeps-return tt
    Keeps-gone_or_internal (err e) = Keeps-fail internal_error

    -- What was looked up stands in the tables as they still are.
    pub query-found_or :
        (st : ℕ) (code : String) (f : Tables → Result A)
        → Runs
            (Tabled P)
            (attempt (query f) >>= λ r. found_or st code r)
            (λ a w. P w.tables × (f w.tables ≡ ok a))
            (Tabled P)
    unfolding found_or
    query-found_or st code f =
        Runs-bind (λ r s. Post (λ a w. P w.tables × (f w.tables ≡ ok a)) (Tabled P) r s) _ _
          (Runs-attempt (query f) (query-found P f)) found
      where
        found :
            (r : Result A)
            → Runs
                (λ s. Post (λ a w. P w.tables × (f w.tables ≡ ok a)) (Tabled P) r s)
                (found_or st code r)
                (λ a w. P w.tables × (f w.tables ≡ ok a))
                (Tabled P)
        found (ok a) = record { run = λ s h. h }
        found (err not_found) = record { run = λ s h. h }
        found (err e) = record { run = λ s h. h }

    pub query-or_internal :
        (f : Tables → Result A)
        → Runs
            (Tabled P)
            (attempt (query f) >>= λ r. or_internal r)
            (λ a w. P w.tables × (f w.tables ≡ ok a))
            (Tabled P)
    unfolding or_internal
    query-or_internal f =
        Runs-bind (λ r s. Post (λ a w. P w.tables × (f w.tables ≡ ok a)) (Tabled P) r s) _ _
          (Runs-attempt (query f) (query-found P f)) found
      where
        found :
            (r : Result A)
            → Runs
                (λ s. Post (λ a w. P w.tables × (f w.tables ≡ ok a)) (Tabled P) r s)
                (or_internal r)
                (λ a w. P w.tables × (f w.tables ≡ ok a))
                (Tabled P)
        found (ok a) = record { run = λ s h. h }
        found (err e) = record { run = λ s h. h }

  module _ (tools : Tools) where
    pub Keeps-resolve_parent_folder :
        (id : Text) → Keeps (Tabled P) (resolve_parent_folder tools id)
    unfolding resolve_parent_folder
    Keeps-resolve_parent_folder id =
        Keeps-if (is_empty id) _ _ (λ e. Keeps-return [])
          (λ e.
            Keeps-if (not (is_some (tools.parse_uuid id))) _ _
              (λ e. Keeps-fail (answered 400 "folder_not_found"))
              (λ e.
                Keeps-bind _ _ (Keeps-attempt _ (Keeps-query P (get_folder id))) λ r.
                  Keeps-bind _ _ (Keeps-found_or 400 "folder_not_found" r) λ f. Keeps-return id))

    -- The parent is the root, or the folder that the request names.
    pub resolve_parent_folder-named :
        (id : Text)
        → Runs
            (Tabled P)
            (resolve_parent_folder tools id)
            (λ p w. P w.tables × ((p ≡ []) ⊎ (p ≡ id)))
            (Tabled P)
    unfolding resolve_parent_folder
    resolve_parent_folder-named id =
        Runs-if (is_empty id) _ _ (λ e. Runs-return [] (λ s h. (h, inl refl)))
          (λ e.
            Runs-if (not (is_some (tools.parse_uuid id))) _ _
              (λ e. Runs-fail (answered 400 "folder_not_found") (λ s h. h))
              (λ e.
                Runs-bind (λ r. Tabled P) _ _
                  (Runs_of_Keeps (Keeps-attempt _ (Keeps-query P (get_folder id))))
                  λ r.
                    Runs-bind (λ f. Tabled P) _ _
                      (Runs_of_Keeps (Keeps-found_or 400 "folder_not_found" r))
                      λ f. Runs-return id (λ s h. (h, inr refl))))

    pub Keeps-parent_or :
        (old : Text) (id : Option Text) → Keeps (Tabled P) (parent_or tools old id)
    unfolding parent_or
    Keeps-parent_or old none = Keeps-return old
    Keeps-parent_or old (some id) = Keeps-resolve_parent_folder id

  -- However often a create is tried, it is only the create that changes the tables.
  module _ (base : Text) (create : Text → Exec World (Unit {0}))
      (kept : (slug : Text) → Keeps (Tabled P) (create slug)) where
    Keeps-settle :
        (slug : Text) (r : Result (Unit {0})) (more : Exec World Text)
        → Keeps (Tabled P) more
        → Keeps (Tabled P) (settle base create slug r more)
    Keeps-settle slug (ok u) more k = Keeps-return slug
    Keeps-settle slug (err slug_taken) more k = k
    Keeps-settle slug (err not_found) more k = Keeps-fail not_found
    Keeps-settle slug (err key_taken) more k = Keeps-fail key_taken
    Keeps-settle slug (err photo_exists) more k = Keeps-fail photo_exists
    Keeps-settle slug (err invalid_id) more k = Keeps-fail invalid_id
    Keeps-settle slug (err internal) more k = Keeps-fail internal
    Keeps-settle slug (err (client code)) more k = Keeps-fail (client code)
    Keeps-settle slug (err (answered st code)) more k = Keeps-fail (answered st code)

    Keeps-retried :
        (again : Text → List ℕ → Exec World Text) (s : Option (Text × List ℕ))
        → ((slug : Text) (random : List ℕ) → Keeps (Tabled P) (again slug random))
        → Keeps (Tabled P) (retried base create again s)
    Keeps-retried again none k = Keeps-fail internal
    Keeps-retried again (some (suffix, rest)) k = k (base ++ (b'-' ∷ suffix)) rest

    Keeps-attempts :
        (n : ℕ) (slug : Text) (random : List ℕ)
        → Keeps (Tabled P) (attempts base create n slug random)
    unfolding attempts
    Keeps-attempts zero slug random =
        Keeps-bind _ _ (Keeps-attempt _ (kept slug))
          λ r. Keeps-settle slug r _ (Keeps-fail slug_taken)
    Keeps-attempts (suc n) slug random = Keeps-bind _ _ (Keeps-attempt _ (kept slug)) λ r.
        Keeps-settle slug r _
          (Keeps-retried (attempts base create n) (slug_suffix random 4) (Keeps-attempts n))

    pub Keeps-with_unique_slug :
        (random : List ℕ) → Keeps (Tabled P) (with_unique_slug base create random)
    unfolding with_unique_slug
    Keeps-with_unique_slug random = Keeps-attempts slug_retries base random
