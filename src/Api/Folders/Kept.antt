-- ===== src/Api/Folders/Kept.antt =====
-- What the folder handlers leave true of the tables, whatever fails on the way.
use smugbox.Api.Folders.{
  FolderInput, new_folder, folder_from_path, prior_folder, created_folder, create_unless,
  post_folder, new_parent, put_folder, remove_albums, drop_folder, check_chain, refuse_cycle,
}
use smugbox.Api.{
  required_name, valid_idempotency_key, new_name, internal_error, parent_or, or_internal,
}
use smugbox.Api.Kept.{
  Keeps-or_internal, Keeps-found_or, Keeps-prior, Keeps-gone_or_internal,
  Keeps-resolve_parent_folder, Keeps-with_unique_slug, query-found_or, query-or_internal,
  resolve_parent_folder-named,
}
use smugbox.World.{World, execute}
use smugbox.World.Invariant.{
  Tabled, Keeps-query, Keeps-execute, Keeps-remove_album_dir, execute-from,
}
use smugbox.Exec.{Exec, Result, ok, err, attempt, lift, return, answered, ◌>>=◌, key_taken}
use smugbox.Exec.Keeps.{
  Keeps, Keeps-return, Keeps-fail, Keeps-lift, Keeps-if, Keeps-bind, Keeps-attempt,
}
use smugbox.Exec.Runs.{
  Runs, Runs-bind, Runs-if, Runs-return, Runs-fail, Runs_weaken, Keeps-of_Runs, Runs_of_Keeps,
}
use smugbox.Db.{Folder, Tables}
use smugbox.Db.Folders.{
  has_id, create_folder, get_folder, get_folder_by_idempotency_key, update_folder, delete_folder,
  folder_chain, subtree_album_ids,
}
use smugbox.Db.Consistent.{IsConsistent}
use smugbox.Db.Consistent.OfFolders.{
  create_folder-IsConsistent, update_folder-IsConsistent, delete_folder-IsConsistent,
}
use smugbox.Db.Tree.Own.{folder_chain-own}
use smugbox.Media.{Tools}
use smugbox.Common.{
  Text, List, ℕ, none, ◌∷◌, ◌≢◌, Option, some, [], ◌≡◌, sym, any, find?, text_eq, arith, ◌⊎◌, false,
  is_empty, not, refl, text_eq_iff, is_some, inl, find?-sound, ◌∙◌, inr, ap, subst,
}
use smugbox.Api.UniqueSlug.{with_unique_slug}

module _ (tools : Tools) (P : Tables → Type 0) where
  pub Keeps-folder_from_path : (id : Text) → Keeps (Tabled P) (folder_from_path tools id)
  unfolding folder_from_path
  Keeps-folder_from_path id =
      Keeps-if _ _ _ (λ e. Keeps-fail (answered 404 "folder_not_found"))
        (λ e.
          Keeps-bind _ _ (Keeps-attempt _ (Keeps-query P (get_folder id)))
            λ r. Keeps-found_or P 404 "folder_not_found" r)

  Keeps-prior_folder : (key : Text) → Keeps (Tabled P) (prior_folder tools key)
  unfolding prior_folder
  Keeps-prior_folder key =
      Keeps-if _ _ _ (λ e. Keeps-return none)
        (λ e.
          Keeps-bind _ _ (Keeps-attempt _ (Keeps-query P (get_folder_by_idempotency_key key)))
            λ r. Keeps-prior P r)

  Keeps-created_folder :
      (key : Text) (f : Text → Folder) (r : Result Text)
      → Keeps (Tabled P) (created_folder tools key f r)
  unfolding created_folder
  Keeps-created_folder key f (ok slug) = Keeps-return (f slug)
  Keeps-created_folder key f (err key_taken) =
      Keeps-bind _ _ (Keeps-attempt _ (Keeps-query P (get_folder_by_idempotency_key key)))
        λ r. Keeps-or_internal P r
  Keeps-created_folder key f (err e) = Keeps-fail internal_error

  Keeps-remove_albums : (ids : List Text) → Keeps (Tabled P) (remove_albums tools ids)
  unfolding remove_albums
  Keeps-remove_albums [] = Keeps-return tt
  Keeps-remove_albums (id ∷ ids) =
      Keeps-bind _ _ (Keeps-attempt _ (Keeps-remove_album_dir P tools id))
        λ r. Keeps-remove_albums ids

get_folder-own :
    (id : Text) (f : Folder) (t : Tables)
    → get_folder id t ≡ ok f
    → find? (has_id f.id) t.folders ≡ some f
unfolding get_folder
get_folder-own id f t e =
    let found : find? (has_id id) t.folders ≡ some f = ground arith in
    let same = (text_eq_iff f.id id).0 (find?-sound (has_id id) t.folders f found) in
    subst (λ x. find? (has_id x) t.folders ≡ some f) (sym same) found

module _ (tools : Tools) (now : ℕ) where
  -- The new uuid is not the parent that the request names.
  created_in :
      (fresh : Text) (name key : Text) (random : List ℕ) (slugify : Text → Text) (parent : Text)
      → parent ≢ fresh
      → Keeps (Tabled IsConsistent) (
          attempt (
            with_unique_slug
              (slugify name)
              (λ slug. execute (create_folder (new_folder now fresh name key parent slug)))
              random)
          >>= λ r. created_folder tools key (new_folder now fresh name key parent) r)
  created_in fresh name key random slugify parent n =
      Keeps-bind _ _
        (Keeps-attempt _ (
          Keeps-with_unique_slug IsConsistent (slugify name) _
            (λ slug. Keeps-execute IsConsistent _ (λ t t' c e.
              create_folder-IsConsistent (new_folder now fresh name key parent slug) t t' n c e))
            random))
        λ r. Keeps-created_folder tools IsConsistent key (new_folder now fresh name key parent) r

  parent_or-other :
      (id : Option Text) (fresh : Text)
      → fresh ≢ []
      → id ≢ some fresh
      → Runs
          (Tabled IsConsistent)
          (parent_or tools [] id)
          (λ p w. IsConsistent w.tables × (p ≢ fresh))
          (Tabled IsConsistent)
  unfolding parent_or
  parent_or-other none fresh ne n = Runs-return [] (λ s h. (h, λ e. ne (sym e)))
  parent_or-other (some id) fresh ne n =
      Runs_weaken other (λ s h. h) (resolve_parent_folder-named IsConsistent tools id)
    where
      other :
          (p : Text) (w : World)
          → IsConsistent w.tables × ((p ≡ []) ⊎ (p ≡ id))
          → IsConsistent w.tables × (p ≢ fresh)
      other p w (h, inl e) = (h, λ f. ne (sym f ∙ e))
      other p w (h, inr e) = (h, λ f. n (ap some (sym e ∙ f)))

  Keeps-create_unless :
      (fresh : Text) (random : List ℕ) (slugify : Text → Text) (name key : Text)
      (parent_id : Option Text) (found : Option Folder)
      → fresh ≢ []
      → parent_id ≢ some fresh
      → Keeps
          (Tabled IsConsistent)
          (create_unless tools now fresh random slugify name key parent_id found)
  Keeps-create_unless fresh random slugify name key parent_id (some f) ne n = Keeps-return f
  Keeps-create_unless fresh random slugify name key parent_id none ne n = Keeps-of_Runs (
      Runs-bind (λ p w. IsConsistent w.tables × (p ≢ fresh)) _ _
        (parent_or-other parent_id fresh ne n)
        λ p. record {
          run = λ w h. (Runs_of_Keeps (created_in fresh name key random slugify p h.1)).run w h.0;
        })

  -- `createFolder` keeps the tables consistent, whatever it is asked and whatever fails on the way,
  -- if the new uuid is not empty and not the parent that the request names.
  pub post_folder-IsConsistent :
      (fresh : Text) (random : List ℕ) (slugify : Text → Text) (body : Result FolderInput)
      (w : World)
      → fresh ≢ []
      → ((input : FolderInput) → body ≡ ok input → input.parent_id ≢ some fresh)
      → IsConsistent w.tables
      → IsConsistent (post_folder tools now fresh random slugify body w).1.tables
  unfolding post_folder
  post_folder-IsConsistent fresh random slugify (err e) w ne n c = c
  post_folder-IsConsistent fresh random slugify (ok input) w ne n c =
      (Keeps-bind (lift (required_name input.name)) _ (Keeps-lift _) λ name.
          Keeps-bind (lift (valid_idempotency_key input.idempotency_key)) _ (Keeps-lift _) λ key.
            Keeps-bind _ _ (Keeps-prior_folder tools IsConsistent key) λ found.
              Keeps-create_unless fresh random slugify name key input.parent_id found ne
                (n input refl)).run
        w c

  -- What the move checks: the folder is in no chain of its new parent.
  abbrev Movable : Folder → Text → World → Type 0
  Movable f p w = IsConsistent w.tables × (any (has_id f.id) (folder_chain p w.tables) ≡ false)

  abbrev Loaded : Folder → Tables → Type 0
  Loaded f t = IsConsistent t × (find? (has_id f.id) t.folders ≡ some f)

  refuse_cycle-Movable :
      (f : Folder) (p : Text) (chain : List Folder)
      → Runs
          (λ w. Loaded f w.tables × (ok (folder_chain p w.tables) ≡ ok chain))
          (refuse_cycle tools f p chain)
          (Movable f)
          (Tabled IsConsistent)
  refuse_cycle-Movable f p chain =
      Runs-if (any (has_id f.id) chain) _ _
        (λ e. Runs-fail (answered 400 "invalid_parent") (λ s h. h.0.0))
        (λ e. Runs-return p (λ s h. (h.0.0, ground (arith, h.1, e))))

  check_chain-Movable :
      (f : Folder) (p : Text)
      → Runs (Tabled (Loaded f)) (check_chain tools f p) (Movable f) (Tabled IsConsistent)
  unfolding folder_chain
  check_chain-Movable f p =
      Runs-if (is_empty p) _ _ (λ e. Runs-return p (λ s h. (h.0, ground (arith, e))))
        (λ e.
          Runs-bind (λ chain w. Loaded f w.tables × (ok (folder_chain p w.tables) ≡ ok chain)) _ _
            (Runs_weaken (λ a s h. h) (λ s h. h.0)
              (query-or_internal (Loaded f) (λ t. ok (folder_chain p t))))
            λ chain. refuse_cycle-Movable f p chain)

  new_parent-Movable :
      (f : Folder) (id : Option Text)
      → Runs (Tabled (Loaded f)) (new_parent tools f id) (Movable f) (Tabled IsConsistent)
  unfolding new_parent
  new_parent-Movable f none =
      Runs-return f.parent_id (λ w h. (h.0, folder_chain-own f w.tables h.0.tree h.1))
  new_parent-Movable f (some id) =
      Runs-if (text_eq id f.id) _ _ (λ e. Runs-fail (answered 400 "invalid_parent") (λ s h. h.0))
        (λ e.
          Runs-bind (λ p. Tabled (Loaded f)) _ _
            (Runs_weaken (λ a s h. h) (λ s h. h.0)
              (Runs_of_Keeps (Keeps-resolve_parent_folder (Loaded f) tools id)))
            λ p. check_chain-Movable f p)

  -- A folder that is looked up is the one its own id finds.
  path-Loaded :
      (id : Text)
      → Runs
          (Tabled IsConsistent)
          (folder_from_path tools id)
          (λ f. Tabled (Loaded f))
          (Tabled IsConsistent)
  unfolding folder_from_path
  path-Loaded id =
      Runs-if (not (is_some (tools.parse_uuid id))) _ _
        (λ e. Runs-fail (answered 404 "folder_not_found") (λ s h. h))
        (λ e.
          Runs_weaken own (λ s h. h)
            (query-found_or IsConsistent 404 "folder_not_found" (get_folder id)))
    where
      own :
          (f : Folder) (w : World)
          → IsConsistent w.tables × (get_folder id w.tables ≡ ok f)
          → Loaded f w.tables
      own f w (c, e) = (c, get_folder-own id f w.tables e)

  moved :
      (f : Folder) (g : Folder)
      → g.id ≡ f.id
      → Runs
          (Movable f g.parent_id)
          (attempt (execute (update_folder g)) >>= λ r. or_internal r >>= λ u. return g)
          (λ g. Tabled IsConsistent)
          (Tabled IsConsistent)
  moved f g same =
      Runs-bind (λ r. Tabled IsConsistent) _ _
        (execute-from IsConsistent
          (λ t. IsConsistent t × (any (has_id f.id) (folder_chain g.parent_id t) ≡ false))
          (update_folder g) (λ t h. h.0)
          (λ t t' h e. update_folder-IsConsistent g t t' (rw same h.1) h.0 e))
        λ r. Runs_of_Keeps (Keeps-bind _ _ (Keeps-or_internal IsConsistent r) λ u. Keeps-return g)

  -- `updateFolder` keeps the tables consistent, whatever it is asked and whatever fails: no request can
  -- make the folders a cycle.
  pub put_folder-IsConsistent :
      (id : Text) (body : Result FolderInput) (w : World)
      → IsConsistent w.tables
      → IsConsistent (put_folder tools now id body w).1.tables
  unfolding put_folder
  put_folder-IsConsistent id body w c =
      (Keeps-of_Runs (
          Runs-bind (λ f. Tabled (Loaded f)) _ _ (path-Loaded id)
            λ f.
              Runs-bind (λ input. Tabled (Loaded f)) (lift body) _ (keep f (Keeps-lift body))
                λ input.
                  Runs-bind (λ name. Tabled (Loaded f)) (lift (new_name f.name input.name)) _
                    (keep f (Keeps-lift _))
                    λ name.
                      Runs-bind (Movable f) _ _ (new_parent-Movable f input.parent_id) λ parent.
                        moved f (record f { name = name; parent_id = parent; updated_at = now })
                          refl)).run
        w c
    where
      keep :
          {A : Type 0} {m : Exec World A} (f : Folder)
          → Keeps (Tabled (Loaded f)) m
          → Runs (Tabled (Loaded f)) m (λ a. Tabled (Loaded f)) (Tabled IsConsistent)
      keep f k = Runs_weaken (λ a s h. h) (λ s h. h.0) (Runs_of_Keeps k)

  -- `deleteFolder` keeps the tables consistent, whatever fails on the way.
  pub drop_folder-IsConsistent :
      (id : Text) (w : World)
      → IsConsistent w.tables
      → IsConsistent (drop_folder tools id w).1.tables
  unfolding drop_folder
  drop_folder-IsConsistent id w c =
      (Keeps-bind _ _ (Keeps-folder_from_path tools IsConsistent id) λ f.
          Keeps-bind _ _
            (Keeps-attempt _ (Keeps-query IsConsistent (λ t. ok (subtree_album_ids f.id t))))
            λ r. Keeps-bind _ _ (Keeps-or_internal IsConsistent r) λ ids.
              Keeps-bind _ _
                (Keeps-attempt _ (
                  Keeps-execute IsConsistent (delete_folder f.id)
                    (λ t t' c e. delete_folder-IsConsistent f.id t t' c e)))
                λ r.
                  Keeps-bind _ _ (Keeps-gone_or_internal IsConsistent r)
                    λ u. Keeps-remove_albums tools IsConsistent ids).run
        w c
