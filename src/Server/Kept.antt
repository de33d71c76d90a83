-- ===== src/Server/Kept.antt =====
-- Every operation of the server keeps the tables consistent.
use smugbox.Server.{
  Step, Reach, faults_ahead, authenticate, create_folder, update_folder, delete_folder,
  create_album, update_album, delete_album, order_photos, delete_photo, upload_photo, replace_photo,
  drain_queue, make_api_key, end_api_key, change_password, remove_album, here, later,
}
use smugbox.Api.Folders.Kept.{
  post_folder-IsConsistent, put_folder-IsConsistent, drop_folder-IsConsistent,
}
use smugbox.Api.Albums.{Passwords, put_photo_order, drop_photo, removed}
use smugbox.Api.Albums.Kept.{
  Keeps-library_error, post_album-IsConsistent, put_album-IsConsistent, drop_album-IsConsistent,
  Keeps-album_from_path,
}
use smugbox.Api.Keys.{require_api_key, look_up, admit, touch, is_stale, is_good, unauthorized}
use smugbox.Api.Kept.{Keeps-or_internal}
use smugbox.Admin.{
  create_key, revoke_key, set_password, delete_album_by_slug, or_none, unless_gone, with_hash,
  new_key, new_hash,
}
use smugbox.Api.Uploads.Kept.{post_photo-IsConsistent, put_photo-IsConsistent}
use smugbox.Api.Worker.Kept.{drain-IsConsistent}
use smugbox.Library.Render.Kept.{remove-IsConsistent}
use smugbox.World.{World}
use smugbox.World.Invariant.{Tabled, Keeps-execute, Keeps-query, Keeps-remove_album_dir}
use smugbox.Exec.{Result, ok, err, lift, answered, client, not_found}
use smugbox.Exec.Keeps.{
  Keeps, Keeps-bind, Keeps-attempt, Keeps-if, Keeps-fail, Keeps-return, Keeps-lift,
}
use smugbox.Db.{Tables, ApiKey}
use smugbox.Db.ApiKeys.{create_api_key, revoke_api_key, touch_api_key, in_force}
use smugbox.Api.Keys.Known.{presented}
use smugbox.Db.Consistent.{IsConsistent}
use smugbox.Db.Consistent.OfAlbums.{update_album-IsConsistent, delete_album-IsConsistent}
use smugbox.Db.Consistent.OfPhotos.{set_photo_order-IsConsistent}
use smugbox.Media.{Tools}
use smugbox.Common.{
  Text, List, Option, some, none, ◌≡◌, String, ℕ, Bool, subst, arith, find?, ◌++◌, ◌∷◌, [], map,
  all, is_some, if◌then◌else◌, text_eq,
}
use smugbox.Db.ApiKeys.{touch_api_key}
use smugbox.Auth.ApiKey.{api_key_prefix}
use smugbox.Db.Photos.{set_photo_order}

-- The API keys are in no other table.
with_keys :
    (t t' : Tables) (ks : List ApiKey)
    → t' ≡ record t { api_keys = ks }
    → IsConsistent t
    → IsConsistent t'
with_keys t t' ks e c = rw e (record {
  folders_apart = c.folders_apart;
  albums_apart = c.albums_apart;
  photos_apart = c.photos_apart;
  tree = c.tree;
  album_folders = c.album_folders;
  photo_albums = c.photo_albums;
})

module _ {A : Type 0} where
  Keeps-or_none :
      (message : String) (r : Result A) → Keeps (Tabled IsConsistent) (or_none message r)
  Keeps-or_none message (ok a) = Keeps-return a
  Keeps-or_none message (err not_found) = Keeps-fail (client message)
  Keeps-or_none message (err e) = Keeps-fail e

Keeps-unless_gone : (r : Result (Unit {0})) → Keeps (Tabled IsConsistent) (unless_gone r)
Keeps-unless_gone (ok u) = Keeps-return tt
Keeps-unless_gone (err not_found) = Keeps-return tt
Keeps-unless_gone (err e) = Keeps-fail e

Keeps-touch : (now : ℕ) (k : ApiKey) → Keeps (Tabled IsConsistent) (touch now k)
unfolding touch touch_api_key
Keeps-touch now k =
    Keeps-if (is_stale now k) _ _
      (λ e.
        Keeps-bind _ _
          (Keeps-attempt _ (
            Keeps-execute IsConsistent _ (λ t t' c e.
              with_keys t t'
                (map (λ j. if text_eq j.id k.id then record j { last_used_at = some now } else j)
                  t.api_keys)
                (ground (arith, e)) c)))
          λ r. Keeps-return tt)
      (λ e. Keeps-return tt)

module _ (sha256 : Text → Text) where
  Keeps-admit : (now : ℕ) (o : Option ApiKey) → Keeps (Tabled IsConsistent) (admit sha256 now o)
  Keeps-admit now none = Keeps-fail unauthorized
  Keeps-admit now (some k) = Keeps-touch now k

  Keeps-look_up :
      (now : ℕ) (plain : Text) (o : Option Text)
      → Keeps (Tabled IsConsistent) (look_up sha256 now plain o)
  Keeps-look_up now plain none = Keeps-fail unauthorized
  Keeps-look_up now plain (some prefix) =
      Keeps-bind _ _ (Keeps-attempt _ (Keeps-query IsConsistent _)) λ r.
        Keeps-bind _ _ (Keeps-or_internal IsConsistent r)
          λ keys. Keeps-admit now (find? (is_good sha256 plain) keys)

  Keeps-require_api_key :
      (now : ℕ) (header : Text) → Keeps (Tabled IsConsistent) (require_api_key sha256 now header)
  unfolding require_api_key
  Keeps-require_api_key now header =
      Keeps-if _ _ _ (λ e. Keeps-fail unauthorized)
        (λ e. Keeps-look_up now (presented header) (api_key_prefix (presented header)))

  Keeps-create_key :
      (base64 : Text → Text) (id label : Text) (now : ℕ) (random : List ℕ)
      → Keeps (Tabled IsConsistent) (create_key sha256 base64 id label now random)
  unfolding create_key create_api_key
  Keeps-create_key base64 id label now random = Keeps-bind _ _ (Keeps-lift _) λ plain.
      Keeps-bind _ _
        (Keeps-execute IsConsistent _ (λ t t' c e.
          with_keys t t' (t.api_keys ++ new_key sha256 id label now plain ∷ []) (ground (arith, e))
            c))
        λ u. Keeps-return plain

Keeps-revoke_key : (id : Text) (now : ℕ) → Keeps (Tabled IsConsistent) (revoke_key id now)
unfolding revoke_key revoke_api_key
Keeps-revoke_key id now =
    Keeps-bind _ _
      (Keeps-attempt _ (
        Keeps-execute IsConsistent _ (λ t t' c e.
          with_keys t t'
            (map (λ k. if in_force id k then record k { revoked_at = some now } else k) t.api_keys)
            (ground (arith, e)) c)))
      λ r. Keeps-or_none "no active key with that id" r

Keeps-set_password :
    (passwords : Passwords) (slug : Text) (clear : Bool) (typed : Result Text) (now : ℕ)
    → Keeps (Tabled IsConsistent) (set_password passwords slug clear typed now)
unfolding set_password
Keeps-set_password passwords slug clear typed now =
    Keeps-bind _ _ (Keeps-attempt _ (Keeps-query IsConsistent _)) λ r.
      Keeps-bind _ _ (Keeps-or_none "no album with that slug" r) λ a.
        Keeps-bind (lift (new_hash passwords clear typed)) _ (Keeps-lift _) λ hash.
          Keeps-bind _ _
            (Keeps-execute IsConsistent _
              (λ t t' c e. update_album-IsConsistent (with_hash passwords now hash a) t t' c e))
            λ u. Keeps-return (with_hash passwords now hash a)

Keeps-delete_album_by_slug :
    (tools : Tools) (slug : Text) → Keeps (Tabled IsConsistent) (delete_album_by_slug tools slug)
unfolding delete_album_by_slug
Keeps-delete_album_by_slug tools slug =
    Keeps-bind _ _ (Keeps-attempt _ (Keeps-query IsConsistent _)) λ r.
      Keeps-bind _ _ (Keeps-or_none "no album with that slug" r) λ a.
        Keeps-bind _ _
          (Keeps-attempt _
            (Keeps-execute IsConsistent _ (λ t t' c e. delete_album-IsConsistent a.id t t' c e)))
          λ s. Keeps-bind _ _ (Keeps-unless_gone s) λ u.
            Keeps-bind _ _ (Keeps-attempt _ (Keeps-remove_album_dir IsConsistent tools a.id))
              λ r. Keeps-return tt

module _ (tools : Tools) (passwords : Passwords) where
  Keeps-put_photo_order :
      (id : Text) (body : Result (List Text))
      → Keeps (Tabled IsConsistent) (put_photo_order passwords tools id body)
  unfolding put_photo_order
  Keeps-put_photo_order id body =
      Keeps-bind _ _ (Keeps-album_from_path passwords tools IsConsistent id) λ a.
        Keeps-bind _ _ (Keeps-lift body) λ ids.
          Keeps-if (all (λ i. is_some (tools.parse_uuid i)) ids) _ _
            (λ e.
              Keeps-bind _ _
                (Keeps-attempt _ (
                  Keeps-execute IsConsistent (λ t. ok (set_photo_order a.id ids t))
                    (λ t t' c e.
                      let same : set_photo_order a.id ids t ≡ t' = ground (arith, e) in
                      subst IsConsistent same (set_photo_order-IsConsistent a.id ids t c))))
                λ r. Keeps-or_internal IsConsistent r)
            (λ e. Keeps-fail (answered 400 "invalid_photo_id"))

  Keeps-drop_photo :
      (id photo_id : Text) → Keeps (Tabled IsConsistent) (drop_photo passwords tools id photo_id)
  unfolding drop_photo
  Keeps-drop_photo id photo_id =
      Keeps-bind _ _ (Keeps-album_from_path passwords tools IsConsistent id) λ a.
        Keeps-if (is_some (tools.parse_uuid photo_id)) _ _
          (λ e.
            Keeps-bind _ _
              (Keeps-attempt _
                (record { run = λ w c. remove-IsConsistent tools a.id photo_id w c }))
              λ r. Keeps-removed r)
          (λ e. Keeps-fail (answered 404 "photo_not_found"))
    where
      Keeps-removed :
          (r : Result (Unit {0})) → Keeps (Tabled IsConsistent) (removed passwords tools r)
      Keeps-removed (ok u) = Keeps-return tt
      Keeps-removed (err e) = Keeps-library_error passwords tools IsConsistent e

  pub Step-IsConsistent :
      {v w : World} → Step tools passwords v w → IsConsistent v.tables → IsConsistent w.tables
  Step-IsConsistent {v} (faults_ahead fs) c = c
  Step-IsConsistent {v} (authenticate now header) c =
      (Keeps-require_api_key tools.sha256 now header).run v c
  Step-IsConsistent {v} (create_folder now fresh random slugify body f g) c =
      post_folder-IsConsistent tools now fresh random slugify body v f g c
  Step-IsConsistent {v} (update_folder now id body) c =
      put_folder-IsConsistent tools now id body v c
  Step-IsConsistent {v} (delete_folder id) c = drop_folder-IsConsistent tools 0 id v c
  Step-IsConsistent {v} (create_album now fresh random slugify body) c =
      post_album-IsConsistent passwords tools now fresh random slugify body v c
  Step-IsConsistent {v} (update_album now id body) c =
      put_album-IsConsistent passwords tools now id body v c
  Step-IsConsistent {v} (delete_album id) c = drop_album-IsConsistent passwords tools id v c
  Step-IsConsistent {v} (order_photos id body) c = (Keeps-put_photo_order id body).run v c
  Step-IsConsistent {v} (delete_photo id photo_id) c = (Keeps-drop_photo id photo_id).run v c
  Step-IsConsistent {v} (upload_photo now fresh id body) c =
      (post_photo-IsConsistent tools passwords now fresh id body).run v c
  Step-IsConsistent {v} (replace_photo now fresh id i body) c =
      (put_photo-IsConsistent tools passwords now fresh id i body).run v c
  Step-IsConsistent {v} (drain_queue live failed) c = (drain-IsConsistent tools live failed).run v c
  Step-IsConsistent {v} (make_api_key base64 id label now random) c =
      (Keeps-create_key tools.sha256 base64 id label now random).run v c
  Step-IsConsistent {v} (end_api_key id now) c = (Keeps-revoke_key id now).run v c
  Step-IsConsistent {v} (change_password slug clear typed now) c =
      (Keeps-set_password passwords slug clear typed now).run v c
  Step-IsConsistent {v} (remove_album slug) c = (Keeps-delete_album_by_slug tools slug).run v c

  -- From tables that are consistent, whatever is requested in whatever order and whatever fails on the
  -- way, only consistent tables are reached: the unique columns, the foreign keys and the tree hold.
  pub Reach-IsConsistent :
      {v w : World} → Reach tools passwords v w → IsConsistent v.tables → IsConsistent w.tables
  Reach-IsConsistent here c = c
  Reach-IsConsistent (later r st) c = Step-IsConsistent st (Reach-IsConsistent r c)
