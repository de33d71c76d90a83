-- ===== src/Api/Albums/Kept.antt =====
-- What the album handlers leave true of the tables, whatever fails on the way.
use smugbox.Api.Albums.{
  with_status, library_error, library_status, status_of, Passwords, AlbumInput, set_description,
  set_listed, first_password, change_password, new_album, album_from_path, prior_album,
  created_album, create_unless, post_album, set_cover, put_album, drop_album,
}
use smugbox.Api.{required_name, valid_idempotency_key, new_name, internal_error}
use smugbox.Api.Kept.{
  Keeps-or_internal, Keeps-found_or, Keeps-prior, Keeps-gone_or_internal, Keeps-parent_or,
  Keeps-with_unique_slug,
}
use smugbox.World.{World}
use smugbox.World.Invariant.{Tabled, Keeps-query, Keeps-execute, Keeps-remove_album_dir}
use smugbox.Exec.{Result, Failure, ok, err, lift, answered, key_taken, client}
use smugbox.Exec.Keeps.{
  Keeps, Keeps-return, Keeps-fail, Keeps-lift, Keeps-if, Keeps-bind, Keeps-attempt,
}
use smugbox.Db.{Album, Tables}
use smugbox.Db.Albums.{get_album, get_album_by_idempotency_key, update_album, delete_album}
use smugbox.Db.Photos.{get_photo}
use smugbox.Db.Consistent.{IsConsistent}
use smugbox.Db.Consistent.OfAlbums.{
  create_album-IsConsistent, update_album-IsConsistent, delete_album-IsConsistent,
}
use smugbox.Media.{Tools}
use smugbox.Common.{Text, Option, List, ℕ, none, some, [], String}

module _ (passwords : Passwords) (tools : Tools) where
  module _ (P : Tables → Type 0) where
    pub Keeps-album_from_path : (id : Text) → Keeps (Tabled P) (album_from_path passwords tools id)
    unfolding album_from_path
    Keeps-album_from_path id =
        Keeps-if _ _ _ (λ e. Keeps-fail (answered 404 "album_not_found"))
          (λ e.
            Keeps-bind _ _ (Keeps-attempt _ (Keeps-query P (get_album id)))
              λ r. Keeps-found_or P 404 "album_not_found" r)

    Keeps-with_status :
        (code : String) (o : Option ℕ) → Keeps (Tabled P) (with_status passwords tools code o)
    Keeps-with_status code none = Keeps-fail internal_error
    Keeps-with_status code (some st) = Keeps-fail (answered st code)

    pub Keeps-library_error : (e : Failure) → Keeps (Tabled P) (library_error passwords tools e)
    unfolding library_error
    Keeps-library_error (client code) = Keeps-with_status code (status_of code library_status)
    Keeps-library_error e = Keeps-fail internal_error

    Keeps-prior_album : (key : Text) → Keeps (Tabled P) (prior_album passwords tools key)
    unfolding prior_album
    Keeps-prior_album key =
        Keeps-if _ _ _ (λ e. Keeps-return none)
          (λ e.
            Keeps-bind _ _ (Keeps-attempt _ (Keeps-query P (get_album_by_idempotency_key key)))
              λ r. Keeps-prior P r)

    Keeps-created_album :
        (key : Text) (a : Text → Album) (r : Result Text)
        → Keeps (Tabled P) (created_album passwords tools key a r)
    unfolding created_album
    Keeps-created_album key a (ok slug) = Keeps-return (a slug)
    Keeps-created_album key a (err key_taken) =
        Keeps-bind _ _ (Keeps-attempt _ (Keeps-query P (get_album_by_idempotency_key key)))
          λ r. Keeps-or_internal P r
    Keeps-created_album key a (err e) = Keeps-fail internal_error

    Keeps-set_cover :
        (id : Option Text) (a : Album) → Keeps (Tabled P) (set_cover passwords tools id a)
    unfolding set_cover
    Keeps-set_cover none a = Keeps-return a
    Keeps-set_cover (some id) a =
        Keeps-if _ _ _ (λ e. Keeps-return (record a { cover_photo_id = [] }))
          (λ e. Keeps-bind _ _ (Keeps-attempt _ (Keeps-query P (get_photo a.id id))) λ r.
            Keeps-bind _ _ (Keeps-found_or P 422 "cover_photo_not_found" r)
              λ p. Keeps-return (record a { cover_photo_id = id }))

  Keeps-create_unless :
      (random : List ℕ) (slugify : Text → Text) (input : AlbumInput) (a : Album)
      (found : Option Album)
      → Keeps (Tabled IsConsistent) (create_unless passwords tools random slugify input a found)
  Keeps-create_unless random slugify input a (some b) = Keeps-return b
  Keeps-create_unless random slugify input a none =
      Keeps-bind (lift (set_description input.description a)) _ (Keeps-lift _) λ b.
        Keeps-bind (lift (first_password passwords input.password (set_listed input.is_listed b))) _
          (Keeps-lift _)
          λ d. Keeps-bind _ _ (Keeps-parent_or IsConsistent tools [] input.parent_id) λ parent.
            Keeps-bind _ _
              (Keeps-attempt _ (
                Keeps-with_unique_slug IsConsistent (slugify d.name) _
                  (λ slug. Keeps-execute IsConsistent _ (λ t t' c e.
                    create_album-IsConsistent (record d { folder_id = parent; slug = slug }) t t' c
                      e))
                  random))
              λ r.
                Keeps-created_album IsConsistent d.idempotency_key
                  (λ slug. record d { folder_id = parent; slug = slug }) r

  -- `createAlbum` keeps the tables consistent, whatever it is asked and whatever fails on the way.
  pub post_album-IsConsistent :
      (now : ℕ) (fresh : Text) (random : List ℕ) (slugify : Text → Text) (body : Result AlbumInput)
      (w : World)
      → IsConsistent w.tables
      → IsConsistent (post_album passwords tools now fresh random slugify body w).1.tables
  unfolding post_album
  post_album-IsConsistent now fresh random slugify body w c =
      (Keeps-bind (lift body) _ (Keeps-lift _) λ input.
          Keeps-bind (lift (required_name input.name)) _ (Keeps-lift _) λ name.
            Keeps-bind (lift (valid_idempotency_key input.idempotency_key)) _ (Keeps-lift _) λ key.
              Keeps-bind _ _ (Keeps-prior_album IsConsistent key) λ found.
                Keeps-create_unless random slugify input (new_album passwords now fresh name key)
                  found).run
        w c

  -- `updateAlbum` keeps the tables consistent, whatever it is asked and whatever fails on the way.
  pub put_album-IsConsistent :
      (now : ℕ) (id : Text) (body : Result AlbumInput) (w : World)
      → IsConsistent w.tables
      → IsConsistent (put_album passwords tools now id body w).1.tables
  unfolding put_album
  put_album-IsConsistent now id body w c =
      (Keeps-bind _ _ (Keeps-album_from_path IsConsistent id) λ a.
          Keeps-bind (lift body) _ (Keeps-lift _) λ input.
            Keeps-bind (lift (new_name a.name input.name)) _ (Keeps-lift _) λ name.
              Keeps-bind (lift (set_description input.description (record a { name = name }))) _
                (Keeps-lift _)
                λ b.
                  Keeps-bind _ _ (Keeps-parent_or IsConsistent tools b.folder_id input.parent_id)
                    λ parent.
                      Keeps-bind _ _
                        (Keeps-set_cover IsConsistent input.cover_photo_id
                          (record (set_listed input.is_listed b) { folder_id = parent }))
                        λ c.
                          Keeps-bind (lift (change_password passwords input.password c)) _
                            (Keeps-lift _)
                            λ d.
                              Keeps-bind _ _
                                (Keeps-attempt _ (
                                  Keeps-execute IsConsistent
                                    (update_album (record d { updated_at = now }))
                                    (λ t t' c e.
                                      update_album-IsConsistent (record d { updated_at = now }) t t'
                                        c e)))
                                λ r.
                                  Keeps-bind _ _ (Keeps-or_internal IsConsistent r)
                                    λ u. Keeps-return (record d { updated_at = now })).run
        w c

  -- `deleteAlbum` keeps the tables consistent, whatever fails on the way.
  pub drop_album-IsConsistent :
      (id : Text) (w : World)
      → IsConsistent w.tables
      → IsConsistent (drop_album passwords tools id w).1.tables
  unfolding drop_album
  drop_album-IsConsistent id w c =
      (Keeps-bind _ _ (Keeps-album_from_path IsConsistent id) λ a.
          Keeps-bind _ _
            (Keeps-attempt _ (
              Keeps-execute IsConsistent (delete_album a.id)
                (λ t t' c e. delete_album-IsConsistent a.id t t' c e)))
            λ r. Keeps-bind _ _ (Keeps-gone_or_internal IsConsistent r) λ u.
              Keeps-bind _ _ (Keeps-attempt _ (Keeps-remove_album_dir IsConsistent tools a.id))
                λ r. Keeps-return tt).run
        w c
