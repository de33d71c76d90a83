-- ===== src/Library/Render/Served.antt =====
-- A photo that Render marks ready has all its variants on the disk, rendered from its original there.
use smugbox.Library.Render.{resized}
use smugbox.Library.Render.Planned.{source_of}
use smugbox.Library.Render.Committed.{path_of, name_of}
use smugbox.Library.Renditions.{Rendition, needed, renditions, has_large, is_large}
use smugbox.Db.{Photo}
use smugbox.Storage.{FilePath, Variant, original, large, medium, small, thumb, blur, variant_name}
use smugbox.Storage.Confined.{filename-injective}
use smugbox.Storage.Disk.{StoredFile, read_file, remove_file, read_file-remove, path_eq}
use smugbox.Media.{Tools}
use smugbox.Common.{
  List, ◌≢◌, Pairwise, All, Text, ◌≡◌, true, false, some, arith, text_eq_iff, ◌∙◌, All-map, ◌∷◌,
  not, [], ◌||◌, text_eq, Pairwise-weaken, Option, text_eq_refl, refl,
}

module _ (tools : Tools) (p : Photo) where
  abbrev pub original_path : FilePath
  original_path = path_of tools p (name_of tools p original)

  -- Each variant that the photo needs is on the disk, as it is rendered from the original there.
  abbrev pub IsServed : List StoredFile → Type 0
  IsServed d =
      All
        (λ r.
          needed p r ≡ true
          → (c : Text) × (resized tools (source_of tools p original_path d) r ≡ some c)
            × (read_file (path_of tools p (name_of tools p r.variant)) d ≡ some c))
        renditions

  names_apart : (v w : Variant) → v ≢ w → name_of tools p v ≢ name_of tools p w
  names_apart v w n e = n (filename-injective v w p.mime_type p.mime_type e)

  -- Other variants have other names.
  names_differ :
      (v w : Variant)
      → text_eq (variant_name v) (variant_name w) ≡ false
      → name_of tools p v ≢ name_of tools p w
  names_differ v w n = names_apart v w (λ e. ground (arith, n, e, text_eq_refl (variant_name v)))

  pub renditions_apart :
      Pairwise (λ r q. name_of tools p r.variant ≢ name_of tools p q.variant) renditions
  unfolding text_eq
  renditions_apart =
      Pairwise-weaken (λ r q n. names_differ r.variant q.variant n) renditions
        (
          (refl, (refl, (refl, (refl, tt)))),
          ((refl, (refl, (refl, tt))), ((refl, (refl, tt)), ((refl, tt), (tt, tt)))),
        )

  pub original_apart :
      (o : Option Text)
      → All
          (λ r.
            All
              (λ (k : Text × Option Text). k.0 ≢ name_of tools p r.variant)
              ((name_of tools p original, o) ∷ []))
          renditions
  unfolding text_eq
  original_apart o = (
    (names_differ original thumb refl, tt),
    (
      (names_differ original large refl, tt),
      (
        (names_differ original medium refl, tt),
        ((names_differ original small refl, tt), ((names_differ original blur refl, tt), tt)),
      ),
    ),
  )

  name-path_eq : (m n : Text) → m ≢ n → path_eq (path_of tools p m) (path_of tools p n) ≡ false
  name-path_eq m n a = ground (arith, text_eq_iff m n)

  pub remove-IsServed :
      (d : List StoredFile)
      → has_large p ≡ false
      → IsServed d
      → IsServed (remove_file (path_of tools p (name_of tools p large)) d)
  remove-IsServed d no_large h = All-map kept renditions h
    where
      away :
          (v : Variant)
          → v ≢ large
          → read_file
              (path_of tools p (name_of tools p v))
              (remove_file (path_of tools p (name_of tools p large)) d)
            ≡ read_file (path_of tools p (name_of tools p v)) d
      away v n =
          read_file-remove (path_of tools p (name_of tools p large))
            (path_of tools p (name_of tools p v)) d
            (name-path_eq (name_of tools p v) (name_of tools p large) (names_apart v large n))

      cannot : (v : Variant) → (not (is_large v) || has_large p) ≡ true → v ≡ large → ⊥
      cannot v n q = ground (arith, n, q, no_large)

      kept :
          (r : Rendition)
          → (needed p r ≡ true
              → (c : Text) × (resized tools (source_of tools p original_path d) r ≡ some c)
                × (read_file (path_of tools p (name_of tools p r.variant)) d ≡ some c))
          → needed p r ≡ true
          → (c : Text) × (resized tools
                (source_of tools p original_path
                  (remove_file (path_of tools p (name_of tools p large)) d))
                r
              ≡ some c)
            × (read_file
                  (path_of tools p (name_of tools p r.variant))
                  (remove_file (path_of tools p (name_of tools p large)) d)
                ≡ some c)
      kept r s n =
          let (c, e, f) = s n in
          (
            c,
            rw (away original (λ e. absurd (cc))) e,
            away r.variant (λ q. cannot r.variant n q) ∙ f,
          )
