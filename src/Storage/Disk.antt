-- ===== src/Storage/Disk.antt =====
-- The directory photos/ as the files in it.
use smugbox.Storage.{FilePath}
use smugbox.Common.{
  Text, Bool, List, ◌≡◌, text_eq, ◌&&◌, Option, ◌∷◌, filter, true, if◌then◌else◌, false, none, not,
  ◌↔◌, Bool-cases, some, arith, inl, refl, [], text_eq_iff, inr,
}

pub record StoredFile : Type 0 where
  pub path : FilePath
  pub content : Text

abbrev pub in_dir : Text → Text → FilePath → Bool
in_dir album_id photo_id p = text_eq p.album_id album_id && text_eq p.photo_id photo_id

abbrev pub path_eq : FilePath → FilePath → Bool
path_eq p q = in_dir q.album_id q.photo_id p && text_eq p.name q.name

unfoldable pub read_file : FilePath → List StoredFile → Option Text
read_file p [] = none
read_file p (f ∷ fs) = if path_eq f.path p then some f.content else read_file p fs

-- os.Rename into place: an earlier file of that path is replaced.
unfoldable pub put_file : FilePath → Text → List StoredFile → List StoredFile
put_file p c fs = record { path = p; content = c } ∷ filter (λ f. not (path_eq f.path p)) fs

unfoldable pub remove_file : FilePath → List StoredFile → List StoredFile
remove_file p fs = filter (λ f. not (path_eq f.path p)) fs

unfoldable pub remove_photo_files : Text → Text → List StoredFile → List StoredFile
remove_photo_files album_id photo_id fs = filter (λ f. not (in_dir album_id photo_id f.path)) fs

unfoldable pub remove_album_files : Text → List StoredFile → List StoredFile
remove_album_files album_id fs = filter (λ f. not (text_eq f.path.album_id album_id)) fs

pub path_eq_iff : (p q : FilePath) → (path_eq p q ≡ true) ↔ (p ≡ q)
path_eq_iff p q = ground (
  arith,
  text_eq_iff p.album_id q.album_id,
  text_eq_iff p.photo_id q.photo_id,
  text_eq_iff p.name q.name,
)

read_file-filter :
    (keep : FilePath → Bool) (p : FilePath) (fs : List StoredFile)
    → keep p ≡ true
    → read_file p (filter (λ f. keep f.path) fs) ≡ read_file p fs
unfolding read_file
read_file-filter keep p [] h = refl
read_file-filter keep p (f ∷ fs) h = elim (Bool-cases (path_eq f.path p)) [
  | inl same ↦
      let here : f.path ≡ p = (path_eq_iff f.path p).0 same in
      let kept : keep f.path ≡ true = rw here h in rw (same, kept) (rw same refl)
  | inr other ↦ ground (arith, read_file-filter keep p fs h, other)
]

pub read_file-put :
    (p q : FilePath) (c : Text) (fs : List StoredFile)
    → read_file q (put_file p c fs) ≡ (if path_eq p q then some c else read_file q fs)
unfolding read_file put_file
read_file-put p q c fs = elim (Bool-cases (path_eq p q)) [
  | inl same ↦ rw same refl
  | inr other ↦ rw other (
      read_file-filter (λ r. not (path_eq r p)) q fs
        (ground (arith, other, path_eq_iff p q, path_eq_iff q p)))
]

pub read_file-remove :
    (p q : FilePath) (fs : List StoredFile)
    → path_eq q p ≡ false
    → read_file q (remove_file p fs) ≡ read_file q fs
unfolding remove_file
read_file-remove p q fs h = read_file-filter (λ r. not (path_eq r p)) q fs (rw h refl)

pub read_file-remove_photo :
    (a i : Text) (q : FilePath) (fs : List StoredFile)
    → in_dir a i q ≡ false
    → read_file q (remove_photo_files a i fs) ≡ read_file q fs
unfolding remove_photo_files
read_file-remove_photo a i q fs h = read_file-filter (λ r. not (in_dir a i r)) q fs (rw h refl)

pub read_file-remove_album :
    (a : Text) (q : FilePath) (fs : List StoredFile)
    → text_eq q.album_id a ≡ false
    → read_file q (remove_album_files a fs) ≡ read_file q fs
unfolding remove_album_files
read_file-remove_album a q fs h =
    read_file-filter (λ r. not (text_eq r.album_id a)) q fs (rw h refl)
