-- ===== src/World/Invariant.antt =====
-- What the operations on the world leave true of the tables. A statement keeps what it keeps when
-- it succeeds, and nothing else writes the tables.
use smugbox.World.{
  World, io, strike, query, execute, set_disk, set_tables, commit, Staged, remove_photo_dir,
  remove_album_dir, remove_variant,
}
use smugbox.Exec.{Result, ok, err, lift, gets, attempt, internal, ◌>>=◌}
use smugbox.Exec.Keeps.{
  Keeps, Keeps-bind, Keeps-lift, Keeps-gets, Keeps-return, Keeps-fail, Keeps-if,
}
use smugbox.Exec.Runs.{Runs, Runs_of_Keeps, Runs-bind, Post}
use smugbox.Db.{Tables}
use smugbox.Media.{Tools}
use smugbox.Storage.{Variant}
use smugbox.Storage.Disk.{StoredFile, put_file}
use smugbox.Common.{List, ◌≡◌, Text, Bool, ◌∷◌, [], refl, true, false}

abbrev pub Tabled : (Tables → Type 0) → World → Type 0
Tabled P w = P w.tables

module _ (P : Tables → Type 0) where
  strike-keeps : (fs : List Bool) (w : World) → P w.tables → P (strike fs w).1.tables
  strike-keeps [] w h = h
  strike-keeps (true ∷ fs) w h = h
  strike-keeps (false ∷ fs) w h = h

  pub Keeps-io : Keeps (Tabled P) io
  unfolding io
  Keeps-io = record { run = λ w h. strike-keeps w.faults w h }

  pub Keeps-set_disk : (f : List StoredFile → List StoredFile) → Keeps (Tabled P) (set_disk f)
  Keeps-set_disk f = record { run = λ w h. h }

  pub Keeps-query : {A : Type 0} (f : Tables → Result A) → Keeps (Tabled P) (query f)
  unfolding query
  Keeps-query f = Keeps-bind _ _ (Keeps-io) λ u. Keeps-bind _ _ (Keeps-gets _) λ r. Keeps-lift r

  executed :
      (f : Tables → Result Tables) (w : World) (r : Result Tables)
      → ((t' : Tables) → f w.tables ≡ ok t' → P t')
      → f w.tables ≡ r
      → P w.tables
      → P ((lift r >>= λ t. set_tables t) w).1.tables
  executed f w (ok t) k e h = k t e
  executed f w (err x) k e h = h

  struck :
      (f : Tables → Result Tables) (fs : List Bool) (w : World)
      → ((t' : Tables) → f w.tables ≡ ok t' → P t')
      → P w.tables
      → P
          ((strike fs >>= λ u.
              gets (λ (w : World). f w.tables) >>= λ r. lift r >>= λ t. set_tables t)
            w).1.tables
  struck f [] w k h = executed f w (f w.tables) k refl h
  struck f (true ∷ fs) w k h = h
  struck f (false ∷ fs) w k h = executed f (record w { faults = fs }) (f w.tables) k refl h

  -- A statement that keeps `P` where it succeeds, from a state with `Q`.
  pub execute-from :
      (Q : Tables → Type 0) (f : Tables → Result Tables)
      → ((t : Tables) → Q t → P t)
      → ((t t' : Tables) → Q t → f t ≡ ok t' → P t')
      → Runs (Tabled Q) (attempt (execute f)) (λ r. Tabled P) (Tabled P)
  unfolding execute io
  execute-from Q f weak k = record {
    run = λ w h. struck f w.faults w (λ t' e. k w.tables t' h e) (weak w.tables h);
  }

  pub Keeps-execute :
      (f : Tables → Result Tables)
      → ((t t' : Tables) → P t → f t ≡ ok t' → P t')
      → Keeps (Tabled P) (execute f)
  unfolding execute io
  Keeps-execute f k = record { run = λ w h. struck f w.faults w (λ t' e. k w.tables t' h e) h }

  -- The answer of a query is the one of the tables as they are.
  queried :
      {A : Type 0} (f : Tables → Result A) (w : World) (r : Result A)
      → f w.tables ≡ r
      → P w.tables
      → Post (λ a v. P v.tables × (f v.tables ≡ ok a)) (Tabled P) r w
  queried f w (ok a) e h = (h, e)
  queried f w (err x) e h = h

  query-struck :
      {A : Type 0} (f : Tables → Result A) (fs : List Bool) (w : World)
      → P w.tables
      → Post
          (λ a v. P v.tables × (f v.tables ≡ ok a))
          (Tabled P)
          ((strike fs >>= λ u. gets (λ (w : World). f w.tables) >>= λ r. lift r) w).0
          ((strike fs >>= λ u. gets (λ (w : World). f w.tables) >>= λ r. lift r) w).1
  query-struck f [] w h = queried f w (f w.tables) refl h
  query-struck f (true ∷ fs) w h = h
  query-struck f (false ∷ fs) w h = queried f (record w { faults = fs }) (f w.tables) refl h

  pub query-found :
      {A : Type 0} (f : Tables → Result A)
      → Runs (Tabled P) (query f) (λ a w. P w.tables × (f w.tables ≡ ok a)) (Tabled P)
  unfolding query io
  query-found f = record { run = λ w h. query-struck f w.faults w h }

  module _ (tools : Tools) where
    pub Keeps-remove_album_dir : (id : Text) → Keeps (Tabled P) (remove_album_dir tools id)
    unfolding remove_album_dir
    Keeps-remove_album_dir id =
        Keeps-bind _ _ (Keeps-lift _) λ d. Keeps-bind _ _ (Keeps-io) λ u. Keeps-set_disk _

    pub Keeps-remove_photo_dir : (a i : Text) → Keeps (Tabled P) (remove_photo_dir tools a i)
    unfolding remove_photo_dir
    Keeps-remove_photo_dir a i =
        Keeps-bind _ _ (Keeps-lift _) λ d. Keeps-bind _ _ (Keeps-io) λ u. Keeps-set_disk _

    pub Keeps-remove_variant :
        (a i : Text) (v : Variant) (mime : Text)
        → Keeps (Tabled P) (remove_variant tools a i v mime)
    unfolding remove_variant
    Keeps-remove_variant a i v mime =
        Keeps-bind _ _ (Keeps-lift _) λ p. Keeps-bind _ _ (Keeps-io) λ u. Keeps-set_disk _

    pub Keeps-commit :
        (st : Staged) (a i : Text) (v : Variant) (mime : Text)
        → Keeps (Tabled P) (commit tools st a i v mime)
    unfolding commit
    Keeps-commit st a i v mime =
        Keeps-if st.committed _ _ (λ e. Keeps-fail internal)
          (λ e. Keeps-bind _ _ (Keeps-lift _) λ dst. Keeps-bind _ _ (Keeps-io) λ u.
            Keeps-bind _ _ (Keeps-io) λ u. Keeps-bind _ _ (Keeps-io) λ u.
              Keeps-bind _ _ (Keeps-set_disk (put_file dst st.content))
                λ u. Keeps-return (record st { committed = true }))

-- A predicate that does not look at the faults to come.
abbrev pub Blind : (World → Type 0) → Type 0
Blind P = (w : World) (fs : List Bool) → P w → P (record w { faults = fs })

pub io-Keeps : (P : World → Type 0) → Blind P → Keeps P io
unfolding io
io-Keeps P blind = record { run = λ w h. struck w.faults w h }
  where
    struck : (fs : List Bool) (w : World) → P w → P (strike fs w).1
    struck [] w h = h
    struck (true ∷ fs) w h = blind w fs h
    struck (false ∷ fs) w h = blind w fs h

pub execute-Runs :
    (P Q : World → Type 0) (f : Tables → Result Tables)
    → Blind P
    → ((w : World) (t : Tables) → P w → f w.tables ≡ ok t → Q (record w { tables = t }))
    → Runs P (execute f) (λ u. Q) P
unfolding execute
execute-Runs P Q f blind k =
    Runs-bind (λ u. P) _ _ (Runs_of_Keeps (io-Keeps P blind))
      λ u. record { run = λ w h. written w (f w.tables) refl h }
  where
    written :
        (w : World) (r : Result Tables)
        → f w.tables ≡ r
        → P w
        → Post (λ u. Q) P ((lift r >>= λ t. set_tables t) w).0 ((lift r >>= λ t. set_tables t) w).1
    written w (ok t) e h = k w t h e
    written w (err x) e h = h

pub query-Keeps :
    (P : World → Type 0) → Blind P → {A : Type 0} (f : Tables → Result A) → Keeps P (query f)
unfolding query
query-Keeps P blind f =
    Keeps-bind _ _ (io-Keeps P blind)
      λ u. Keeps-bind (gets (λ w. f w.tables)) _ (record { run = λ w h. h }) λ r. Keeps-lift r
