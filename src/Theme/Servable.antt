-- ===== src/Theme/Servable.antt =====
-- What a theme that was loaded may serve.
use smugbox.Theme.{
  Dir, end, plain, folder, special, unreadable, locked, Manifest, Loaded, Theme, max_served_bytes,
  layouts, theme_json, theme_css, then_do, junk, content_type, put_file, skip, take_file, walk,
  nothing_loaded, read, theme_root, read_manifest, read_named, decoded_manifest, checked_manifest,
  with_default,
}
use smugbox.Exec.{Result, ok, err, internal}
use smugbox.Common.{
  ℕ, Text, List, ◌∷◌, trim_space, length, ◌++◌, Bool, Option, ◌+◌, [], ◌≡◌, is_some, is_empty, ◌≤◌,
  some, arith, true, All, text_eq, ◌≢◌, false, any, subst, if◌then◌else◌, ltb, text_eq_iff, ◌==◌,
  none, All-append, not, refl,
}

abbrev pub total : List (Text × Text) → ℕ
total [] = 0
total ((p, c) ∷ files) = length c + total files

total-append :
    (xs : List (Text × Text)) (p c : Text) → total (xs ++ (p, c) ∷ []) ≡ total xs + length c
total-append [] p c = omega arith
total-append ((q, d) ∷ xs) p c = omega (arith, total-append xs p c)

-- What a result promises where it is no error.
abbrev Gives : {A : Type 0} → (A → Type 0) → Result A → Type 0
Gives P (ok a) = P a
Gives P (err e) = Unit {0}

Gives-then :
    {A B : Type 0} (P : A → Type 0) (Q : B → Type 0) (r : Result A) (f : A → Result B)
    → Gives P r
    → ((a : A) → P a → Gives Q (f a))
    → Gives Q (then_do r f)
Gives-then P Q (ok a) f h k = k a h
Gives-then P Q (err e) f h k = tt

Gives-if :
    {A : Type 0} (P : A → Type 0) (b : Bool) (r s : Result A)
    → (b ≡ true → Gives P r)
    → (b ≡ false → Gives P s)
    → Gives P (if b then r else s)
Gives-if P true r s h k = h refl
Gives-if P false r s h k = k refl

module _ (decode : Text → Option Manifest) (lower : Text → Text) where
  -- A file that may be served: of a kind that has a Content-Type, and not the manifest.
  abbrev pub IsServedFile : Text × Text → Type 0
  IsServedFile f = (is_some (content_type decode lower f.0) ≡ true) × (f.0 ≢ theme_json)

  record IsLoaded (st : Loaded) : Type 0 where
    budget : total st.files + st.remaining ≡ max_served_bytes
    served : All IsServedFile st.files

  skip-IsLoaded : (p : Text) (st : Loaded) → IsLoaded st → Gives IsLoaded (skip decode lower p st)
  skip-IsLoaded p st h = record { budget = h.budget; served = h.served }

  put_file-IsLoaded :
      (p c : Text) (st : Loaded)
      → is_some (content_type decode lower p) ≡ true
      → p ≢ theme_json
      → IsLoaded st
      → Gives IsLoaded (put_file decode lower p c st)
  put_file-IsLoaded p c st k n h =
      Gives-if IsLoaded (ltb st.remaining (length c)) _ _ (λ e. tt)
        λ e. record {
          budget =
              omega
                (arith, h.budget, total-append st.files p c, ltb-false st.remaining (length c) e);
          served = All-append IsServedFile st.files ((p, c) ∷ []) h.served ((k, n), tt);
        }
    where
      ltb-false : (a b : ℕ) → ltb a b ≡ false → b ≤ a
      ltb-false a b e = ground (arith, e)

  take_file-IsLoaded :
      (p : Text) (reading : Loaded → Result Loaded) (st : Loaded)
      → IsLoaded st
      → (is_some (content_type decode lower p) ≡ true
          → p ≢ theme_json
          → Gives IsLoaded (reading st))
      → Gives IsLoaded (take_file decode lower p reading st)
  take_file-IsLoaded p reading st h k =
      Gives-if IsLoaded (text_eq p theme_json) _ _ (λ e. h)
        λ e.
          Gives-if IsLoaded (is_some (content_type decode lower p)) _ _
            (λ s. k s (λ q. absurd (differ q e))) (λ s. skip-IsLoaded p st h)
    where
      differ : p ≡ theme_json → text_eq p theme_json ≡ false → ⊥
      differ q e = ground (arith, e, text_eq_iff p theme_json, q)

  walk-IsLoaded :
      (at : Text) (d : Dir) (st : Loaded) → IsLoaded st → Gives IsLoaded (walk decode lower at d st)
  unfolding walk
  walk-IsLoaded at end st h = h
  walk-IsLoaded at (plain n c rest) st h =
      Gives-then IsLoaded IsLoaded _ _
        (Gives-if IsLoaded (junk n) _ _ (λ e. h)
          (λ e.
            take_file-IsLoaded (at ++ n) (put_file decode lower (at ++ n) c) st h
              (λ k m. put_file-IsLoaded (at ++ n) c st k m h)))
        (λ s. walk-IsLoaded at rest s)
  walk-IsLoaded at (folder n inside rest) st h =
      Gives-then IsLoaded IsLoaded _ _
        (Gives-if IsLoaded (junk n) _ _ (λ e. h)
          (λ e. walk-IsLoaded (at ++ (n ++ (b'/' ∷ []))) inside st h))
        (λ s. walk-IsLoaded at rest s)
  walk-IsLoaded at (special n o rest) st h =
      Gives-then IsLoaded IsLoaded _ _
        (Gives-if IsLoaded (junk n) _ _ (λ e. h)
          (λ e.
            Gives-if IsLoaded (text_eq (at ++ n) theme_json) _ _ (λ e. h)
              (λ e. skip-IsLoaded (at ++ n) st h)))
        (λ s. walk-IsLoaded at rest s)
  walk-IsLoaded at (unreadable n rest) st h =
      Gives-then IsLoaded IsLoaded _ _
        (Gives-if IsLoaded (junk n) _ _ (λ e. h)
          (λ e. take_file-IsLoaded (at ++ n) (λ s. err internal) st h (λ k m. tt)))
        (λ s. walk-IsLoaded at rest s)
  walk-IsLoaded at (locked n rest) st h =
      Gives-then IsLoaded IsLoaded _ _ (Gives-if IsLoaded (junk n) _ _ (λ e. h) (λ e. tt))
        (λ s. walk-IsLoaded at rest s)

  -- A manifest of this version that has a name and a known layout.
  pub record IsValid (m : Manifest) : Type 0 where
    pub version : m.smugbox ≡ 1
    pub named : trim_space m.name ≢ []
    pub layout : any (λ l. text_eq l m.gallery) layouts ≡ true

  checked-IsValid : (m : Manifest) → Gives IsValid (checked_manifest m)
  checked-IsValid m =
      Gives-if IsValid (m.smugbox == 0) _ _ (λ e. tt)
        λ e.
          Gives-if IsValid (not (m.smugbox == 1)) _ _ (λ e. tt)
            λ v.
              Gives-if IsValid (is_empty (trim_space m.name)) _ _ (λ e. tt)
                λ n.
                  Gives-if IsValid (not (any (λ l. text_eq l m.gallery) layouts)) _ _ (λ e. tt)
                    λ l. record {
                      version = ground (arith, v);
                      named = λ q. filled (trim_space m.name) n q;
                      layout = ground (arith, l);
                    }
    where
      filled : (s : Text) → is_empty s ≡ false → s ≢ []
      filled [] e q = absurd (cc)
      filled (c ∷ s) e q = absurd (cc)

  decoded-IsValid : (o : Option Manifest) → Gives IsValid (decoded_manifest o)
  decoded-IsValid none = tt
  decoded-IsValid (some m) = checked-IsValid (with_default m)

  read_manifest-IsValid : (d : Dir) → Gives IsValid (read_manifest decode lower d)
  unfolding read_manifest
  read_manifest-IsValid d =
      Gives-then (λ c. Unit {0}) IsValid _ _ (any_result (read_named theme_json _ d))
        (λ c h. decoded-IsValid (decode c))
    where
      any_result : (r : Result Text) → Gives (λ c. Unit {0}) r
      any_result (ok c) = tt
      any_result (err e) = tt

  pub record IsServable (t : Theme) : Type 0 where
    pub manifest : IsValid t.manifest
    pub size : total t.files ≤ 10485760
    pub files : All IsServedFile t.files
    pub css : any (λ (f : Text × Text). text_eq f.0 theme_css) t.files ≡ true

  read-Gives : (d : Dir) → Gives IsServable (read decode lower d)
  unfolding read
  read-Gives d =
      Gives-then (λ r. Unit {0}) IsServable (theme_root d) _ (any_result (theme_root d))
        λ root u.
          Gives-then IsValid IsServable (read_manifest decode lower root) _
            (read_manifest-IsValid root)
            λ m v.
              Gives-then IsLoaded IsServable
                (walk decode lower [] root (nothing_loaded decode lower)) _
                (walk-IsLoaded [] root (nothing_loaded decode lower)
                  (record { budget = refl; served = tt }))
                λ st h.
                  Gives-if IsServable (any (λ (f : Text × Text). text_eq f.0 theme_css) st.files) _
                    _
                    (λ e. record {
                      manifest = v;
                      size = omega (arith, h.budget);
                      files = h.served;
                      css = e;
                    })
                    (λ e. tt)
    where
      any_result : (r : Result Dir) → Gives (λ c. Unit {0}) r
      any_result (ok c) = tt
      any_result (err e) = tt

  -- A theme that loads has a manifest of the supported version with a name and a known layout, has a
  -- theme.css, and serves at most 10 MB in files of the listed kinds, and never the manifest.
  pub read-IsServable : (d : Dir) (t : Theme) → read decode lower d ≡ ok t → IsServable t
  read-IsServable d t e = subst (Gives IsServable) e (read-Gives d)
