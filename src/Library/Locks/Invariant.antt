-- ===== src/Library/Locks/Invariant.antt =====
-- What holds of the photo locks at all times.
use smugbox.Library.Locks.{
  Call, Stage, System, Step, Reach, ref, set_locked, unref, waiting, holding, leaving, enter,
  acquire, release, leave, start, later, new_locks, write_entry, ref_at,
}
use smugbox.Common.{
  ℕ, Text, Bool, Option, List, none, some, true, false, text_eq, text_eq_iff, text_eq_refl, ◌+◌,
  ◌&&◌, ◌≡◌, ◌<◌, arith, ◌∷◌, ◌++◌, All, [], subst, ap, All-append, ◌∙◌, refl, Bool-cases, sym, ◌-◌,
  ◌==◌, inl, inr,
}

abbrev pub on : Text → Call → Bool
on photo c = text_eq c.photo photo

abbrev pub is_holding : Stage → Bool
is_holding holding = true
is_holding s = false

abbrev pub holds : Text → Call → Bool
holds photo c = on photo c && is_holding c.stage

abbrev pub flag : Bool → ℕ
flag true = 1
flag false = 0

module _ {A : Type 0} where
  abbrev pub count : (A → Bool) → List A → ℕ
  count p [] = 0
  count p (x ∷ xs) = flag (p x) + count p xs

  pub count-append : (p : A → Bool) (xs ys : List A) → count p (xs ++ ys) ≡ count p xs + count p ys
  count-append p [] ys = omega arith
  count-append p (x ∷ xs) ys = omega (arith, count-append p xs ys)

-- The entry of a photo counts its calls, and its mutex is taken while one of them holds it.
pub record IsCounted (s : System) : Type 0 where
  pub pointed : All (λ c. s.locks.entries c.photo ≡ some c.address) s.calls
  pub absent : (p : Text) → s.locks.entries p ≡ none → count (on p) s.calls ≡ 0
  pub counted :
      (p : Text) (a : ℕ) → s.locks.entries p ≡ some a → (s.locks.heap a).refs ≡ count (on p) s.calls
  pub alive : (p : Text) (a : ℕ) → s.locks.entries p ≡ some a → 0 < (s.locks.heap a).refs
  pub held :
      (p : Text) (a : ℕ)
      → s.locks.entries p ≡ some a
      → flag (s.locks.heap a).locked ≡ count (holds p) s.calls
  pub below : (p : Text) (a : ℕ) → s.locks.entries p ≡ some a → a < s.locks.next
  pub apart : (p q : Text) (a : ℕ) → s.locks.entries p ≡ some a → s.locks.entries q ≡ some a → p ≡ q

All-middle :
    {A : Type 0} (P : A → Type 0) (xs ys : List A) (c : A)
    → All P (xs ++ c ∷ ys)
    → All P xs × P c × All P ys
All-middle P [] ys c h = (tt, h.0, h.1)
All-middle P (x ∷ xs) ys c h = let r = All-middle P xs ys c h.1 in ((h.0, r.0), r.1, r.2)

start-IsCounted : IsCounted (record { locks = new_locks; calls = [] })
start-IsCounted = record {
  pointed = tt;
  absent = λ p e. refl;
  counted = λ p a e. absurd (cc);
  alive = λ p a e. absurd (cc);
  held = λ p a e. absurd (cc);
  below = λ p a e. absurd (cc);
  apart = λ p q a e f. absurd (cc);
}

-- A step of one call `c`, which stands between `xs` and `ys`.
module _ (s : System) (v : IsCounted s) (xs ys : List Call) (c : Call)
    (split : s.calls ≡ xs ++ c ∷ ys) where
  abbrev Points : Call → Type 0
  Points c = s.locks.entries c.photo ≡ some c.address

  own : All Points xs × Points c × All Points ys
  own = All-middle Points xs ys c (subst (All Points) split v.pointed)

  tally : (p : Call → Bool) → count p s.calls ≡ count p xs + (flag (p c) + count p ys)
  tally p = ap (count p) split ∙ count-append p xs (c ∷ ys)

  holder_locked : c.stage ≡ holding → (s.locks.heap c.address).locked ≡ true
  holder_locked h =
      ground (arith, own.1, v.held c.photo c.address, tally (holds c.photo), text_eq_refl c.photo)

  pub unheld_free : count (holds c.photo) s.calls ≡ 0 → (s.locks.heap c.address).locked ≡ false
  unheld_free h = ground (arith, own.1, v.held c.photo c.address)

  pub free_unheld : (s.locks.heap c.address).locked ≡ false → count (holds c.photo) s.calls ≡ 0
  free_unheld h = ground (arith, own.1, v.held c.photo c.address)

  -- The mutex is taken or given back.
  pub moved-IsCounted :
      (b : Bool) (stage : Stage)
      → flag b + flag (is_holding c.stage)
        ≡ flag (s.locks.heap c.address).locked + flag (is_holding stage)
      → IsCounted (record {
        locks = set_locked b c.address s.locks;
        calls = xs ++ record c { stage = stage } ∷ ys;
      })
  unfolding set_locked
  moved-IsCounted b stage m = record {
    pointed = All-append Points xs (record c { stage = stage } ∷ ys) own.0 (own.1, own.2);
    absent = λ p e.
        ground (
          arith,
          v.absent p,
          tally (on p),
          count-append (on p) xs (record c { stage = stage } ∷ ys),
        );
    counted = λ p a e. ground (
      arith,
      v.counted p a,
      tally (on p),
      count-append (on p) xs (record c { stage = stage } ∷ ys),
    );
    alive = λ p a e. ground (arith, v.alive p a);
    held = λ p a e. ground (
      arith,
      m,
      own.1,
      v.held p a,
      v.held c.photo c.address,
      v.apart p c.photo a,
      text_eq_iff c.photo p,
      tally (holds p),
      count-append (holds p) xs (record c { stage = stage } ∷ ys),
    );
    below = v.below;
    apart = v.apart;
  }

  others :
      (zs : List Call)
      → All Points zs
      → count (on c.photo) zs ≡ 0
      → All (λ d. write_entry c.photo none s.locks.entries d.photo ≡ some d.address) zs
  others [] h n = tt
  others (d ∷ zs) h n = (ground (arith, n, h.0), others zs h.1 (ground (arith, n)))

  -- The call is over.
  pub left-IsCounted :
      c.stage ≡ leaving
      → IsCounted (record { locks = unref c.photo c.address s.locks; calls = xs ++ ys })
  unfolding unref
  left-IsCounted g = elim (Bool-cases ((s.locks.heap c.address).refs - 1 == 0)) [
    | inl last ↦ rw last (record {
      pointed =
          let none_left : count (on c.photo) xs + count (on c.photo) ys ≡ 0 = ground (
            arith,
            last,
            own.1,
            tally (on c.photo),
            v.counted c.photo c.address,
            text_eq_refl c.photo,
          ) in
          All-append (λ d. write_entry c.photo none s.locks.entries d.photo ≡ some d.address) xs ys
            (others xs own.0 (omega arith)) (others ys own.2 (omega arith));
      absent = λ p e. ground (
        arith,
        last,
        own.1,
        v.absent p,
        v.counted c.photo c.address,
        tally (on p),
        tally (on c.photo),
        count-append (on p) xs ys,
        count-append (on c.photo) xs ys,
        text_eq_iff p c.photo,
        text_eq_iff c.photo p,
        text_eq_refl c.photo,
      );
      counted = λ p a e. ground (
        arith,
        own.1,
        v.counted p a,
        v.apart p c.photo a,
        tally (on p),
        count-append (on p) xs ys,
        text_eq_iff c.photo p,
        text_eq_iff p c.photo,
      );
      alive =
          λ p a e. ground (arith, own.1, v.alive p a, v.apart p c.photo a, text_eq_iff p c.photo);
      held = λ p a e. ground (
        arith,
        g,
        own.1,
        v.held p a,
        v.apart p c.photo a,
        tally (holds p),
        count-append (holds p) xs ys,
        text_eq_iff p c.photo,
        text_eq_iff c.photo p,
      );
      below = λ p a e. ground (arith, v.below p a);
      apart = λ p q a e f. ground (arith, v.apart p q a);
    })
    | inr more ↦ rw more (record {
      pointed = All-append Points xs ys own.0 own.2;
      absent = λ p e. ground (arith, v.absent p, tally (on p), count-append (on p) xs ys);
      counted = λ p a e. ground (
        arith,
        own.1,
        v.counted p a,
        v.apart p c.photo a,
        tally (on p),
        count-append (on p) xs ys,
        text_eq_iff c.photo p,
      );
      alive = λ p a e. ground (arith, more, own.1, v.alive p a);
      held = λ p a e. ground (
        arith,
        g,
        own.1,
        v.held p a,
        v.apart p c.photo a,
        tally (holds p),
        count-append (holds p) xs ys,
        text_eq_iff c.photo p,
      );
      below = v.below;
      apart = v.apart;
    })
  ]

module _ (s : System) (v : IsCounted s) (photo : Text) where
  abbrev Entered : Option ℕ → Type 0
  Entered o =
      let (a, pl) = ref_at photo s.locks o in
      IsCounted (record {
        locks = pl;
        calls = record { photo = photo; address = a; stage = waiting } ∷ s.calls;
      })

  kept :
      (zs : List Call)
      → All (λ c. s.locks.entries c.photo ≡ some c.address) zs
      → s.locks.entries photo ≡ none
      → All (λ c. write_entry photo (some s.locks.next) s.locks.entries c.photo ≡ some c.address) zs
  kept [] h e = tt
  kept (d ∷ zs) h e = (ground (arith, e, h.0, text_eq_iff d.photo photo), kept zs h.1 e)

  entered : (o : Option ℕ) → s.locks.entries photo ≡ o → Entered o
  entered none n = record {
    pointed = (ground (arith, text_eq_refl photo), kept s.calls v.pointed n);
    absent = λ p e. ground (arith, v.absent p, text_eq_iff p photo, text_eq_iff photo p);
    counted = λ p a e. ground (
      arith,
      n,
      v.absent p,
      v.counted p a,
      v.below p a,
      text_eq_iff p photo,
      text_eq_iff photo p,
    );
    alive = λ p a e. ground (arith, v.alive p a, v.below p a);
    held = λ p a e.
        ground
          (arith, n, v.absent p, v.held p a, v.below p a, text_eq_iff p photo, none_held p s.calls);
    below = λ p a e. ground (arith, v.below p a);
    apart = λ p q a e f.
        ground (
          arith,
          v.apart p q a,
          v.below p a,
          v.below q a,
          text_eq_iff p photo,
          text_eq_iff q photo,
        );
  }
    where
      none_held : (p : Text) (zs : List Call) → count (on p) zs ≡ 0 → count (holds p) zs ≡ 0
      none_held p [] h = refl
      none_held p (c ∷ zs) h = ground (arith, h, none_held p zs)
  entered (some b) n = record {
    pointed = (n, v.pointed);
    absent = λ p e. ground (arith, n, v.absent p, text_eq_iff photo p);
    counted = λ p a e. ground (arith, n, v.counted p a, v.apart p photo a, text_eq_iff photo p);
    alive = λ p a e. ground (arith, v.alive p a);
    held = λ p a e. ground (arith, v.held p a);
    below = v.below;
    apart = v.apart;
  }

pub Step-IsCounted : {s t : System} → Step s t → IsCounted s → IsCounted t
unfolding ref
Step-IsCounted {s} (enter photo) v = entered s v photo (s.locks.entries photo) refl
Step-IsCounted {s} (acquire xs ys c e w free t) v =
    subst IsCounted (sym t) (moved-IsCounted s v xs ys c e true holding (rw (w, free) refl))
Step-IsCounted {s} (release xs ys c e h t) v =
    subst IsCounted (sym t)
      (moved-IsCounted s v xs ys c e false leaving (rw (h, holder_locked s v xs ys c e h) refl))
Step-IsCounted {s} (leave xs ys c e g t) v =
    subst IsCounted (sym t) (left-IsCounted s v xs ys c e g)

pub Reach-IsCounted : {s : System} → Reach s → IsCounted s
Reach-IsCounted start = start-IsCounted
Reach-IsCounted (later r st) = Step-IsCounted st (Reach-IsCounted r)
