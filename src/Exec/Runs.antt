-- ===== src/Exec/Runs.antt =====
-- What an action leaves true when it returns, and what when it fails: `Runs P m Q E` says that from
-- a state with `P` it either returns some `a` in a state with `Q a`, or fails in one with `E`.
use smugbox.Exec.{Exec, Result, return, Failure, attempt, ◌>>=◌, fail, and_then, ok, err, lift}
use smugbox.Exec.Keeps.{Keeps}
use smugbox.Common.{Bool, ◌≡◌, true, false, if◌then◌else◌, refl}

module _ {S A : Type 0} where
  abbrev pub Post : (A → S → Type 0) → (S → Type 0) → Result A → S → Type 0
  Post Q E (ok a) s = Q a s
  Post Q E (err e) s = E s

  pub record Runs (P : S → Type 0) (m : Exec S A) (Q : A → S → Type 0) (E : S → Type 0)
      : Type 0 where
    pub run : (s : S) → P s → Post Q E (m s).0 (m s).1

  pub Runs_weaken :
      {P : S → Type 0} {m : Exec S A} {Q Q' : A → S → Type 0} {E E' : S → Type 0}
      → ((a : A) (s : S) → Q a s → Q' a s)
      → ((s : S) → E s → E' s)
      → Runs P m Q E
      → Runs P m Q' E'
  Runs_weaken {m} {Q} {Q'} {E} {E'} f g r = record {
    run = λ s h. weaken (m s).0 (m s).1 (r.run s h);
  }
    where
      weaken : (o : Result A) (s : S) → Post Q E o s → Post Q' E' o s
      weaken (ok a) s h = f a s h
      weaken (err e) s h = g s h

  pub Runs_before :
      {P P' : S → Type 0} {m : Exec S A} {Q : A → S → Type 0} {E : S → Type 0}
      → ((s : S) → P' s → P s)
      → Runs P m Q E
      → Runs P' m Q E
  Runs_before f r = record { run = λ s h. r.run s (f s h) }

  pub Runs-return :
      {P : S → Type 0} {Q : A → S → Type 0} {E : S → Type 0} (a : A)
      → ((s : S) → P s → Q a s)
      → Runs P (return a) Q E
  Runs-return a f = record { run = f }

  pub Runs-fail :
      {P : S → Type 0} {Q : A → S → Type 0} {E : S → Type 0} (e : Failure)
      → ((s : S) → P s → E s)
      → Runs P (fail e) Q E
  Runs-fail e f = record { run = f }

  pub Runs-if :
      {P : S → Type 0} {Q : A → S → Type 0} {E : S → Type 0} (b : Bool) (m n : Exec S A)
      → (b ≡ true → Runs P m Q E)
      → (b ≡ false → Runs P n Q E)
      → Runs P (if b then m else n) Q E
  Runs-if true m n f g = f refl
  Runs-if false m n f g = g refl

pub Runs-and :
    {S A : Type 0} {P : S → Type 0} {m : Exec S A} {Q Q' : A → S → Type 0} {E E' : S → Type 0}
    → Runs P m Q E
    → Runs P m Q' E'
    → Runs P m (λ a s. Q a s × Q' a s) (λ s. E s × E' s)
Runs-and {S} {A} {m} {Q} {Q'} {E} {E'} r q = record {
  run = λ s h. both (m s).0 (m s).1 (r.run s h) (q.run s h);
}
  where
    both :
        (o : Result A) (s : S)
        → Post Q E o s
        → Post Q' E' o s
        → Post (λ a s. Q a s × Q' a s) (λ s. E s × E' s) o s
    both (ok a) s h k = (h, k)
    both (err e) s h k = (h, k)

pub Runs_of_Keeps : {S A : Type 0} {P : S → Type 0} {m : Exec S A} → Keeps P m → Runs P m (λ a. P) P
Runs_of_Keeps {S} {A} {P} {m} k = record { run = λ s h. both (m s).0 (m s).1 (k.run s h) }
  where
    both : (o : Result A) (s : S) → P s → Post (λ a. P) P o s
    both (ok a) s h = h
    both (err e) s h = h

pub Keeps-of_Runs : {S A : Type 0} {P : S → Type 0} {m : Exec S A} → Runs P m (λ a. P) P → Keeps P m
Keeps-of_Runs {S} {A} {P} {m} r = record { run = λ s h. either (m s).0 (m s).1 (r.run s h) }
  where
    either : (o : Result A) (s : S) → Post (λ a. P) P o s → P s
    either (ok a) s h = h
    either (err e) s h = h

pub Runs-lift :
    {S A : Type 0} {P E : S → Type 0} (r : Result A)
    → ((s : S) → P s → E s)
    → Runs P (lift r) (λ a s. P s × (r ≡ ok a)) E
Runs-lift (ok a) f = record { run = λ s h. (h, refl) }
Runs-lift (err e) f = record { run = f }

pub Runs-attempt :
    {S A : Type 0} {P : S → Type 0} {Q : A → S → Type 0} {E F : S → Type 0} (m : Exec S A)
    → Runs P m Q E
    → Runs P (attempt m) (λ r s. Post Q E r s) F
Runs-attempt m r = record { run = r.run }

module _ {S A B : Type 0} {Q : B → S → Type 0} {E : S → Type 0} where
  bind-Post :
      (R : A → S → Type 0) (r : Result A) (f : A → Exec S B) (s : S)
      → ((a : A) → Runs (R a) (f a) Q E)
      → Post R E r s
      → Post Q E (and_then r f s).0 (and_then r f s).1
  bind-Post R (ok a) f s k h = (k a).run s h
  bind-Post R (err e) f s k h = h

  pub Runs-bind :
      {P : S → Type 0} (R : A → S → Type 0) (m : Exec S A) (f : A → Exec S B)
      → Runs P m R E
      → ((a : A) → Runs (R a) (f a) Q E)
      → Runs P (m >>= f) Q E
  Runs-bind R m f r k = record { run = λ s h. bind-Post R (m s).0 f (m s).1 k (r.run s h) }

-- A fact that does not depend on the state is at hand for the rest.
pub Runs-given :
    {S A : Type 0} {P E : S → Type 0} {m : Exec S A} {Q : A → S → Type 0} (F : Type 0)
    → (F → Runs P m Q E)
    → Runs (λ s. P s × F) m Q E
Runs-given F f = record { run = λ s h. (f h.1).run s h.0 }
