-- ===== src/Exec/Keeps.antt =====
-- What an action leaves true, whether it returns or fails: one rule for each way to build one.
use smugbox.Exec.{
  Exec, return, Failure, Result, gets, attempt, ◌>>=◌, fail, lift, and_then, ok, err,
}
use smugbox.Common.{Bool, ◌≡◌, true, false, if◌then◌else◌, refl, Option, none, some}

pub record Keeps {S A : Type 0} (P : S → Type 0) (m : Exec S A) : Type 0 where
  pub run : (s : S) → P s → P (m s).1

module _ {S A : Type 0} {P : S → Type 0} where
  pub Keeps-if :
      (b : Bool) (yes_branch no_branch : Exec S A)
      → (b ≡ true → Keeps P yes_branch)
      → (b ≡ false → Keeps P no_branch)
      → Keeps P (if b then yes_branch else no_branch)
  Keeps-if true p q k l = k refl
  Keeps-if false p q k l = l refl

  pub Keeps-gets : (f : S → A) → Keeps P (gets f)
  Keeps-gets f = record { run = λ s h. h }

  pub Keeps-attempt : (m : Exec S A) → Keeps P m → Keeps P (attempt m)
  Keeps-attempt m k = record { run = k.run }

  pub Keeps-lift : (r : Result A) → Keeps P (lift r)
  Keeps-lift r = record { run = λ s h. h }

  pub Keeps-return : (a : A) → Keeps P (return a)
  Keeps-return a = record { run = λ s h. h }

  pub Keeps-fail : (e : Failure) → Keeps P (fail {A = A} e)
  Keeps-fail e = record { run = λ s h. h }

pub Keeps-option :
    {S A B : Type 0} {P : S → Type 0} (o : Option B) (m : Exec S A) (f : B → Exec S A)
    → Keeps P m
    → ((b : B) → Keeps P (f b))
    → Keeps P (elim o [ none ↦ m | some b ↦ f b ])
Keeps-option none m f k l = k
Keeps-option (some b) m f k l = l b

module _ {S A B : Type 0} {P : S → Type 0} where
  and_then-keeps :
      (r : Result A) (rest : A → Exec S B) (s : S)
      → ((a : A) → Keeps P (rest a))
      → P s
      → P (and_then r rest s).1
  and_then-keeps (ok a) rest s k h = (k a).run s h
  and_then-keeps (err e) rest s k h = h

  pub Keeps-bind :
      (first : Exec S A) (rest : A → Exec S B)
      → Keeps P first
      → ((a : A) → Keeps P (rest a))
      → Keeps P (first >>= rest)
  Keeps-bind first rest k l = record {
    run = λ s h. and_then-keeps (first s).0 rest (first s).1 l (k.run s h);
  }
