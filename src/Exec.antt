-- ===== src/Exec.antt =====
-- Go functions that change state and may return an error: what was written before an error stays
-- written. The errors are the sentinels of backend/internal/db and backend/internal/storage, the
-- client errors of backend/internal/library by their codes, an answer that a handler has written (its
-- status and code), and one value for all others.
pub mod Keeps
pub mod Runs
use smugbox.Common.{ℕ, Bool, String}

pub data Failure : Type 0 where
  not_found slug_taken key_taken photo_exists invalid_id internal : Failure
  client : String → Failure
  answered : ℕ → String → Failure

pub data Result {ℓ} (A : Type ℓ) : Type ℓ where
  ok : A → Result A
  err : Failure → Result A

abbrev pub Exec : Type 0 → Type 0 → Type 0
Exec S A = S → Result A × S

module _ {S A : Type 0} where
  abbrev pub return : A → Exec S A
  return a s = (ok a, s)

  abbrev pub fail : Failure → Exec S A
  fail e s = (err e, s)

  abbrev pub lift : Result A → Exec S A
  lift r s = (r, s)

  abbrev pub gets : (S → A) → Exec S A
  gets f s = (ok (f s), s)

  -- The error as a value, for code that looks at it.
  abbrev pub attempt : Exec S A → Exec S (Result A)
  attempt m s = let (r, s') = m s in (ok r, s')

module _ {S A B : Type 0} where
  abbrev pub and_then : Result A → (A → Exec S B) → Exec S B
  and_then (ok a) f s = f a s
  and_then (err e) f s = (err e, s)

  infixl 5 ◌>>=◌ ◌>>◌
  abbrev pub ◌>>=◌ : Exec S A → (A → Exec S B) → Exec S B
  ◌>>=◌ m f s = let (r, s') = m s in and_then r f s'

  abbrev pub ◌>>◌ : Exec S A → Exec S B → Exec S B
  m >> k = m >>= λ _. k
