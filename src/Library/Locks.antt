-- ===== src/Library/Locks.antt =====
-- photoLocks (backend/internal/library/library.go): one mutex per photo, for as long as someone holds
-- or waits for it. A lock is an object at an address, since a caller keeps its pointer while the
-- entry of the map may come and go. What the code does under `mu` is one step; so is each Lock and
-- Unlock of a photo's mutex. `Call` is one call of `lock`, from its registration to the end of the
-- unlock that it returned.
pub mod Invariant
pub mod Refined
use smugbox.Common.{
  ℕ, Text, Bool, Option, List, none, some, true, false, if◌then◌else◌, text_eq, ◌==◌, ◌+◌, ◌-◌,
  ◌&&◌, ◌∷◌, ◌++◌, ◌≡◌, [],
}

pub record PhotoLock : Type 0 where
  pub locked : Bool
  pub refs : ℕ

-- `entries` is the map `m`; addresses from `next` on have not been given out.
pub record PhotoLocks : Type 0 where
  pub entries : Text → Option ℕ
  pub heap : ℕ → PhotoLock
  pub next : ℕ

abbrev pub new_locks : PhotoLocks
new_locks = record {
  entries = λ photo. none;
  heap = λ a. record { locked = false; refs = 0 };
  next = 0;
}

abbrev pub write_heap : ℕ → PhotoLock → (ℕ → PhotoLock) → ℕ → PhotoLock
write_heap a l heap b = if b == a then l else heap b

abbrev pub write_entry : Text → Option ℕ → (Text → Option ℕ) → Text → Option ℕ
write_entry photo o entries p = if text_eq p photo then o else entries p

abbrev pub ref_at : Text → PhotoLocks → Option ℕ → ℕ × PhotoLocks
ref_at photo pl (some a) =
    let l = pl.heap a in
    (a, record pl { heap = write_heap a (record l { refs = l.refs + 1 }) pl.heap })
ref_at photo pl none = (
  pl.next,
  record {
    entries = write_entry photo (some pl.next) pl.entries;
    heap = write_heap pl.next (record { locked = false; refs = 1 }) pl.heap;
    next = pl.next + 1;
  },
)

-- The part of `lock` under `mu`: the photo's lock, made if there is none, with one reference more.
unfoldable pub ref : Text → PhotoLocks → ℕ × PhotoLocks
ref photo pl = ref_at photo pl (pl.entries photo)

-- The mutex of one lock.
unfoldable pub set_locked : Bool → ℕ → PhotoLocks → PhotoLocks
set_locked b a pl = record pl { heap = write_heap a (record (pl.heap a) { locked = b }) pl.heap }

-- The part of the unlock under `mu`: the last reference takes the entry with it.
unfoldable pub unref : Text → ℕ → PhotoLocks → PhotoLocks
unref photo a pl =
    let l = pl.heap a in
    let heap = write_heap a (record l { refs = l.refs - 1 }) pl.heap in
    if l.refs - 1 == 0
    then record pl { heap = heap; entries = write_entry photo none pl.entries }
    else record pl { heap = heap }

pub data Stage : Type 0 where
  waiting holding leaving : Stage

pub record Call : Type 0 where
  pub photo : Text
  pub address : ℕ
  pub stage : Stage

pub record System : Type 0 where
  pub locks : PhotoLocks
  pub calls : List Call

-- The calls that are under way, in any order of their steps.
pub data Step (s : System) : System → Type 0 where
  enter :
      (photo : Text)
      → Step s (
          let (a, pl) = ref photo s.locks in
          record {
            locks = pl;
            calls = record { photo = photo; address = a; stage = waiting } ∷ s.calls;
          })
  acquire :
      (xs ys : List Call) (c : Call) {t : System}
      → s.calls ≡ xs ++ c ∷ ys
      → c.stage ≡ waiting
      → (s.locks.heap c.address).locked ≡ false
      → t ≡ record {
        locks = set_locked true c.address s.locks;
        calls = xs ++ record c { stage = holding } ∷ ys;
      }
      → Step s t
  release :
      (xs ys : List Call) (c : Call) {t : System}
      → s.calls ≡ xs ++ c ∷ ys
      → c.stage ≡ holding
      → t ≡ record {
        locks = set_locked false c.address s.locks;
        calls = xs ++ record c { stage = leaving } ∷ ys;
      }
      → Step s t
  leave :
      (xs ys : List Call) (c : Call) {t : System}
      → s.calls ≡ xs ++ c ∷ ys
      → c.stage ≡ leaving
      → t ≡ record { locks = unref c.photo c.address s.locks; calls = xs ++ ys }
      → Step s t

pub data Reach : System → Type 0 where
  start : Reach (record { locks = new_locks; calls = [] })
  later : {s t : System} → Reach s → Step s t → Reach t
