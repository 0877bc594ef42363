-- ===== src/Host.antt =====
-- What the engine sees of the machine, as an interface: the clock, the atomic file writes, and the
-- answers of the file system and of the operating system to its questions. Every operation may
-- change the hidden world, and may fail.
-- benchhandoff/storage.py: `atomic_write_bytes`, as its callers see it.
use benchhandoff.Prelude.{String, ◌≡◌, refl, ◌⊎◌, inl, inr}
use benchhandoff.Errors.{Failure}

-- How one atomic replacement of a file ends: it takes place, it raises and the old file stays, or it
-- takes place and then raises, when the directory cannot be synchronized.
pub data Replacement : Type 0 where
  replaced : Replacement
  kept_old : Failure → Replacement
  unsynced : Failure → Replacement

pub record Host : Type 1 where
  pub World : Type 0
  pub utc_now : World → String × World
  pub atomic_write : World → Replacement × World

pub Replacement-cases :
    (w : Replacement)
    → (w ≡ replaced) ⊎ ((e : Failure) × (w ≡ kept_old e)) ⊎ ((e : Failure) × (w ≡ unsynced e))
Replacement-cases replaced = inl refl
Replacement-cases (kept_old e) = inr (inl (e, refl))
Replacement-cases (unsynced e) = inr (inr (e, refl))
