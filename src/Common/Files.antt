-- ===== src/Common/Files.antt =====
-- `atomic_write_json` of persistence.py, which the stores of JSON documents write with.
use mathlib.Core.Path.{◌≡◌, refl}
use mathlib.Core.Logic.{◌⊎◌, inl, inr}

-- What a write comes to: the new document stands in the file; the old one does; or the new one does, but
-- the call raised when it inspected the file or synchronized the directory after `os.replace`.
pub data Saved : Type 0 where
  saved refused unsynced : Saved

pub Saved-cases : (s : Saved) → (s ≡ Saved.saved) ⊎ (s ≡ Saved.refused) ⊎ (s ≡ Saved.unsynced)
Saved-cases Saved.saved = inl refl
Saved-cases Saved.refused = inr (inl refl)
Saved-cases Saved.unsynced = inr (inr refl)
