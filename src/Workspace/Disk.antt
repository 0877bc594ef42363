-- ===== src/Workspace/Disk.antt =====
-- The files of a workspace: `_checked_directory_metadata` and `_bounded_file_identity` of
-- benchhandoff/workspace.py. The file system answers call by call, so that two calls need not agree; an
-- OSError is the failure `operational`.
use benchhandoff.Prelude.{
  ℕ, zero, suc, ◌+◌, ◌-◌, ◌*◌, String, Bool, true, false, ◌&&◌, Option, none, some, List, [], ◌∷◌,
  ◌++◌, leb, eqb, if◌then◌else◌, length, ◌==◌, string_eq, list_eq, nat_eq,
}
use benchhandoff.Errors.{Failure, Result, ok, err, evidence_error, operational, require}
use benchhandoff.Text.{◌<>◌, utf8}
use benchhandoff.Codec.{Codec, Bytes}
use benchhandoff.Plan.{Identity}
use benchhandoff.Exec.{Exec, pure, lift, ◌>>=◌, ◌>>◌, resume_with, converting, finally, closing}
use benchhandoff.Workspace.{max_workspace_file_bytes, bytes_leb}

-- The bits of st_mode; a link is a symbolic link or a reparse point.
pub data Mode : Type 0 where
  directory_mode regular_mode link_mode other_mode : Mode

pub record Stat : Type 0 where
  pub device : ℕ
  pub inode : ℕ
  pub mode : Mode
  pub links : ℕ
  pub size : ℕ

pub record ObjectKey : Type 0 where
  pub device : ℕ
  pub inode : ℕ

abbrev pub object_key : Stat → ObjectKey
object_key s = record { device = s.device; inode = s.inode }

abbrev pub same_key : ObjectKey → ObjectKey → Bool
same_key k l = eqb k.device l.device && eqb k.inode l.inode

abbrev pub is_directory_mode : Mode → Bool
is_directory_mode directory_mode = true
is_directory_mode _ = false

abbrev is_regular_mode : Mode → Bool
is_regular_mode regular_mode = true
is_regular_mode _ = false

-- What a scan calls. `scandir` gives the names of a directory, which are texts without surrogates,
-- and `read_block` at most so many bytes of an open file, none at its end.
pub record FileSystem : Type 1 where
  pub World : Type 0
  pub lstat : String → Exec World Stat
  pub fstat : ℕ → Exec World Stat
  pub open_read : String → Exec World ℕ
  pub close : ℕ → Exec World (Unit {0})
  pub read_block : ℕ → ℕ → Exec World Bytes
  pub open_directory : String → Exec World ℕ
  pub names : ℕ → Exec World (List String)
  pub resolve : String → Exec World String
  pub read_regular_bytes : String → ℕ → Exec World Bytes

abbrev pub as_evidence : Failure → Failure
as_evidence operational = evidence_error
as_evidence e = e

-- A directory below the root, which is none itself, and one of its entries.
abbrev pub within : Option String → String → String
within none name = name
within (some relative) name = relative <> ("/" <> name)

abbrev pub full_path : String → Option String → String
full_path root none = root
full_path root (some relative) = if root == "/" then "/" <> relative else root <> ("/" <> relative)

-- names.sort(key=encode, reverse=True)
abbrev pub name_placed : Bool → String → String → List String → List String → List String
name_placed true n m inserted ns = n ∷ m ∷ ns
name_placed false n m inserted ns = m ∷ inserted

unfoldable pub insert_name : String → List String → List String
insert_name n [] = n ∷ []
insert_name n (m ∷ ns) = name_placed (bytes_leb (utf8 m) (utf8 n)) n m (insert_name n ns) ns

unfoldable pub sort_names : List String → List String
sort_names [] = []
sort_names (n ∷ ns) = insert_name n (sort_names ns)

abbrev pub block_bytes : ℕ
block_bytes = 1024 * 1024

abbrev pub min : ℕ → ℕ → ℕ
min a b = if leb a b then a else b

module _ (f : FileSystem) (c : Codec) (root_device : ℕ) where
  abbrev Act : Type 0 → Type 0
  Act A = Exec f.World A

  -- `_checked_directory_metadata`
  unfoldable pub checked_directory_metadata : String → Act ObjectKey
  checked_directory_metadata path = do
    s ← converting as_evidence (f.lstat path)
    lift (require (eqb s.device root_device) evidence_error)
    lift (require (is_directory_mode s.mode) evidence_error)
    pure (object_key s)

  -- What follows a block: none at the end of the file.
  unfoldable pub read_on : (Bytes → Act Bytes) → Bytes → Bytes → Act Bytes
  read_on next seen [] world = (ok seen, world)
  read_on next seen (byte ∷ block) world =
      resume_with (λ _. next (seen ++ byte ∷ block))
        (
          require (leb (length (seen ++ byte ∷ block)) max_workspace_file_bytes) evidence_error,
          world,
        )

  -- `while True`, for a number of rounds; a round that is not the last adds a byte at least.
  unfoldable pub read_blocks : ℕ → ℕ → Bytes → Act Bytes
  read_blocks zero handle seen world = (err evidence_error, world)
  read_blocks (suc rounds) handle seen world =
      resume_with (read_on (read_blocks rounds handle) seen)
        (f.read_block handle (min block_bytes (max_workspace_file_bytes - length seen + 1)) world)

  abbrev pub closed_unless : ℕ → Result Stat × f.World → Result Stat × f.World
  closed_unless handle (ok s, world) = (ok s, world)
  closed_unless handle (err e, world) = closing (err e) (f.close handle world)

  abbrev pub or_close : ℕ → Act Stat → Act Stat
  or_close handle body world = closed_unless handle (body world)

  unfoldable pub opened_valid : Stat → Stat → Bool
  opened_valid listed opened =
      is_regular_mode opened.mode
      && eqb opened.device root_device
      && same_key (object_key opened) (object_key listed)
      && eqb opened.links 1
      && leb opened.size max_workspace_file_bytes

  unfoldable pub status_of_open : Stat → ℕ → Act Stat
  status_of_open listed handle = do
    opened ← converting as_evidence (f.fstat handle)
    lift (require (opened_valid listed opened) evidence_error)
    pure opened

  unfoldable pub is_unchanged : Stat → Bytes → Stat → Stat → Bool
  is_unchanged opened content final current =
      same_key (object_key final) (object_key opened)
      && eqb final.size (length content)
      && eqb final.links 1
      && is_regular_mode current.mode
      && same_key (object_key current) (object_key opened)
      && eqb current.links 1

  -- The content of an open file, and its status after that.
  unfoldable pub hash_open : ℕ → Act (Bytes × Stat)
  hash_open handle = do
    content ← read_blocks (suc max_workspace_file_bytes) handle []
    final ← f.fstat handle
    pure (content, final)

  -- `_bounded_file_identity`
  unfoldable pub bounded_file_identity : String → Stat → Act Identity
  bounded_file_identity path listed = do
    handle ← converting as_evidence (f.open_read path)
    opened ← or_close handle (status_of_open listed handle)
    (content, final) ← converting as_evidence (finally (hash_open handle) (f.close handle))
    current ← converting as_evidence (f.lstat path)
    lift (require (is_unchanged opened content final current) evidence_error)
    pure (record { sha256 = c.sha256 content; size = length content })
