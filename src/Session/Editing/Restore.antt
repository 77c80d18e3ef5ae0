-- ===== src/Session/Editing/Restore.antt =====
-- packages/session/src/checkpoints.ts, listCheckpoints and restore, and restoreFile of tools-edit.ts
-- without its event: the way back to a snapshot. `list` is that of the workspace.
use open_source_harness.Common.{
  ℕ, ◌+◌, ◌-◌, ◌*◌, ◌≡◌, sym, ap, ◌∙◌, inl, inr, Bool, true, false, ◌&&◌, Option, none, some, List,
  [], ◌∷◌, Str, str_eq, filter, map, leb, arith, Bool-cases, if◌then◌else◌,
}
use mathlib.Core.Option.{some-injective}
use open_source_harness.Common.Monad.{◌>>=◌, >>=-eq-some}
use open_source_harness.Session.Checkpoints.{checkpoint_dir, encode_path, checkpoint_path_for}
use open_source_harness.Session.Editing.File.{
  snapshot_inv, Workspace, WritesApart, snapshot, replaced, edit_file, edit_file-Undoable,
}

pub data EntryType : Type 0 where
  file directory other : EntryType

pub record DirEntry : Type 0 where
  pub name : Str
  pub path : Str
  pub type : EntryType

pub record Checkpoint : Type 0 where
  pub original_path : Str
  pub checkpoint_path : Str
  pub taken_at : ℕ

abbrev pub is_file : EntryType → Bool
is_file file = true
is_file directory = false
is_file other = false

abbrev pub is_digit : ℕ → Bool
is_digit c = leb 48 c && leb c 57

-- `Number(s)` of a text of digits, from the value of those before
unfoldable pub number_from : ℕ → Str → ℕ
number_from n [] = n
number_from n (c ∷ s) = number_from (n * 10 + (c - 48)) s

abbrev pub checkpoint_of : Str → DirEntry → Checkpoint
checkpoint_of file_path entry = record {
  original_path = file_path;
  checkpoint_path = entry.path;
  taken_at = number_from 0 (filter is_digit entry.name);
}

-- one step of the sort, newest first, which is stable
unfoldable pub place_newest : Checkpoint → List Checkpoint → List Checkpoint
place_newest c [] = c ∷ []
place_newest c (d ∷ ds) =
    let rest = place_newest c ds in if leb d.taken_at c.taken_at then c ∷ d ∷ ds else d ∷ rest

unfoldable pub newest_first : List Checkpoint → List Checkpoint
unfolding place_newest
newest_first [] = []
newest_first (c ∷ cs) = place_newest c (newest_first cs)

unfoldable pub find_checkpoint : Str → List Checkpoint → Option Checkpoint
find_checkpoint path [] = none
find_checkpoint path (c ∷ cs) =
    let rest = find_checkpoint path cs in if str_eq c.checkpoint_path path then some c else rest

abbrev pub first : List Checkpoint → Option Checkpoint
first [] = none
first (c ∷ cs) = some c

-- an empty path is no path
abbrev pub target_of : Option Str → List Checkpoint → Option Checkpoint
target_of none available = first available
target_of (some []) available = first available
target_of (some (c ∷ path)) available = find_checkpoint (c ∷ path) available

pub data RestoreResult : Type 0 where
  no_checkpoint : RestoreResult
  restored_from : Str → RestoreResult

module _ (workspace : Workspace) (posix_join : List Str → Str)
    (list : Workspace.Files workspace → Str → Option (List DirEntry)) where
  open workspace use {Files, Bytes, exists, read_bytes, write, decode, encode, same_file}

  unfoldable pub list_checkpoints : Files → Str → Option (List Checkpoint)
  unfolding newest_first number_from
  list_checkpoints files file_path =
      let dir = posix_join (checkpoint_dir ∷ encode_path file_path ∷ []) in
      if exists files dir
      then (do
        entries ← list files dir
        some (
            newest_first
              (map (checkpoint_of file_path) (filter (λ (e : DirEntry). is_file e.type) entries))))
      else some []

  unfoldable pub restore_target :
      Files → Str → ℕ → Option Checkpoint → Option (Files × RestoreResult)
  unfolding snapshot
  restore_target files file_path now none = some (files, no_checkpoint)
  restore_target files file_path now (some target) = do
    taken ← snapshot workspace posix_join files file_path now
    bytes ← read_bytes taken.0 target.checkpoint_path
    written ← write taken.0 file_path bytes
    some (written, restored_from target.checkpoint_path)

  unfoldable pub restore : Files → Str → Option Str → ℕ → Option (Files × RestoreResult)
  unfolding restore_target list_checkpoints find_checkpoint
  restore files file_path checkpoint_path now = do
    available ← list_checkpoints files file_path
    restore_target files file_path now (target_of checkpoint_path available)

  -- What a restore leaves behind, for a snapshot under `from` that holds `bytes`.
  pub record Restored (f g : Files) (path from kept : Str) : Type 0 where
    pub bytes : Bytes
    pub held : read_bytes f from ≡ some bytes
    pub now_holds : read_bytes g path ≡ some bytes
    pub kept_before :
        exists f path ≡ true → same_file path kept ≡ false → read_bytes g kept ≡ read_bytes f path

  snapshot_apart :
      (laws : WritesApart workspace posix_join) (f : Files) (path from : Str) (now : ℕ)
      (taken : Files × Option Str)
      → same_file (checkpoint_path_for posix_join path now) from ≡ false
      → snapshot workspace posix_join f path now ≡ some taken
      → read_bytes taken.0 from ≡ read_bytes f from
  unfolding snapshot
  snapshot_apart laws f path from now taken apart h = elim (Bool-cases (exists f path)) [
    | inl there_ ↦
        let (original, was, copied, name) =
          snapshot_inv workspace posix_join f path now taken there_ h in
        laws.read_other f taken.0 _ from original copied apart
    | inr missing ↦
        let same : some (f, none) ≡ some taken = rw (snapshot, missing) at h in
        ap (λ (t : Files × Option Str). read_bytes t.0 from) (sym (some-injective _ _ same))
  ]

  target-Restored :
      (laws : WritesApart workspace posix_join) (f g : Files) (path from : Str) (now : ℕ)
      (target : Option Checkpoint)
      → same_file (checkpoint_path_for posix_join path now) from ≡ false
      → restore_target f path now target ≡ some (g, restored_from from)
      → Restored f g path from (checkpoint_path_for posix_join path now)
  unfolding restore_target
  target-Restored laws f g path from now none apart h = absurd (ground arith)
  target-Restored laws f g path from now (some target) apart h =
      let (taken, snap, more) = >>=-eq-some (snapshot workspace posix_join f path now) _ h in
      let (bytes, held, rest) = >>=-eq-some (read_bytes taken.0 target.checkpoint_path) _ more in
      let (written, done, e) = >>=-eq-some (write taken.0 path bytes) _ rest in
      let same_files : written ≡ g = cc in
      let same_from : target.checkpoint_path ≡ from = cc in
      let wrote : write taken.0 path bytes ≡ some g = done ∙ ap some same_files in
      record {
        bytes = bytes;
        held =
            sym (snapshot_apart laws f path from now taken apart snap)
            ∙ ap (read_bytes taken.0) (sym same_from)
            ∙ held;
        now_holds = laws.read_written taken.0 g path bytes wrote;
        kept_before = λ there_ differ.
            let (original, was, copied, name) =
              snapshot_inv workspace posix_join f path now taken there_ snap in
            laws.read_other taken.0 g path _ bytes wrote differ
            ∙ laws.read_written f taken.0 _ original copied
            ∙ sym was;
      }

  restore-Restored :
      (laws : WritesApart workspace posix_join) (f g : Files) (path from : Str)
      (requested : Option Str) (now : ℕ)
      → same_file (checkpoint_path_for posix_join path now) from ≡ false
      → restore f path requested now ≡ some (g, restored_from from)
      → Restored f g path from (checkpoint_path_for posix_join path now)
  unfolding restore
  restore-Restored laws f g path from requested now apart h =
      let (available, listed, rest) = >>=-eq-some (list_checkpoints f path) _ h in
      target-Restored laws f g path from now (target_of requested available) apart rest

  -- What an edit and its undo leave behind together.
  pub record Undone (f g h : Files) (path kept : Str) : Type 0 where
    pub as_before : read_bytes h path ≡ read_bytes f path
    pub redo :
        exists g path ≡ true → same_file path kept ≡ false → read_bytes h kept ≡ read_bytes g path

  -- An edit and a restore from the snapshot that it reports bring back the bytes that the file held
  -- before the edit, and the edited bytes stand under the name of the snapshot that the restore
  -- takes, so the undo can be undone. This needs the second snapshot to have another name than the
  -- first, as it has at another time, and no snapshot to be the file itself.
  pub restore_undoes_edit :
      (f g h : Files) (path old_string new_string cp : Str) (replace_all : Bool)
      (requested : Option Str) (before now k : ℕ)
      → WritesApart workspace posix_join
      → same_file path (checkpoint_path_for posix_join path before) ≡ false
      → same_file (checkpoint_path_for posix_join path now) cp ≡ false
      → edit_file workspace posix_join f path old_string new_string replace_all before
        ≡ some (g, replaced k (some cp))
      → restore g path requested now ≡ some (h, restored_from cp)
      → Undone f g h path (checkpoint_path_for posix_join path now)
  restore_undoes_edit f g h path old_string new_string cp replace_all requested before now k laws
        apart again edits undoes =
      let (after, name, u, made) =
        edit_file-Undoable workspace posix_join f g path old_string new_string replace_all before k
          (some cp) laws apart edits in
      let same : cp ≡ checkpoint_path_for posix_join path before = cc in
      let r = restore-Restored laws g h path cp requested now again undoes in
      record {
        as_before = r.now_holds ∙ sym r.held ∙ ap (read_bytes g) same ∙ u.kept ∙ sym u.was;
        redo = r.kept_before;
      }
