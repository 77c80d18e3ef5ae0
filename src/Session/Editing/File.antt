-- ===== src/Session/Editing/File.antt =====
-- packages/session/src/tools-edit.ts, editFile, with snapshot of checkpoints.ts, on the interface of a
-- workspace (packages/workspace/src/types.ts). `none` is a rejected promise. The event is left out.
use open_source_harness.Common.{
  ℕ, ◌≡◌, sym, ap, ◌∙◌, Bool, true, false, Option, none, some, List, Str, str_eq, inl, inr,
  Bool-cases, arith, if◌then◌else◌,
}
use open_source_harness.Common.Monad.{◌>>=◌, >>=-eq-some}
use open_source_harness.Session.Checkpoints.{checkpoint_path_for}
use open_source_harness.Session.Editing.{Edit, identical, not_found, ambiguous, edited, edit_text}

pub record Workspace : Type 1 where
  pub Files : Type 0
  pub Bytes : Type 0
  pub exists : Files → Str → Bool
  pub read_bytes : Files → Str → Option Bytes
  pub write : Files → Str → Bytes → Option Files
  -- text as bytes
  pub decode : Bytes → Str
  pub encode : Str → Bytes
  -- two paths that name one file
  pub same_file : Str → Str → Bool

pub data EditResult : Type 0 where
  no_such_file : EditResult
  refused : Edit → EditResult
  replaced : ℕ → Option Str → EditResult

module _ (workspace : Workspace) (posix_join : List Str → Str) where
  open workspace use {Files, Bytes, exists, read_bytes, write, decode, encode, same_file}

  -- A file that was written holds what was written, and no other file is touched.
  pub record WritesApart : Type 0 where
    pub read_written :
        (f g : Files) (p : Str) (b : Bytes) → write f p b ≡ some g → read_bytes g p ≡ some b
    pub read_other :
        (f g : Files) (p q : Str) (b : Bytes)
        → write f p b ≡ some g
        → same_file p q ≡ false
        → read_bytes g q ≡ read_bytes f q

  unfoldable pub snapshot : Files → Str → ℕ → Option (Files × Option Str)
  snapshot files file_path now =
      if exists files file_path
      then (do
        bytes ← read_bytes files file_path
        copied ← write files (checkpoint_path_for posix_join file_path now) bytes
        some (copied, some (checkpoint_path_for posix_join file_path now)))
      else some (files, none)

  -- from the refusals to the write
  unfoldable pub apply_edit : Files → Str → ℕ → Edit → Option (Files × EditResult)
  unfolding snapshot
  apply_edit files path now identical = some (files, refused identical)
  apply_edit files path now not_found = some (files, refused not_found)
  apply_edit files path now (ambiguous k) = some (files, refused (ambiguous k))
  apply_edit files path now (edited after k) = do
    taken ← snapshot files path now
    written ← write taken.0 path (encode after)
    some (written, replaced k taken.1)

  unfoldable pub edit_file : Files → Str → Str → Str → Bool → ℕ → Option (Files × EditResult)
  unfolding apply_edit
  edit_file files path old_string new_string replace_all now =
      if exists files path
      then (if str_eq old_string new_string then some (files, refused identical) else (do
        before ← read_bytes files path
        apply_edit files path now (edit_text old_string new_string replace_all (decode before))))
      else some (files, no_such_file)

  -- What an edit leaves behind: the text of the edit under the path, the old bytes under the name of
  -- the snapshot, and every other file as it was.
  pub record Undoable (f g : Files) (path undo after : Str) : Type 0 where
    pub original : Bytes
    pub was : read_bytes f path ≡ some original
    pub kept : read_bytes g undo ≡ some original
    pub now_holds : read_bytes g path ≡ some (encode after)
    pub others :
        (q : Str)
        → same_file path q ≡ false
        → same_file undo q ≡ false
        → read_bytes g q ≡ read_bytes f q

  written_after_snapshot :
      (laws : WritesApart) (f g h : Files) (path undo after : Str) (original : Bytes)
      → same_file path undo ≡ false
      → read_bytes f path ≡ some original
      → write f undo original ≡ some g
      → write g path (encode after) ≡ some h
      → Undoable f h path undo after
  written_after_snapshot laws f g h path undo after original apart was copied written = record {
    original = original;
    was = was;
    kept = laws.read_other g h path undo _ written apart ∙ laws.read_written f g undo _ copied;
    now_holds = laws.read_written g h path _ written;
    others =
        λ q p u. laws.read_other g h path q _ written p ∙ laws.read_other f g undo q _ copied u;
  }

  pub snapshot_inv :
      (f : Files) (path : Str) (now : ℕ) (taken : Files × Option Str)
      → exists f path ≡ true
      → snapshot f path now ≡ some taken
      → (original : Bytes) × (read_bytes f path ≡ some original)
        × (write f (checkpoint_path_for posix_join path now) original ≡ some taken.0)
        × (taken.1 ≡ some (checkpoint_path_for posix_join path now))
  unfolding snapshot
  snapshot_inv f path now taken there_ h =
      let (original, was, k) = >>=-eq-some (read_bytes f path) _ (rw there_ at h) in
      let (copied, done, e) =
        >>=-eq-some (write f (checkpoint_path_for posix_join path now) original) _ k in
      let same : (copied, some (checkpoint_path_for posix_join path now)) ≡ taken = cc in
      (original, was, done ∙ ap (λ t. some t.0) same, sym (ap (λ t. t.1) same))

  apply_inv :
      (laws : WritesApart) (f g : Files) (path : Str) (now k : ℕ) (undo : Option Str) (e : Edit)
      → same_file path (checkpoint_path_for posix_join path now) ≡ false
      → exists f path ≡ true
      → apply_edit f path now e ≡ some (g, replaced k undo)
      → (after : Str) × (e ≡ edited after k)
        × (undo ≡ some (checkpoint_path_for posix_join path now))
        × Undoable f g path (checkpoint_path_for posix_join path now) after
  unfolding apply_edit
  apply_inv laws f g path now k undo identical apart there_ h = absurd (ground arith)
  apply_inv laws f g path now k undo not_found apart there_ h = absurd (ground arith)
  apply_inv laws f g path now k undo (ambiguous n) apart there_ h = absurd (ground arith)
  apply_inv laws f g path now k undo (edited after n) apart there_ h =
      let (taken, snap, rest) = >>=-eq-some (snapshot f path now) _ h in
      let (written, done, e) = >>=-eq-some (write taken.0 path (encode after)) _ rest in
      let (original, was, copied, name) = snapshot_inv f path now taken there_ snap in
      let same : written ≡ g = cc in
      let count : n ≡ k = cc in
      let undone : taken.1 ≡ undo = cc in
      (
        after,
        ap (edited after) count,
        sym undone ∙ name,
        written_after_snapshot laws f taken.0 g path _ after original apart was copied
            (done ∙ ap some same),
      )

  -- An edit that is made can be undone: it writes the edited text of the file, and it has kept the
  -- bytes that the file held before under the name that it reports. No other file changes. This
  -- needs a snapshot's name to be another file than the one that is edited.
  pub edit_file-Undoable :
      (f g : Files) (path old_string new_string : Str) (replace_all : Bool) (now k : ℕ)
      (undo : Option Str)
      → WritesApart
      → same_file path (checkpoint_path_for posix_join path now) ≡ false
      → edit_file f path old_string new_string replace_all now ≡ some (g, replaced k undo)
      → (after : Str) × (undo ≡ some (checkpoint_path_for posix_join path now))
        × (u : Undoable f g path (checkpoint_path_for posix_join path now) after) × (edit_text
              old_string new_string replace_all
              (decode u.original)
            ≡ edited after k)
  unfolding edit_file
  edit_file-Undoable f g path old_string new_string replace_all now k undo laws apart h =
      elim (Bool-cases (exists f path)) [
        | inr missing ↦ absurd (ground arith)
        | inl there_ ↦ elim (Bool-cases (str_eq old_string new_string)) [
          | inl same ↦ absurd (ground arith)
          | inr differ ↦
              let (bytes, was, rest) =
                >>=-eq-some (read_bytes f path) _ (rw (there_, differ) at h) in
              let (after, made, name, u) =
                apply_inv laws f g path now k undo
                  (edit_text old_string new_string replace_all (decode bytes)) apart there_ rest in
              let same_bytes : bytes ≡ u.original = cc in
              (
                after,
                name,
                u,
                ap (λ b. edit_text old_string new_string replace_all (decode b)) (sym same_bytes)
                    ∙ made,
              )
        ]
      ]
