-- ===== src/Session/Editing/Workspaces.antt =====
-- packages/session/src/tools-edit.ts, editFile: a workspace that is a map from paths to texts, and an
-- edit of one of its files.
use open_source_harness.Session.Editing.Restore.{
  DirEntry, file, restore, restore_target, list_checkpoints, newest_first, place_newest,
  number_from, find_checkpoint, restored_from, Undone, restore_undoes_edit,
}
use open_source_harness.Common.{
  ◌||◌, ◌++◌, ◌+◌, drop, length, map, filter, ◌≡◌, refl, sym, ap, ◌∙◌, Bool, true, false, Option,
  none, some, List, [], ◌∷◌, Str, codes, str_eq, starts_with, includes, join, decimal,
}
use open_source_harness.Common.Dict.{keys, get, put, get-put, get-put_self}
use open_source_harness.Session.Checkpoints.{encode_path, checkpoint_path_for, checkpoint_dir}
use open_source_harness.Session.Editing.{pieces, expand, edited, edit_text}
use open_source_harness.Session.Editing.File.{
  Workspace, WritesApart, snapshot, apply_edit, edit_file, Undoable, edit_file-Undoable,
}

abbrev held : Option Str → Bool
held none = false
held (some text) = true

abbrev map_workspace : Workspace
map_workspace = record {
  Files = List (Str × Str);
  Bytes = Str;
  exists = λ files path. held (get path files);
  read_bytes = λ files path. get path files;
  write = λ files path bytes. some (put path bytes files);
  decode = λ bytes. bytes;
  encode = λ text. text;
  same_file = str_eq;
}

abbrev slashed : List Str → Str
slashed = join (codes "/")

some_inj : {a b : List (Str × Str)} → some a ≡ some b → a ≡ b
some_inj e = cc

map_workspace-WritesApart : WritesApart map_workspace slashed
map_workspace-WritesApart = record {
  read_written = λ f g p b e. ap (get p) (some_inj (sym e)) ∙ get-put_self p b f;
  read_other =
      λ f g p q b e apart. ap (get q) (some_inj (sym e)) ∙ (get-put p q b f ∙ rw apart refl);
}

abbrev files : List (Str × Str)
files = (codes "/a.ts", codes "let x = 1") ∷ (codes "/b.ts", codes "x") ∷ []

abbrev kept_as : Str
kept_as = checkpoint_path_for slashed (codes "/a.ts") 7

abbrev files_after : List (Str × Str)
files_after =
    (codes "/a.ts", codes "let y = 1")
    ∷ (codes "/b.ts", codes "x")
    ∷ (codes "/.checkpoints/a.ts/7.bak", codes "let x = 1")
    ∷ []

sealed : Unit {0}
unfolding restore restore_target list_checkpoints newest_first place_newest number_from
    find_checkpoint edit_file apply_edit snapshot edit_text pieces expand get put str_eq starts_with
    includes join decimal checkpoint_path_for encode_path checkpoint_dir
sealed = tt

edit_file-Undoable_example :
    (after : Str) × (some (codes "/.checkpoints/a.ts/7.bak") ≡ some kept_as)
    × (u : Undoable map_workspace slashed files files_after (codes "/a.ts") kept_as after)
    × (edit_text (codes "x") (codes "y") false u.original ≡ edited after 1)
unfolding sealed
edit_file-Undoable_example =
    edit_file-Undoable map_workspace slashed files files_after (codes "/a.ts") (codes "x")
      (codes "y") false 7 1 (some (codes "/.checkpoints/a.ts/7.bak")) map_workspace-WritesApart refl
      refl

-- the same with directories, which are there when they hold a file
abbrev has_path : Str → List Str → Bool
has_path path [] = false
has_path path (name ∷ names) =
    str_eq name path || starts_with name (path ++ codes "/") || has_path path names

abbrev tree_workspace : Workspace
tree_workspace = record map_workspace { exists = λ files path. has_path path (keys files) }

tree_workspace-WritesApart : WritesApart tree_workspace slashed
tree_workspace-WritesApart = record {
  read_written = map_workspace-WritesApart.read_written;
  read_other = map_workspace-WritesApart.read_other;
}

abbrev entries : List (Str × Str) → Str → Option (List DirEntry)
entries files dir = some (
    map (λ name. record { name = drop (length dir + 1) name; path = name; type = file })
      (filter (λ name. starts_with name (dir ++ codes "/")) (keys files)))

abbrev files_restored : List (Str × Str)
files_restored =
    (codes "/a.ts", codes "let x = 1")
    ∷ (codes "/b.ts", codes "x")
    ∷ (codes "/.checkpoints/a.ts/7.bak", codes "let x = 1")
    ∷ (codes "/.checkpoints/a.ts/9.bak", codes "let y = 1")
    ∷ []

restored :
    restore tree_workspace slashed entries files_after (codes "/a.ts") none 9
    ≡ some (files_restored, restored_from (codes "/.checkpoints/a.ts/7.bak"))
unfolding sealed
restored = refl

restore_undoes_edit_example :
    Undone tree_workspace slashed entries files files_after files_restored
      (codes "/a.ts")
      (checkpoint_path_for slashed (codes "/a.ts") 9)
unfolding sealed
restore_undoes_edit_example =
    restore_undoes_edit tree_workspace slashed entries files files_after files_restored
      (codes "/a.ts") (codes "x") (codes "y") (codes "/.checkpoints/a.ts/7.bak") false none 7 9 1
      tree_workspace-WritesApart refl refl refl refl

-- A restore in the millisecond of the snapshot finds in it what the file holds now.
at_once :
    restore tree_workspace slashed entries files_after (codes "/a.ts") none 7
    ≡ some (
      (codes "/a.ts", codes "let y = 1")
          ∷ (codes "/b.ts", codes "x")
          ∷ (codes "/.checkpoints/a.ts/7.bak", codes "let y = 1")
          ∷ [],
      restored_from (codes "/.checkpoints/a.ts/7.bak"),
    )
unfolding sealed
at_once = refl
