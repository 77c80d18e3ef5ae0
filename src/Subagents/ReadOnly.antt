-- ===== src/Subagents/ReadOnly.antt =====
-- packages/subagents/src/readonly.ts: a workspace that a scout cannot write to, over the interface of
-- packages/workspace/src/types.ts. A workspace is what its methods do to a state; a method that
-- rejects gives `none` or the error.
use open_source_harness.Common.{◌≡◌, refl, ◌∙◌, Bool, List, [], ◌∷◌, Str, codes}

-- `WorkspaceError`: a refusal of this wrapper, with the operation, or an error of the backing
pub data WorkspaceError (E : Type 0) : Type 0 where
  read_only_violation : Str → WorkspaceError E
  backing_error : E → WorkspaceError E

-- The types of the interface that this package does not look into.
pub record Types : Type 1 where
  pub State : Type 0
  pub Text : Type 0
  pub Bytes : Type 0
  pub Contents : Type 0
  pub Entries : Type 0
  pub ExecResult : Type 0
  pub SnapshotRef : Type 0
  pub Options : Type 0
  pub Capabilities : Type 0
  pub Failure : Type 0

module _ (types : Types) where
  open types use {
    State, Text, Bytes, Contents, Entries, ExecResult, SnapshotRef, Options, Capabilities, Failure,
  }

  pub data Outcome (A : Type 0) : Type 0 where
    resolves : State → A → Outcome A
    rejects : State → WorkspaceError Failure → Outcome A

  pub record Workspace : Type 0 where
    pub id : Str
    pub kind : Str
    pub capabilities : Capabilities
    pub start : State → Outcome (Unit {0})
    pub exec : State → Str → Options → Outcome ExecResult
    pub read : State → Str → Outcome Text
    pub read_bytes : State → Str → Outcome Bytes
    pub write : State → Str → Contents → Outcome (Unit {0})
    pub list : State → Str → Outcome Entries
    pub exists : State → Str → Outcome Bool
    pub mkdir : State → Str → Outcome (Unit {0})
    pub remove : State → Str → Options → Outcome (Unit {0})
    pub suspend : State → Outcome (Unit {0})
    pub resume : State → Outcome (Unit {0})
    pub snapshot : State → Outcome SnapshotRef
    pub dispose : State → Outcome (Unit {0})

  abbrev pub refuse : {A : Type 0} → Str → State → Outcome A
  refuse operation s = rejects s (read_only_violation operation)

  unfoldable pub read_only : Workspace → Workspace
  read_only workspace = record {
    id = workspace.id;
    kind = workspace.kind;
    capabilities = workspace.capabilities;
    start = workspace.start;
    exec = λ s command options. refuse (codes "run shell commands") s;
    read = workspace.read;
    read_bytes = workspace.read_bytes;
    write = λ s path contents. refuse (codes "write files") s;
    list = workspace.list;
    exists = workspace.exists;
    mkdir = λ s path. refuse (codes "create directories") s;
    remove = λ s path options. refuse (codes "delete files") s;
    suspend = λ s. refuse (codes "suspend the workspace") s;
    resume = λ s. refuse (codes "resume the workspace") s;
    snapshot = λ s. refuse (codes "snapshot the workspace") s;
    dispose = λ s. resolves s tt;
  }

  pub data WorkspaceCall : Type 0 where
    starts suspends resumes snapshots disposes : WorkspaceCall
    executes : Str → Options → WorkspaceCall
    reads reads_bytes lists tests makes_directory : Str → WorkspaceCall
    writes : Str → Contents → WorkspaceCall
    removes : Str → Options → WorkspaceCall

  abbrev pub state_of : {A : Type 0} → Outcome A → State
  state_of (resolves s a) = s
  state_of (rejects s e) = s

  -- the state that a call leaves
  unfoldable pub call_workspace : Workspace → State → WorkspaceCall → State
  call_workspace w s starts = state_of (w.start s)
  call_workspace w s suspends = state_of (w.suspend s)
  call_workspace w s resumes = state_of (w.resume s)
  call_workspace w s snapshots = state_of (w.snapshot s)
  call_workspace w s disposes = state_of (w.dispose s)
  call_workspace w s (executes command options) = state_of (w.exec s command options)
  call_workspace w s (reads path) = state_of (w.read s path)
  call_workspace w s (reads_bytes path) = state_of (w.read_bytes s path)
  call_workspace w s (lists path) = state_of (w.list s path)
  call_workspace w s (tests path) = state_of (w.exists s path)
  call_workspace w s (makes_directory path) = state_of (w.mkdir s path)
  call_workspace w s (writes path contents) = state_of (w.write s path contents)
  call_workspace w s (removes path options) = state_of (w.remove s path options)

  unfoldable pub call_all : Workspace → State → List WorkspaceCall → State
  unfolding call_workspace
  call_all w s [] = s
  call_all w s (call ∷ calls) = call_all w (call_workspace w s call) calls

  module _ {View : Type 0} (view : State → View) where
    -- The methods that read, and starting, leave what `view` shows as it was.
    pub record ReadsQuietly (w : Workspace) : Type 0 where
      pub start : (s : State) → view (state_of (w.start s)) ≡ view s
      pub read : (s : State) (path : Str) → view (state_of (w.read s path)) ≡ view s
      pub read_bytes : (s : State) (path : Str) → view (state_of (w.read_bytes s path)) ≡ view s
      pub list : (s : State) (path : Str) → view (state_of (w.list s path)) ≡ view s
      pub exists : (s : State) (path : Str) → view (state_of (w.exists s path)) ≡ view s

    call_quietly :
        (w : Workspace)
        → ReadsQuietly w
        → (s : State) (call : WorkspaceCall) → view (call_workspace (read_only w) s call) ≡ view s
    unfolding call_workspace read_only
    call_quietly w q s starts = q.start s
    call_quietly w q s (reads path) = q.read s path
    call_quietly w q s (reads_bytes path) = q.read_bytes s path
    call_quietly w q s (lists path) = q.list s path
    call_quietly w q s (tests path) = q.exists s path
    call_quietly w q s _ = refl

    -- Whatever a scout calls on its workspace, in whatever order, the files are those of before, shell
    -- commands, deletions and the end of the workspace included. This needs the reading methods of the
    -- workspace, and starting it, to leave the files as they are.
    pub read_only-contains :
        (w : Workspace) (s : State) (calls : List WorkspaceCall)
        → ReadsQuietly w
        → view (call_all (read_only w) s calls) ≡ view s
    unfolding call_all
    read_only-contains w s [] q = refl
    read_only-contains w s (call ∷ calls) q =
        read_only-contains w (call_workspace (read_only w) s call) calls q ∙ call_quietly w q s call
