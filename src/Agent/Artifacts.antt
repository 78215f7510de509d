-- ===== src/Agent/Artifacts.antt =====
-- leaf/agent/code_artifact.go: the code-artifact methods of the agent. The repository of libfossil is
-- the parameter `Library`; the opts that Commit and Sync hand to it are values.
pub mod Chain
use edge_sync.Base.{
  Text, codes, is_empty, default_to, ℕ, Bool, true, false, not, Option, none, some, List, [], ◌∷◌,
  ◌++◌, ◌==◌, if◌then◌else◌,
}

-- The answer of BranchTip: a rid, the error of a query without rows, or another error.
pub data TipAnswer : Type 0 where
  at : ℕ → TipAnswer
  no_rows fault : TipAnswer

pub record File : Type 0 where
  pub name : Text
  pub content : Text

pub record Tag : Type 0 where
  pub name : Text
  pub value : Text

-- `CommitOpts` of the agent and of libfossil, whose Comment and User are `message` and `author`.
pub record CommitOpts : Type 0 where
  pub files : List File
  pub message : Text
  pub author : Text
  pub parent_id : ℕ
  pub merge_parents : List ℕ
  pub tags : List Tag

pub record SyncOpts : Type 0 where
  pub push : Bool
  pub pull : Bool
  pub user : Text
  pub password : Text
  pub project_code : Text

-- FilesSent and FilesRecvd of a result that is not nil.
pub record Counts : Type 0 where
  pub files_sent : ℕ
  pub files_recvd : ℕ

pub record SyncResult : Type 0 where
  pub pushed : ℕ
  pub pulled : ℕ
  pub forked : Bool
  pub branch_id : Text

-- The calls of the repository: `none` is an error. `transport` of a sync is `none` for the agent's own
-- and a URL for an HTTP transport; `detect_forks` gives the local tips.
pub record Library : Type 1 where
  pub State : Type 0
  pub branch_tip : Text → State → TipAnswer
  pub uuid_from_rid : ℕ → State → Option Text
  pub list_files : ℕ → State → Option (List Text)
  pub read_file_at : Text → Text → State → Option Text
  pub resolve_version : Text → State → Option ℕ
  pub diff : ℕ → ℕ → State → Option (List Text)
  pub commit : CommitOpts → State → Option (ℕ × Text × State)
  pub sync : Option Text → SyncOpts → State → Option (Option Counts × State)
  pub detect_forks : State → Option (List ℕ)
  pub config : Text → State → Option Text
  pub create_checkout : Text → State → Bool
  pub extract : ℕ → Text → State → Bool

pub data ArtifactError : Type 0 where
  author_required trunk_tip_failed commit_failed no_transport sync_failed hub_url_required :
      ArtifactError
  read_failed files_failed resolve_failed diff_failed tip_failed checkout_failed extract_failed :
      ArtifactError

pub data Result {ℓ} (A : Type ℓ) : Type ℓ where
  ok : A → Result A
  err : ArtifactError → Result A

abbrev pub trunk : Text
trunk = codes "trunk"

unfoldable pub counted : Option Counts → SyncResult
counted none = record { pushed = 0; pulled = 0; forked = false; branch_id = [] }
counted (some c) = record {
  pushed = c.files_sent;
  pulled = c.files_recvd;
  forked = false;
  branch_id = [];
}

module _ (L : Library) where
  unfoldable pub resolve_commit_parent : ℕ → L.State → Result ℕ
  resolve_commit_parent supplied s =
      if not (supplied == 0) then ok supplied else elim (L.branch_tip trunk s) [
        | at rid ↦ ok rid
        | no_rows ↦ ok 0
        | fault ↦ err trunk_tip_failed
      ]

  -- The new uuid and the repository after the commit, which stays as it is on an error.
  unfoldable pub commit_on : CommitOpts → L.State → Result ℕ → Result Text × L.State
  commit_on o s (err e) = (err e, s)
  commit_on o s (ok parent) = elim (L.commit (record o { parent_id = parent }) s) [
    | none ↦ (err commit_failed, s)
    | some (rid, uuid, s') ↦ (ok uuid, s')
  ]

  unfoldable pub commit : CommitOpts → L.State → Result Text × L.State
  commit o s =
      if is_empty o.author
      then (err author_required, s)
      else commit_on o s (resolve_commit_parent o.parent_id s)

  -- The uuid of the fork's local tip, if it can be read.
  unfoldable pub with_fork : List ℕ → L.State → SyncResult → SyncResult
  with_fork [] s out = out
  with_fork (tip ∷ tips) s out = elim (L.uuid_from_rid tip s) [
    | none ↦ record out { forked = true }
    | some uuid ↦ record out { forked = true; branch_id = uuid }
  ]

  unfoldable pub to_sync_result : Option Counts → L.State → SyncResult
  unfolding counted
  to_sync_result counts s =
      let out = counted counts in
      elim (L.detect_forks s) [ none ↦ out | some tips ↦ with_fork tips s out ]

  unfoldable pub synced : L.State → Option (Option Counts × L.State) → Result SyncResult × L.State
  synced s none = (err sync_failed, s)
  synced s (some (counts, s')) = (ok (to_sync_result counts s'), s')

  -- `opts` is what buildSyncOpts gives.
  unfoldable pub sync : Bool → SyncOpts → L.State → Result SyncResult × L.State
  sync has_transport opts s =
      if has_transport then synced s (L.sync none opts s) else (err no_transport, s)

  unfoldable pub sync_to : Text → Text → SyncOpts → L.State → Result SyncResult × L.State
  sync_to own_code hub_url opts s =
      if is_empty hub_url
      then (err hub_url_required, s)
      else synced s (
          L.sync (some hub_url)
            (record opts { project_code = default_to own_code opts.project_code }) s)

  unfoldable pub read : Text → L.State → Result Text
  read path s = elim (L.read_file_at trunk path s) [ none ↦ err read_failed | some t ↦ ok t ]

  unfoldable pub files : L.State → Result (List Text)
  files s = elim (L.branch_tip trunk s) [
    | no_rows ↦ err files_failed
    | fault ↦ err files_failed
    | at rid ↦
        if rid == 0
        then ok []
        else elim (L.list_files rid s) [ none ↦ err files_failed | some names ↦ ok names ]
  ]

  abbrev pub join : List Text → Text
  join [] = []
  join (t ∷ ts) = t ++ join ts

  unfoldable pub diff : Text → Text → L.State → Result Text
  diff rev_a rev_b s = elim (L.resolve_version rev_a s) [
    | none ↦ err resolve_failed
    | some a ↦ elim (L.resolve_version rev_b s) [
      | none ↦ err resolve_failed
      | some b ↦ elim (L.diff a b s) [ none ↦ err diff_failed | some parts ↦ ok (join parts) ]
    ]
  ]

  unfoldable pub tip : Text → L.State → Result Text
  tip branch s = elim (L.branch_tip branch s) [
    | no_rows ↦ ok []
    | fault ↦ err tip_failed
    | at rid ↦
        if rid == 0
        then ok []
        else elim (L.uuid_from_rid rid s) [ none ↦ err tip_failed | some uuid ↦ ok uuid ]
  ]

  -- Whether a checkout was opened, which is then closed, and the result.
  unfoldable pub extract_to : Text → Text → L.State → Bool × Result (Unit {0})
  extract_to dir rev s = if is_empty rev then (false, ok tt) else elim (L.resolve_version rev s) [
    | none ↦ (false, err resolve_failed)
    | some rid ↦
        if not (L.create_checkout dir s)
        then (false, err checkout_failed)
        else if L.extract rid dir s
        then (true, ok tt)
        else (true, err extract_failed)
  ]
