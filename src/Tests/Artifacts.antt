-- ===== src/Tests/Artifacts.antt =====
-- The code-artifact methods at concrete inputs. The repository is the list of its check-ins' uuids, the
-- latest first, of which each is the child of the next and the tip of the trunk.
use mathlib.Core.Option.{some-injective}
use edge_sync.Base.{
  Text, codes, ℕ, suc, ◌<◌, ◌≡◌, refl, subst, ◌⊎◌, false, Option, none, some, List, [], ◌∷◌, arith,
  ◌==◌, if◌then◌else◌, length,
}
use edge_sync.Agent.Artifacts.{
  TipAnswer, at, no_rows, CommitOpts, Library, ok, trunk, resolve_commit_parent, commit_on, commit,
  tip,
}
use edge_sync.Agent.Artifacts.Chain.{IsFossil, commit-tip}

abbrev tip_of : List Text → TipAnswer
tip_of [] = no_rows
tip_of (u ∷ us) = at (suc (length us))

abbrev uuid_at : ℕ → List Text → Option Text
uuid_at rid [] = none
uuid_at rid (u ∷ us) = let rest = uuid_at rid us in if rid == suc (length us) then some u else rest

abbrev line : Library
line = record {
  State = List Text;
  branch_tip = λ b s. tip_of s;
  uuid_from_rid = uuid_at;
  list_files = λ rid s. some [];
  read_file_at = λ b p s. none;
  resolve_version = λ v s. none;
  diff = λ a b s. none;
  commit = λ o s. some (suc (length s), o.message, o.message ∷ s);
  sync = λ t o s. none;
  detect_forks = λ s. none;
  config = λ k s. none;
  create_checkout = λ d s. false;
  extract = λ r d s. false;
}

newest : (u : Text) (us : List Text) → uuid_at (suc (length us)) (u ∷ us) ≡ some u
newest u us = ground arith

line_commit :
    (o : CommitOpts) (s s' : List Text) (rid : ℕ) (uuid : Text)
    → line.commit o s ≡ some (rid, uuid, s')
    → (tip_of s' ≡ at rid) × (uuid_at rid s' ≡ some uuid) × (0 < rid)
line_commit o s s' rid uuid e =
    subst
      (λ (t : ℕ × Text × List Text).
        (tip_of t.2 ≡ at t.0) × (uuid_at t.0 t.2 ≡ some t.1) × (0 < t.0))
      (some-injective _ _ e) (refl, newest o.message s, omega arith)

line_laws : IsFossil line
line_laws = record { commit_at_tip = λ o s s' rid uuid e n t. line_commit o s s' rid uuid e }

abbrev checkin : CommitOpts
checkin = record {
  files = [];
  message = codes "u2";
  author = codes "me";
  parent_id = 0;
  merge_parents = [];
  tags = [];
}

commit-tip_example :
    ((parent rid : ℕ) × (line.commit (record checkin { parent_id = parent }) (codes "u1" ∷ [])
        ≡ some (rid, codes "u2", codes "u2" ∷ codes "u1" ∷ []))
      × ((line.branch_tip trunk (codes "u1" ∷ []) ≡ at parent)
          ⊎ ((line.branch_tip trunk (codes "u1" ∷ []) ≡ no_rows) × (parent ≡ 0)))
      × (line.branch_tip trunk (codes "u2" ∷ codes "u1" ∷ []) ≡ at rid))
    × (tip line trunk (codes "u2" ∷ codes "u1" ∷ []) ≡ ok (codes "u2"))
unfolding commit commit_on resolve_commit_parent
commit-tip_example =
    commit-tip line line_laws checkin (codes "u1" ∷ []) (codes "u2" ∷ codes "u1" ∷ []) (codes "u2")
      refl refl refl
