-- ===== src/Notify/JsonFile.antt =====
-- A JSON list in one file of the notify repository, as leaf/agent/notify/token_store.go and
-- device_registry.go keep it. encoding/json is the parameter `Json`; `Io` says whether the read of
-- the file and the commit fail.
use edge_sync.Base.{◌≡◌, List, [], Bool, true, false, Option, none, some, Text, arith}

pub data Error : Type 0 where
  garbled marshal_failed commit_failed name_exists name_unknown token_expired token_unknown : Error

pub data Result {ℓ} (A : Type ℓ) : Type ℓ where
  ok : A → Result A
  err : Error → Result A

infixl 5 ◌>>=◌
abbrev pub ◌>>=◌ {ℓ κ} : {A : Type ℓ} {B : Type κ} → Result A → (A → Result B) → Result B
ok a >>= f = f a
err e >>= f = err e

pub record Io : Type 0 where
  pub read_fails : Bool
  pub commit_fails : Bool

abbrev pub quiet : Io
quiet = record { read_fails = false; commit_fails = false }

pub record Json (A : Type 0) : Type 0 where
  pub encode : List A → Option Text
  pub decode : Text → Option (List A)

-- What was encoded is decoded again.
abbrev pub ReadsBack : {A : Type 0} → Json A → Type 0
ReadsBack {A} j = (xs : List A) → (t : Text) × (j.encode xs ≡ some t) × (j.decode t ≡ some xs)

module _ {A : Type 0} (j : Json A) where
  -- A file that cannot be read counts as an empty list.
  unfoldable pub read_list : Io → Option Text → Result (List A)
  read_list io file = elim io.read_fails [
    | true ↦ ok []
    | false ↦ elim file [
      | none ↦ ok []
      | some text ↦ elim (j.decode text) [ none ↦ err garbled | some xs ↦ ok xs ]
    ]
  ]

  -- The file after the commit.
  unfoldable pub commit_list : Io → List A → Result Text
  commit_list io xs = elim (j.encode xs) [
    | none ↦ err marshal_failed
    | some text ↦ elim io.commit_fails [ true ↦ err commit_failed | false ↦ ok text ]
  ]

  -- The file holds the list.
  abbrev pub Holds : Option Text → List A → Type 0
  Holds file xs = read_list quiet file ≡ ok xs

  -- A commit that goes through is read back.
  pub commit_list-Holds :
      ReadsBack j
      → (io : Io) (xs : List A) → io.commit_fails ≡ false
      → (t : Text) × (commit_list io xs ≡ ok t) × Holds (some t) xs
  unfolding commit_list read_list
  commit_list-Holds back io xs works = let (t, e, d) = back xs in (t, ground arith, ground arith)

  pub read_list-Holds :
      (io : Io) (file : Option Text) (xs : List A)
      → io.read_fails ≡ false
      → Holds file xs
      → read_list io file ≡ ok xs
  unfolding read_list
  read_list-Holds io file xs works h = ground arith
