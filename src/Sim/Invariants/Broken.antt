-- ===== src/Sim/Invariants/Broken.antt =====
-- What the checks of contents make of listings that break off.
use edge_sync.Base.{ℕ, ◌≡◌, refl, some, List, [], ◌∷◌, arith, All, All-imp, Text}
use edge_sync.Sim.Invariants.{
  list_blobs, came, Labelled, listed, check_blob_convergence, check_content_integrity,
}
use edge_sync.Sim.Invariants.Passes.{SameTexts}
use edge_sync.Sim.Invariants.Convergence.{Answers, Passed, Converged-check_blob_convergence}
use edge_sync.Sim.Invariants.Counts.{check_content_integrity_lem}

-- The query goes through, but no row of the listing comes.
abbrev pub IsCutShort : Labelled → Type 0
IsCutShort x = Answers list_blobs x × (x.1.breaks list_blobs ≡ some 0)

listed_cut : (x : Labelled) → IsCutShort x → listed x.1 ≡ []
unfolding listed came
listed_cut x h = ground (arith, h.1)

same_cut : (x y : Labelled) → IsCutShort x → IsCutShort y → SameTexts (listed y.1) (listed x.1)
same_cut x y h k u = rw (listed_cut x h, listed_cut y k) refl

-- If the listing of every repository breaks off in front of its first row, the checks of convergence
-- and of contents pass, whatever the repositories hold.
pub cut_listings_pass :
    (print : ℕ → Text) (server : Labelled) (leaves : List Labelled)
    → All IsCutShort (server ∷ leaves)
    → Passed (check_blob_convergence print (server ∷ leaves))
      × Passed (check_content_integrity print (server ∷ leaves))
cut_listings_pass print server leaves h = (
  Converged-check_blob_convergence print server leaves (All-imp (server ∷ leaves) (λ x k. k.0) h)
      (All-imp leaves (λ y k. same_cut server y h.0 k) h.1),
  (check_content_integrity_lem print server leaves).1 (h.0.0, rw (listed_cut server h.0) tt),
)
