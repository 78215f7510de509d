-- ===== src/Agent/Mesh/Solicit.antt =====
-- Of two agents that know each other exactly one opens the tunnel.
use edge_sync.Base.{◌≡◌, ◌≢◌, refl, [], ◌∷◌, not, Text, arith, ℕ_discrete}
use edge_sync.Agent.Mesh.{peer, text_lt, should_solicit}

text_lt_flip : (a b : Text) → a ≢ b → text_lt b a ≡ not (text_lt a b)
unfolding text_lt
text_lt_flip [] [] ne = absurd (ne refl)
text_lt_flip [] (y ∷ b) ne = refl
text_lt_flip (x ∷ a) [] ne = refl
text_lt_flip (x ∷ a) (y ∷ b) ne = elim (ℕ_discrete x y) [
  | yes p ↦ let tails : a ≢ b = λ q. ne (cc) in ground (arith, text_lt_flip a b tails)
  | no p ↦ ground arith
]

-- Between two agents in the peer role with different ids exactly one solicits.
pub should_solicit_one :
    (a b : Text) → a ≢ b → should_solicit peer b a ≡ not (should_solicit peer a b)
unfolding should_solicit
should_solicit_one a b ne = text_lt_flip a b ne
