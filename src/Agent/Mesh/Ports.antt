-- ===== src/Agent/Mesh/Ports.antt =====
-- The map from peers to ports without a key.
use edge_sync.Base.{
  ℕ, ◌≡◌, ◌≢◌, sym, inl, inr, subst, List, [], ◌∷◌, All, Elem, Text, text_eq, arith,
}
use edge_sync.Agent.Mesh.{without}

without_hit :
    (id x : Text) (p : ℕ) (ports : List (Text × ℕ))
    → x ≡ id
    → without id ((x, p) ∷ ports) ≡ without id ports
unfolding without
without_hit id x p ports h = ground arith

without_miss :
    (id x : Text) (p : ℕ) (ports : List (Text × ℕ))
    → x ≢ id
    → without id ((x, p) ∷ ports) ≡ (x, p) ∷ without id ports
unfolding without
without_miss id x p ports h = ground arith

pub All-without :
    (P : Text × ℕ → Type 0) (id : Text) (ports : List (Text × ℕ))
    → All P ports
    → All P (without id ports)
All-without P id [] h = unfold without in tt
All-without P id ((x, p) ∷ ports) h = elim (text_eq x id) [
  | yes e ↦ subst (All P) (sym (without_hit id x p ports e)) (All-without P id ports h.1)
  | no e ↦ subst (All P) (sym (without_miss id x p ports e)) (h.0, All-without P id ports h.1)
]

pub Elem-without :
    (q : Text × ℕ) (id : Text) (ports : List (Text × ℕ))
    → q.0 ≢ id
    → Elem q ports
    → Elem q (without id ports)
Elem-without q id [] ne m = absurd m
Elem-without q id ((x, p) ∷ ports) ne (inl same) =
    let other : x ≢ id = λ e. ne (cc) in
    subst (Elem q) (sym (without_miss id x p ports other)) (inl same)
Elem-without q id ((x, p) ∷ ports) ne (inr m) = elim (text_eq x id) [
  | yes e ↦ subst (Elem q) (sym (without_hit id x p ports e)) (Elem-without q id ports ne m)
  | no e ↦ subst (Elem q) (sym (without_miss id x p ports e)) (inr (Elem-without q id ports ne m))
]
