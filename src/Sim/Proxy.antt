-- ===== src/Sim/Proxy.antt =====
-- sim/proxy.go: the state of the fault proxy and its check of a new connection. Connections are
-- numbers; the forwarding of bytes is not modelled.
use edge_sync.Base.{
  ℕ, List, [], ◌∷◌, Bool, false, ◌||◌, ite, member, delete, Option, none, some, Text, text_eq,
  codes, ◌≡◌, refl, Option-cases, inl, inr, arith,
}

-- `partitions` holds the keys of the map, whose values are all true; `leaf_by_addr` has the last
-- write in front.
pub record FaultProxy : Type 0 where
  pub latency : ℕ
  pub partitions : List Text
  pub leaf_by_addr : List (Text × Text)
  pub conns : List ℕ

pub new_fault_proxy : FaultProxy
new_fault_proxy = record { latency = 0; partitions = []; leaf_by_addr = []; conns = [] }

pub register_leaf : Text → Text → FaultProxy → FaultProxy
register_leaf addr label p = record p { leaf_by_addr = (addr, label) ∷ p.leaf_by_addr }

unfoldable pub set_latency : ℕ → FaultProxy → FaultProxy
set_latency d p = record p { latency = d }

pub partition : Text → FaultProxy → FaultProxy
partition target p = record p { partitions = target ∷ p.partitions }

unfoldable pub heal : Text → FaultProxy → FaultProxy
heal target p = record p { partitions = delete target p.partitions }

unfoldable pub heal_all : FaultProxy → FaultProxy
heal_all p = record p { partitions = [] }

unfoldable pub drop_connections : FaultProxy → FaultProxy
drop_connections p = record p { conns = [] }

pub label_of : Text → List (Text × Text) → Option Text
label_of addr [] = none
label_of addr ((a, label) ∷ rest) = ite (text_eq a addr) (some label) (label_of addr rest)

abbrev pub star : Text
star = codes "*"

-- Whether `handleConn` turns a connection from the address away.
pub is_partitioned : Text → FaultProxy → Bool
unfolding label_of
is_partitioned addr p = member star p.partitions || (elim (label_of addr p.leaf_by_addr) [
  | none ↦ false
  | some label ↦ member label p.partitions
])

-- No partition, no latency.
abbrev pub IsClean : FaultProxy → Type 0
IsClean p = (p.partitions ≡ []) × (p.latency ≡ 0)

pub IsClean-new : IsClean new_fault_proxy
unfolding new_fault_proxy
IsClean-new = (refl, refl)

pub is_partitioned_clean :
    (addr : Text) (p : FaultProxy) → IsClean p → is_partitioned addr p ≡ false
unfolding is_partitioned member
is_partitioned_clean addr p (none_cut, fast) = elim (Option-cases (label_of addr p.leaf_by_addr)) [
  | inl e ↦ ground arith
  | inr (label, e) ↦ ground arith
]
