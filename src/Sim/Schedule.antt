-- ===== src/Sim/Schedule.antt =====
-- sim/schedule.go and the loops of sim/harness.go that play a schedule. Times are nanoseconds.
-- math/rand is the parameter `intn`, whose first argument counts the calls; `leaf_label` is
-- fmt.Sprintf and `sort_slice` is sort.Slice by time.
pub mod Heals
use edge_sync.Base.{
  ℕ, zero, suc, ◌+◌, ◌*◌, List, [], ◌∷◌, ◌++◌, Bool, true, false, ltb, if◌then◌else◌, Text, codes,
}
use edge_sync.Sim.Proxy
use edge_sync.Sim.Proxy.{FaultProxy, set_latency, drop_connections}

pub data FaultType : Type 0 where
  partition heal_partition latency heal_latency : FaultType
  drop_conns bridge_restart leaf_restart heal_all : FaultType

-- Any other integer is `unnamed`.
pub data Level : Type 0 where
  normal adversarial hostile unnamed : Level

pub record FaultEvent : Type 0 where
  pub time : ℕ
  pub kind : FaultType
  pub target : Text
  pub param : ℕ

abbrev pub millisecond : ℕ
millisecond = 1000000

abbrev pub second : ℕ
second = 1000000000

-- How many kinds of faults a level draws from.
pub kind_count : Level → ℕ
kind_count normal = 0
kind_count adversarial = 3
kind_count hostile = 5
kind_count unnamed = 0

pub pick_kind : Level → ℕ → FaultType
pick_kind adversarial zero = partition
pick_kind adversarial (suc zero) = latency
pick_kind adversarial (suc (suc zero)) = drop_conns
pick_kind hostile zero = partition
pick_kind hostile (suc zero) = latency
pick_kind hostile (suc (suc zero)) = drop_conns
pick_kind hostile (suc (suc (suc zero))) = bridge_restart
pick_kind hostile (suc (suc (suc (suc zero)))) = leaf_restart
pick_kind _ _ = partition

-- `healOffset`.
pub heal_offset : ℕ → ℕ → ℕ → ℕ
heal_offset fault_duration offset seconds =
    let t = offset + seconds * second in if ltb fault_duration t then fault_duration else t

module _ (intn : ℕ → ℕ → ℕ) (leaf_label : ℕ → Text) (fault_duration : ℕ) where
  abbrev plain : ℕ → FaultType → Text → FaultEvent
  plain t k target = record { time = t; kind = k; target = target; param = 0 }

  -- A fault at an offset with its drawn target, and its heal; the calls of `intn` so far go in and
  -- come out.
  pub fault_events : FaultType → ℕ → Text → ℕ → List FaultEvent × ℕ
  unfolding heal_offset
  fault_events partition offset target k = (
    plain offset partition target
        ∷ plain (heal_offset fault_duration offset (1 + intn k 5)) heal_partition target
        ∷ [],
    k + 1,
  )
  fault_events latency offset target k = (
    record {
      time = offset;
      kind = latency;
      target = target;
      param = (100 + intn k 900) * millisecond;
    }
        ∷ plain (heal_offset fault_duration offset (1 + intn (k + 1) 3)) heal_latency []
        ∷ [],
    k + 2,
  )
  fault_events bridge_restart offset target k =
      (plain offset bridge_restart (codes "bridge") ∷ [], k)
  fault_events kind offset target k = (plain offset kind target ∷ [], k)

  pub one_fault : Level → ℕ → ℕ → List FaultEvent × ℕ
  unfolding fault_events pick_kind kind_count
  one_fault severity num_leaves k =
      fault_events (pick_kind severity (intn (k + 1) (kind_count severity))) (intn k fault_duration)
        (leaf_label (intn (k + 2) num_leaves)) (k + 3)

  pub faults : ℕ → Level → ℕ → ℕ → List FaultEvent
  unfolding one_fault
  faults zero severity num_leaves k = []
  faults (suc n) severity num_leaves k =
      let (events, k') = one_fault severity num_leaves k in
      events ++ faults n severity num_leaves k'

  -- The number of faults, and the calls of `intn` made for it.
  pub num_faults : Level → ℕ × ℕ
  num_faults normal = (0, 0)
  num_faults adversarial = (2 + intn 0 4, 1)
  num_faults hostile = (5 + intn 0 6, 1)
  num_faults unnamed = (0, 0)

  pub unsorted : Level → ℕ → List FaultEvent
  unfolding faults num_faults
  unsorted severity num_leaves =
      let (n, k) = num_faults severity in
      faults n severity num_leaves k ++ plain fault_duration heal_all [] ∷ []

  pub generate_schedule : (List FaultEvent → List FaultEvent) → Level → ℕ → List FaultEvent
  unfolding unsorted
  generate_schedule sort_slice normal num_leaves = []
  generate_schedule sort_slice severity num_leaves = sort_slice (unsorted severity num_leaves)

-- What a fault does to the proxy; the restarts of the bridge and of a leaf leave it alone.
pub inject : FaultType → Text → ℕ → FaultProxy → FaultProxy
inject partition target param p = Proxy.partition target p
inject heal_partition target param p = Proxy.heal target p
inject latency target param p = set_latency param p
inject heal_latency target param p = set_latency 0 p
inject drop_conns target param p = drop_connections p
inject bridge_restart target param p = p
inject leaf_restart target param p = p
inject heal_all target param p = set_latency 0 (Proxy.heal_all p)

-- The loop over the schedule.
pub play : List FaultEvent → FaultProxy → FaultProxy
unfolding inject
play [] p = p
play (e ∷ es) p = play es (inject e.kind e.target e.param p)
