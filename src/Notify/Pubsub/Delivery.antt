-- ===== src/Notify/Pubsub/Delivery.antt =====
-- Which messages get to the callbacks.
use edge_sync.Base.{
  member, Text, ℕ, ◌+◌, ◌≤◌, ◌<◌, ◌≡◌, refl, inl, inr, true, false, Option, none, some, List, [],
  ◌∷◌, ◌++◌, arith, if◌then◌else◌, Bool-cases, Option-cases, length, length-append,
}
use edge_sync.Notify.Message.{Message}
use edge_sync.Notify.Dedup.{Subscriber, enable_dedup, remember, is_duplicate_at}
use edge_sync.Notify.Pubsub.{on_nats_msg, deliver}

-- The messages that can be decoded, in order.
unfoldable pub decoded : (Text → Option Message) → List Text → List Message
decoded unmarshal [] = []
decoded unmarshal (data_ ∷ datas) =
    let rest = decoded unmarshal datas in elim (unmarshal data_) [ none ↦ rest | some m ↦ m ∷ rest ]

-- The messages whose id is not among the old ones nor that of an earlier message.
unfoldable pub firsts : List Text → List Message → List Message
firsts old [] = []
firsts old (m ∷ ms) =
    let known = firsts old ms in
    let new = firsts (m.id ∷ old) ms in if member m.id old then known else m ∷ new

module _ (cap : ℕ) (unmarshal : Text → Option Message) where
  remember_room :
      (id : Text) (s : Subscriber)
      → length s.seen_order < cap
      → remember cap id s ≡ record s { seen = id ∷ s.seen; seen_order = s.seen_order ++ id ∷ [] }
  unfolding remember
  remember_room id s room = ground (arith, length-append s.seen_order (id ∷ []))

  deliver-firsts_from :
      (datas : List Text) (s : Subscriber)
      → s.dedup ≡ true
      → length s.seen_order + length datas ≤ cap
      → (deliver cap unmarshal datas s).0 ≡ firsts s.seen (decoded unmarshal datas)
  unfolding deliver on_nats_msg is_duplicate_at decoded firsts
  deliver-firsts_from [] s on room = refl
  deliver-firsts_from (data_ ∷ datas) s on room = elim (Option-cases (unmarshal data_)) [
    | inl e ↦ ground (arith, deliver-firsts_from datas s on)
    | inr (m, e) ↦ elim (Bool-cases (member m.id s.seen)) [
      | inl old ↦ ground (arith, deliver-firsts_from datas s on)
      | inr new ↦
          let len : length (s.seen_order ++ m.id ∷ []) ≡ length s.seen_order + 1 =
            length-append s.seen_order (m.id ∷ []) in
          let step = remember_room m.id s (omega arith) in
          ground (
            arith,
            deliver-firsts_from datas
                (record s { seen = m.id ∷ s.seen; seen_order = s.seen_order ++ m.id ∷ [] }) on
                (omega arith),
          )
    ]
  ]

  -- From when deduplication was turned on, over as many NATS messages as the cap at most, the
  -- callbacks of all subscriptions together get each message that can be decoded once for its id, in
  -- order, and the later ones with that id to none.
  pub deliver-firsts :
      (datas : List Text) (s : Subscriber)
      → length datas ≤ cap
      → (deliver cap unmarshal datas (enable_dedup s)).0 ≡ firsts [] (decoded unmarshal datas)
  unfolding enable_dedup
  deliver-firsts datas s room = deliver-firsts_from datas (enable_dedup s) refl (omega arith)

  -- Without it they get every one.
  pub deliver_all :
      (datas : List Text) (s : Subscriber)
      → s.dedup ≡ false
      → (deliver cap unmarshal datas s).0 ≡ decoded unmarshal datas
  unfolding deliver on_nats_msg is_duplicate_at decoded
  deliver_all [] s off = refl
  deliver_all (data_ ∷ datas) s off = ground (arith, deliver_all datas s off)
