-- ===== src/Notify/Service/Cache.antt =====
-- The cache of threads is keyed by the short id alone.
use edge_sync.Base.{
  text_eq, Text, is_empty, ◌≡◌, refl, sym, subst, if_pos, true, some, List, ◌∷◌, arith,
}
use edge_sync.Notify.Message.{Message, thread_short}
use edge_sync.Notify.Store.{Library, Result, ok, err}
use edge_sync.Notify.Service.{
  SendOpts, Draws, lookup, Service, cache_thread, resolve_thread, drafted, publish_step, committed,
  commit_step, send,
}

lookup-first :
    (short full : Text) (cache : List (Text × Text))
    → lookup short ((short, full) ∷ cache) ≡ some full
lookup-first short full cache = if_pos (text_eq short short) refl _ _

module _ (E : Library) where
  cached :
      (short full : Text) (project : Text) (sv : Service E) (cache : List (Text × Text))
      → sv.thread_map ≡ (short, full) ∷ cache
      → resolve_thread E project short sv ≡ (ok full, sv)
  unfolding resolve_thread
  cached short full project sv cache e = ground (arith, lookup-first short full cache)

  committed-map :
      (m m' : Message) (sv : Service E) (r : Result E.State)
      → (committed E m sv r).0 ≡ ok m'
      → (m ≡ m') × ((committed E m sv r).1.thread_map ≡ (thread_short m, m.thread) ∷ sv.thread_map)
  unfolding committed publish_step cache_thread
  committed-map m m' sv (err e) p = cc
  committed-map m m' sv (ok s') p = (ok_injective p, ground arith)
    where
      ok_injective : {k k' : Message} → ◌≡◌ {A = Result Message} (ok k) (ok k') → k ≡ k'
      ok_injective q = cc

  send-new :
      (d : Draws) (o : SendOpts) (sv : Service E)
      → is_empty o.thread_short ≡ true
      → send E d o sv ≡ commit_step E (drafted E d o sv) sv
  unfolding send
  send-new d o sv new = ground arith

  committed-resolved :
      (m m' : Message) (sv : Service E) (r : Result E.State) (project : Text)
      → (committed E m sv r).0 ≡ ok m'
      → resolve_thread E project (thread_short m') (committed E m sv r).1
        ≡ (ok m'.thread, (committed E m sv r).1)
  committed-resolved m m' sv r project e =
      let (same, map_after) = committed-map m m' sv r e in
      cached (thread_short m') m'.thread project _ sv.thread_map (
        subst (λ k. (committed E m sv r).1.thread_map ≡ (thread_short k, k.thread) ∷ sv.thread_map)
          same map_after)

-- After a Send of a new thread went through, its short id is resolved to it in any project, also in
-- one that has no such thread: the repository is not asked.
pub send-resolve_thread :
    (E : Library) (d : Draws) (o : SendOpts) (sv : Service E) (m : Message) (project : Text)
    → is_empty o.thread_short ≡ true
    → (send E d o sv).0 ≡ ok m
    → let sv' = (send E d o sv).1 in
      resolve_thread E project (thread_short m) sv' ≡ (ok m.thread, sv')
unfolding commit_step
send-resolve_thread E d o sv m project new e =
    let P : Result Message × Service E → Type 0 =
      λ r. r.0 ≡ ok m → resolve_thread E project (thread_short m) r.1 ≡ (ok m.thread, r.1) in
    subst P (sym (send-new E d o sv new)) (committed-resolved E (drafted E d o sv) m sv _ project) e
