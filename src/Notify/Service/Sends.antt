-- ===== src/Notify/Service/Sends.antt =====
-- Any history of Send keeps the mailbox: what ReadThread gives is what was sent.
use edge_sync.Base.{Text, is_empty, ◌≡◌, refl, sym, subst, List, [], ◌∷◌, arith, if_both}
use edge_sync.Notify.Message.{Message, thread_short}
use edge_sync.Notify.Message.Folders.{HasNoSlash, IsPlain}
use edge_sync.Notify.Store.{Library, Result, ok, err, commit_message, read_thread}
use edge_sync.Notify.Store.Mailbox.{Mailbox, thread_of}
use edge_sync.Notify.Store.Refines.{
  IsFossil, Represents, IsFresh, commit_message-Represents, read_thread-Represents,
}
use edge_sync.Notify.Service.{
  SendOpts, Draws, Service, cache_thread, scan_thread, resolve_thread, drafted, publish_step,
  committed, commit_step, in_resolved, send,
}

-- The mailbox after a result of Send.
unfoldable pub deliver : Result Message → Mailbox → Mailbox
deliver (ok m) box = m ∷ box
deliver (err e) box = box

module _ (E : Library) where
  -- A history of calls of Send, with the mailbox of those that went through.
  unfoldable pub run : List (Draws × SendOpts) → Service E → Mailbox → Service E × Mailbox
  unfolding deliver
  run [] sv box = (sv, box)
  run ((d, o) ∷ ops) sv box = let (r, sv') = send E d o sv in run ops sv' (deliver r box)

  resolve_thread-state :
      (project short : Text) (sv : Service E)
      → (resolve_thread E project short sv).1.state ≡ sv.state
  unfolding resolve_thread scan_thread cache_thread
  resolve_thread-state project short sv = ground arith

  published_state :
      (m : Message) (sv : Service E) (s' : E.State)
      → (publish_step E m
          (cache_thread E (thread_short m) m.thread (record sv { state = s' }))).state
        ≡ s'
  unfolding publish_step cache_thread
  published_state m sv s' = ground arith

  module _ (laws : IsFossil E) where
    -- A sent message has folder names without slashes, is encoded faithfully and has a new path.
    abbrev pub IsAccepted : Mailbox → Result Message → Type 0
    IsAccepted box (ok m) = IsPlain m × laws.IsClean m × IsFresh E m box
    IsAccepted box (err e) = Unit {0}

    committed-Represents :
        (m : Message) (sv : Service E) (box : Mailbox) (r : Result E.State)
        → commit_message E m sv.state ≡ r
        → Represents E sv.state box
        → IsAccepted box (committed E m sv r).0
        → Represents E (committed E m sv r).1.state (deliver (committed E m sv r).0 box)
    unfolding committed deliver
    committed-Represents m sv box (err x) e rep acc = rep
    committed-Represents m sv box (ok s') e rep acc =
        subst (λ s. Represents E s (m ∷ box)) (sym (published_state m sv s'))
          (commit_message-Represents E laws m sv.state s' box rep acc.0 acc.1 acc.2 e)

    in_resolved-Represents :
        (m : Message) (sv : Service E) (box : Mailbox) (r : Result Text)
        → Represents E sv.state box
        → IsAccepted box (in_resolved E m (r, sv)).0
        → Represents E (in_resolved E m (r, sv)).1.state (deliver (in_resolved E m (r, sv)).0 box)
    unfolding in_resolved deliver commit_step
    in_resolved-Represents m sv box (err x) rep acc = rep
    in_resolved-Represents m sv box (ok full) rep acc =
        committed-Represents (record m { thread = full }) sv box _ refl rep acc

    pub send-Represents :
        (d : Draws) (o : SendOpts) (sv : Service E) (box : Mailbox)
        → Represents E sv.state box
        → IsAccepted box (send E d o sv).0
        → Represents E (send E d o sv).1.state (deliver (send E d o sv).0 box)
    unfolding send commit_step
    send-Represents d o sv box rep =
        let P : Result Message × Service E → Type 0 =
          λ r. IsAccepted box r.0 → Represents E r.1.state (deliver r.0 box) in
        let (r, sv') = resolve_thread E o.project o.thread_short sv in
        if_both P (is_empty o.thread_short)
          (λ acc. committed-Represents (drafted E d o sv) sv box _ refl rep acc)
          (λ acc.
            in_resolved-Represents (drafted E d o sv) sv' box r
              (subst (λ s. Represents E s box)
                (sym (resolve_thread-state o.project o.thread_short sv)) rep)
              acc)

    -- Every message that goes through in the history is accepted where it is sent.
    abbrev pub AllAccepted : List (Draws × SendOpts) → Service E → Mailbox → Type 0
    AllAccepted [] sv box = Unit {0}
    AllAccepted ((d, o) ∷ ops) sv box =
        let (r, sv') = send E d o sv in IsAccepted box r × AllAccepted ops sv' (deliver r box)

    pub run-Represents :
        (ops : List (Draws × SendOpts)) (sv : Service E) (box : Mailbox)
        → Represents E sv.state box
        → AllAccepted ops sv box
        → (let (sv', box') = run ops sv box in Represents E sv'.state box')
    unfolding run
    run-Represents [] sv box rep acc = rep
    run-Represents ((d, o) ∷ ops) sv box rep acc =
        let (r, sv') = send E d o sv in
        run-Represents ops sv' (deliver r box) (send-Represents d o sv box rep acc.0) acc.1

-- The service implements the mailbox. Take a repository that holds a mailbox, and any history of Send
-- in which every message that goes through has folder names without slashes, is encoded faithfully
-- and has a path of its own; calls that fail may stand anywhere in it. Afterwards ReadThread of any
-- project and thread without slashes gives the messages of that thread, those of the mailbox and
-- those that Send returned, each once, in the order of their paths: by the digits of
-- the second, then by the short id.
pub run-read_thread :
    (E : Library) (laws : IsFossil E) (ops : List (Draws × SendOpts)) (sv : Service E)
    (box : Mailbox) (project short : Text)
    → HasNoSlash project
    → HasNoSlash short
    → Represents E sv.state box
    → AllAccepted E laws ops sv box
    → read_thread E project short (run E ops sv box).0.state
      ≡ ok (thread_of E.print project short (run E ops sv box).1)
run-read_thread E laws ops sv box project short h k rep acc =
    read_thread-Represents E project short h k _ _ (run-Represents E laws ops sv box rep acc)
