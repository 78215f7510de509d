-- ===== src/Tests/Store.antt =====
-- The notify store, the service and the watch at concrete inputs. The repository stands for
-- libfossil's: a list of commits, the latest first.
use mathlib.Core.Option.{some-injective}
use edge_sync.Base.{
  text_eq, Text, ℕ, ◌*◌, ◌≤◌, ◌<◌, ◌≡◌, refl, sym, ap, subst, ◌≢◌, ite, if_pos, if_neg, Bool, true,
  false, not, ◌&&◌, Option, none, some, List, [], ◌∷◌, ◌++◌, map, arith, ltb, if◌then◌else◌, ltb→lt,
  length, take, drop,
}
use edge_sync.Base.TextOrder.{insert_by, sort_by}
use edge_sync.Notify.Message.{
  priority_info, Message, id_prefix, thread_prefix, new_message, short_id, thread_short, file_path,
}
use edge_sync.Notify.Message.Folders.{HasNoSlash}
use edge_sync.Notify.Store.{Library, ok, commit_message, read_thread}
use edge_sync.Notify.Store.Blob.{size_prefix}
use edge_sync.Notify.Store.Mailbox.{thread_of}
use edge_sync.Notify.Store.Refines.{IsFossil, Represents}
use edge_sync.Notify.Service.{
  SendOpts, Draws, Service, cache_thread, resolve_thread, drafted, publish_step, committed,
  commit_step, in_resolved, send,
}
use edge_sync.Notify.Service.Sends.{
  deliver, run, IsAccepted, send-Represents, AllAccepted, run-read_thread,
}
use edge_sync.Notify.Service.Cache.{send-resolve_thread}
use edge_sync.Notify.Watch.{
  flush_failed, subscribed, waiting, Watch, capacity, new_watch, arrive, cancel, Reach, here,
  further,
}
use edge_sync.Notify.Watch.Closes.{is_selecting, watch_safe, Finishes, watch_closes}

abbrev pub Commits : Type 0
Commits = List (Text × Text)

abbrev pub pack : Text → Text
pack t = size_prefix (length t) ++ t

abbrev pub content : Text → Commits → Option Text
content name [] = none
content name ((n, t) ∷ s) = let rest = content name s in ite (text_eq n name) (some (pack t)) rest

-- Stands for encoding/json on short messages: the time, the lengths and the texts of the ids and the
-- project.
abbrev pub encode : Message → Text
encode m = m.timestamp ∷ length m.id ∷ length m.thread ∷ (m.id ++ (m.thread ++ m.project))

abbrev pub plain : ℕ → Text → Text → Text → Message
plain now id thread project = record {
  v = 1;
  id = id;
  thread = thread;
  project = project;
  from = [];
  from_name = [];
  timestamp = now;
  body = [];
  priority = priority_info;
  actions = [];
  reply_to = [];
  media = [];
  action_response = false;
}

abbrev pub decode : Text → Option Message
decode (now ∷ a ∷ b ∷ t) = some (plain now (take a t) (take b (drop a t)) (drop b (drop a t)))
decode _ = none

abbrev pub fossil : Library
fossil = record {
  State = Commits;
  commit = λ name t s. some ((name, t) ∷ s);
  names = λ s. some (sort_by (λ n. n) (map (λ (c : Text × Text). c.0) s));
  blob = content;
  inflate = λ t. some t;
  marshal = λ m. if ltb (length (encode m)) 4294967296 then some (encode m) else none;
  unmarshal = decode;
  print = λ n. n ∷ [];
}

guarded : (b : Bool) (x t : Text) → (if b then some x else none) ≡ some t → (b ≡ true) × (x ≡ t)
guarded true x t e = (refl, some-injective _ _ e)
guarded false x t e = cc

pub marshalled :
    (m : Message) (t : Text) → fossil.marshal m ≡ some t → (encode m ≡ t) × (length t < 4294967296)
marshalled m t e =
    let (small, same) = guarded (ltb (length (encode m)) 4294967296) (encode m) t e in
    (same, subst (λ x. length x < 4294967296) same (ltb→lt _ _ small))

pub commit_names_kept :
    (name t : Text) (s s' : Commits) (ns : List Text)
    → fossil.commit name t s ≡ some s'
    → fossil.names s ≡ some ns
    → fossil.names s' ≡ some (insert_by (λ n. n) name ns)
unfolding sort_by
commit_names_kept name t s s' ns e f =
    subst (λ x. fossil.names x ≡ some (insert_by (λ n. n) name ns)) (some-injective _ _ e)
      (ap (λ l. some (insert_by (λ n. n) name l)) (some-injective _ _ f))

abbrev pub fossil_laws : IsFossil fossil
fossil_laws = record {
  IsClean = λ m. decode (encode m) ≡ some m;
  deflate = λ t. t;
  inflate_deflate = λ t. refl;
  marshal_back = λ m t c e. subst (λ x. decode x ≡ some m) (marshalled m t e).0 c;
  marshal_small = λ m t e. (marshalled m t e).1;
  commit_blob = λ name t s s' e.
      subst (λ x. content name x ≡ some (pack t)) (some-injective _ _ e)
        (if_pos (text_eq name name) refl _ _);
  commit_other = λ name n t s s' e d.
      subst (λ x. content n x ≡ content n s) (some-injective _ _ e)
        (if_neg (text_eq name n) (λ p. d (sym p)) _ _);
  commit_names = λ name t s s' ns e f g. commit_names_kept name t s s' ns e f;
}

abbrev pub service : Service fossil
service = record {
  state = [];
  connected = true;
  from = [];
  from_name = [];
  thread_map = [];
  published = [];
}

-- A message that opens a thread in project 7.
abbrev pub opening : SendOpts
opening = record {
  project = 7 ∷ [];
  body = [];
  priority = [];
  actions = [];
  media = [];
  thread_short = [];
}

-- An answer in the thread 5.
abbrev pub answering : SendOpts
answering = record opening { thread_short = 5 ∷ [] }

abbrev pub draws : ℕ → Draws
draws n = record { message_uuid = n ∷ []; thread_uuid = 5 ∷ []; now = n * 1000000000 }

abbrev pub thread_open : Service fossil
thread_open = (send fossil (draws 1) opening service).1

abbrev pub first_sent : Message
first_sent = plain 1000000000 (id_prefix ++ 1 ∷ []) (thread_prefix ++ 5 ∷ []) (7 ∷ [])

abbrev pub second_sent : Message
second_sent = plain 2000000000 (id_prefix ++ 2 ∷ []) (thread_prefix ++ 5 ∷ []) (7 ∷ [])

sent_first : (send fossil (draws 1) opening service).0 ≡ ok first_sent
unfolding send commit_step committed drafted new_message commit_message
sent_first = refl

pub sent_second : (send fossil (draws 2) answering thread_open).0 ≡ ok second_sent
unfolding send commit_step committed drafted new_message commit_message resolve_thread in_resolved
    publish_step cache_thread thread_short short_id text_eq
sent_second = refl

Represents-empty : Represents fossil [] []
unfolding sort_by
Represents-empty = (refl, tt, tt)

pub slashless_7 : HasNoSlash (7 ∷ [])
slashless_7 = (λ e. absurd (omega arith), tt)

slashless_5 : HasNoSlash (5 ∷ [])
slashless_5 = (λ e. absurd (omega arith), tt)

short_5 : HasNoSlash (thread_short first_sent)
unfolding thread_short short_id
short_5 = slashless_5

first-IsAccepted : IsAccepted fossil fossil_laws [] (ok first_sent)
first-IsAccepted = ((slashless_7, short_5), refl, tt)

abbrev byte_at : ℕ → Text → ℕ
byte_at n t = elim (drop n t) [ [] ↦ 0 | c ∷ _ ↦ c ]

paths_differ : file_path fossil.print first_sent ≢ file_path fossil.print second_sent
unfolding file_path thread_short short_id
paths_differ e = absurd (omega (arith, ap (byte_at 12) e))

pub second-IsAccepted : IsAccepted fossil fossil_laws (first_sent ∷ []) (ok second_sent)
unfolding thread_short short_id
second-IsAccepted = ((slashless_7, slashless_5), refl, (paths_differ, tt))

abbrev history : List (Draws × SendOpts)
history = (draws 1, opening) ∷ (draws 2, answering) ∷ []

history_accepted : AllAccepted fossil fossil_laws history service []
unfolding deliver
history_accepted = (
  subst (IsAccepted fossil fossil_laws []) (sym sent_first) first-IsAccepted,
  (
    subst
        (λ r.
          IsAccepted fossil fossil_laws (deliver r [])
            (send fossil (draws 2) answering thread_open).0)
        (sym sent_first)
        (subst (IsAccepted fossil fossil_laws (first_sent ∷ [])) (sym sent_second)
          second-IsAccepted),
    tt,
  ),
)

run-read_thread_example :
    read_thread fossil (7 ∷ []) (5 ∷ []) (run fossil history service []).0.state
    ≡ ok (thread_of fossil.print (7 ∷ []) (5 ∷ []) (run fossil history service []).1)
run-read_thread_example =
    run-read_thread fossil fossil_laws history service [] (7 ∷ []) (5 ∷ []) slashless_7 slashless_5
      Represents-empty history_accepted

pub Represents-first : Represents fossil thread_open.state (first_sent ∷ [])
unfolding deliver
Represents-first =
    subst (λ r. Represents fossil thread_open.state (deliver r [])) sent_first
      (send-Represents fossil fossil_laws (draws 1) opening service [] Represents-empty
        (subst (IsAccepted fossil fossil_laws []) (sym sent_first) first-IsAccepted))

-- Another project than that of the thread.
send-resolve_thread_example :
    resolve_thread fossil (8 ∷ []) (thread_short first_sent) thread_open
    ≡ (ok (thread_prefix ++ 5 ∷ []), thread_open)
send-resolve_thread_example =
    send-resolve_thread fossil (draws 1) opening service first_sent (8 ∷ []) refl sent_first

-- A message that arrives when the goroutine has the lock.
abbrev late_1 : Watch
late_1 = record (new_watch subscribed) { callback = waiting first_sent }

abbrev late_2 : Watch
late_2 = record late_1 { done = true }

late_Reach : Reach (new_watch subscribed) late_2
unfolding new_watch
late_Reach =
    let start = new_watch subscribed in
    further start late_1 late_2
      (further start start late_1 (here start) (arrive start first_sent refl refl)) (cancel late_1)

subscribed_apart : subscribed ≢ flush_failed
subscribed_apart = λ e. cc

watch_safe_example :
    (late_2.panicked ≡ false)
    × (length late_2.queue ≤ capacity)
    × (not late_2.is_open && is_selecting late_2.callback ≡ false)
watch_safe_example = watch_safe subscribed late_2 subscribed_apart late_Reach

watch_closes_example : Finishes late_2
watch_closes_example = watch_closes subscribed late_2 subscribed_apart late_Reach refl
