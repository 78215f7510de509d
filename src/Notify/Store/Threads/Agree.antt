-- ===== src/Notify/Store/Threads/Agree.antt =====
-- ListThreads against ReadThread, in a repository that holds a mailbox.
use edge_sync.Base.{
  Text, ◌≡◌, refl, sym, ap, subst, ◌∙◌, ◌≢◌, inl, inr, false, Option, none, some, List, [], ◌∷◌,
  map, arith, Option-cases, length, keep, length-eq-zero, All, All-imp, keep-eq-nil,
  keep-same_tests, All-keep, Elem, Elem-All, All-of_Elem, map-eq-nil,
}
use edge_sync.Base.TextOrder.{
  sort_by, All-sort_by, sort_by-eq-nil, keep-sort_by, map-sort_by, map-keep,
}
use edge_sync.Notify.Message.{Message, thread_short, file_path}
use edge_sync.Notify.Message.Folders.{HasNoSlash, belongs, belongs-own, thread_short_lem}
use edge_sync.Notify.Store.{Library, ok, all_file_names, read_message, read_each, read_thread}
use edge_sync.Notify.Store.Mailbox.{Mailbox, thread_of}
use edge_sync.Notify.Store.Refines.{Represents, read_each-All, read_thread-Represents}
use edge_sync.Notify.Store.Threads.{
  ThreadSummary, Groups, Runtime, thread_name, add_file, group, summary_of, summarise, summaries,
  list_threads,
}
use edge_sync.Notify.Store.Threads.Grouping.{is_of, find_group, All-add_file, Has, group-IsGrouped}
use edge_sync.Notify.Store.Threads.Names.{thread_name-HasNoSlash, is_of-file_path}
use edge_sync.Notify.Store.Threads.Summaries.{IsRuntime, IsSummary, summary_of-IsSummary}

-- The summaries of the groups whose threads are not empty.
abbrev cons_some : Option ThreadSummary → List ThreadSummary → List ThreadSummary
cons_some none xs = xs
cons_some (some x) xs = x ∷ xs

module _ (E : Library) (R : Runtime) (runs : IsRuntime R) (project : Text)
    (slashless : HasNoSlash project) where
  group-HasNoSlash :
      (files : List Text) (groups : Groups)
      → All (λ e. HasNoSlash e.0) groups
      → All (λ e. HasNoSlash e.0) (group project groups files)
  unfolding group
  group-HasNoSlash [] groups h = h
  group-HasNoSlash (f ∷ fs) groups h = elim (Option-cases (thread_name project f)) [
    | inl e ↦ rw e (group-HasNoSlash fs groups h)
    | inr (t, e) ↦ rw e (
        group-HasNoSlash fs (add_file t f groups)
          (All-add_file HasNoSlash t f groups (thread_name-HasNoSlash project f t e) h))
  ]

  module _ (s : E.State) (box : Mailbox) (represents : Represents E s box) where
    abbrev thread : Text → List Message
    thread short = thread_of E.print project short box

    abbrev files : List Text
    files = sort_by (λ n. n) (map (file_path E.print) box)

    -- The files of a thread are those of its messages in order.
    keep-thread_of :
        (short : Text) → keep (is_of project short) files ≡ map (file_path E.print) (thread short)
    unfolding thread_of
    keep-thread_of short =
        keep-sort_by (λ n. n) (is_of project short) (map (file_path E.print) box)
        ∙ ap (sort_by (λ n. n)) (map-keep (file_path E.print) (is_of project short) box)
        ∙ ap (λ l. sort_by (λ n. n) (map (file_path E.print) l))
            (keep-same_tests (λ m. is_of project short (file_path E.print m))
              (belongs project short) box
              (All-imp box (λ m p. is_of-file_path E.print project slashless m p short)
                represents.2))
        ∙ sym (map-sort_by (file_path E.print) (keep (belongs project short) box))

    -- Each group is read as the thread of its name.
    Reads : (Text × List Text) → Type 0
    Reads e = read_each E e.1 s ≡ ok (thread e.0)

    Has-Reads : (e : Text × List Text) → Has project files e → Reads e
    unfolding Reads thread_of
    Has-Reads (short, paths) h =
        let P : Message → Type 0 = λ m. read_message E (file_path E.print m) s ≡ ok m in
        let each : All P (thread short) =
          All-sort_by (file_path E.print) P _
            (All-keep P (belongs project short) box represents.1) in
        ap (λ l. read_each E l s) (h ∙ keep-thread_of short) ∙ read_each-All E (thread short) s each

    abbrev summary : Text → Option ThreadSummary
    summary short = summarise project short (R.by_time (thread short))

    listed : Groups → List ThreadSummary
    listed [] = []
    listed ((short, paths) ∷ groups) = cons_some (summary short) (listed groups)

    summaries-listed :
        (groups : Groups) → All Reads groups → summaries E R project groups s ≡ ok (listed groups)
    unfolding summaries listed Reads
    summaries-listed [] h = refl
    summaries-listed ((short, paths) ∷ groups) h = elim (Option-cases (summary short)) [
      | inl e ↦ ground (arith, h.0, summaries-listed groups h.1)
      | inr (x, e) ↦ ground (arith, h.0, summaries-listed groups h.1)
    ]

    -- The summary is that of the messages that ReadThread gives for its thread.
    abbrev pub Agrees : ThreadSummary → Type 0
    Agrees x =
        (x.project ≡ project)
        × ((ms : List Message) × (read_thread E project x.short s ≡ ok ms) × IsSummary x ms)

    summary-Agrees :
        (short : Text) (sorted : List Message) (xs : List ThreadSummary)
        → HasNoSlash short
        → R.by_time (thread short) ≡ sorted
        → All Agrees xs
        → All Agrees (cons_some (summarise project short sorted) xs)
    unfolding summarise summary_of
    summary-Agrees short [] xs h e all = all
    summary-Agrees short (m ∷ sorted) xs h e all = (
      (
        refl,
        (
          thread short,
          read_thread-Represents E project short slashless h s box represents,
          summary_of-IsSummary R runs project short (thread short) m sorted e,
        ),
      ),
      all,
    )

    listed-Agrees :
        (groups : Groups) → All (λ e. HasNoSlash e.0) groups → All Agrees (listed groups)
    unfolding listed
    listed-Agrees [] h = tt
    listed-Agrees ((short, paths) ∷ groups) h =
        summary-Agrees short (R.by_time (thread short)) (listed groups) h.0 refl
          (listed-Agrees groups h.1)

    -- There is a summary of the thread.
    abbrev pub Lists : Text → List ThreadSummary → Type 0
    Lists short xs = (x : ThreadSummary) × Elem x xs × (x.short ≡ short)

    summary-Lists :
        (short : Text) (sorted : List Message) (xs : List ThreadSummary)
        → R.by_time (thread short) ≡ sorted
        → thread short ≢ []
        → Lists short (cons_some (summarise project short sorted) xs)
    unfolding summarise summary_of
    summary-Lists short [] xs e some' = absurd (
        some'
          (length-eq-zero (thread short) (sym (runs.by_time_length (thread short)) ∙ ap length e)))
    summary-Lists short (m ∷ sorted) xs e some' =
        (summary_of project short m sorted, inl refl, refl)

    Lists-more :
        (short : Text) (o : Option ThreadSummary) (xs : List ThreadSummary)
        → Lists short xs
        → Lists short (cons_some o xs)
    Lists-more short none xs h = h
    Lists-more short (some y) xs (x, m, e) = (x, inr m, e)

    listed-Lists :
        (short : Text) (paths : List Text) (groups : Groups)
        → Elem (short, paths) groups
        → thread short ≢ []
        → Lists short (listed groups)
    unfolding listed
    listed-Lists short paths [] m some' = absurd m
    listed-Lists short paths ((t, ps) ∷ groups) (inl e) some' =
        subst (λ t'. Lists short (cons_some (summary t') (listed groups))) (ap (λ p. p.0) (sym e))
          (summary-Lists short (R.by_time (thread short)) (listed groups) refl some')
    listed-Lists short paths ((t, ps) ∷ groups) (inr m) some' =
        Lists-more short (summary t) (listed groups) (listed-Lists short paths groups m some')

    thread_own : (m : Message) → Elem m box → m.project ≡ project → thread (thread_short m) ≢ []
    unfolding thread_of
    thread_own m found e empty =
        let kept = sort_by-eq-nil (file_path E.print) _ empty in
        let none' =
          Elem-All (λ k. belongs project (thread_short m) k ≡ false) m box
            (keep-eq-nil (belongs project (thread_short m)) box kept) found in
        cc (belongs-own m project (thread_short m) e (thread_short_lem m), none')

    group_found :
        (m : Message)
        → Elem m box
        → m.project ≡ project
        → (paths : List Text) × Elem (thread_short m, paths) (group project [] files)
    group_found m found e = elim (find_group (thread_short m) (group project [] files)) [
      | inl h ↦ h
      | inr h ↦
          let none' : keep (is_of project (thread_short m)) files ≡ [] =
            (group-IsGrouped project files).absent (thread_short m) h in
          absurd (
            thread_own m found e (
              map-eq-nil (file_path E.print) (thread (thread_short m))
                (sym (keep-thread_of (thread_short m)) ∙ none')))
    ]

    -- In a repository that holds a mailbox ListThreads goes through for a project without a slash:
    -- each summary has the project, and the count and the highest priority of what ReadThread gives
    -- for its thread, one of these messages that no other is later than, in nanoseconds, and its
    -- time as the last activity; every message of the project has its thread in the list.
    pub list_threads-read_thread :
        (xs : List ThreadSummary) × (list_threads E R project s ≡ ok xs)
        × All Agrees xs
        × ((m : Message) → Elem m box → m.project ≡ project → Lists (thread_short m) xs)
    unfolding list_threads all_file_names
    list_threads-read_thread =
        let groups = group project [] files in
        let visited = R.visit groups in
        let grouped = group-IsGrouped project files in
        let among = λ (P : (Text × List Text) → Type 0) (h : All P groups).
          All-of_Elem P visited (λ a m. Elem-All P a groups h (runs.visits.back a groups m)) in
        let reads = All-imp groups (λ e h. Has-Reads e h) grouped.exact in
        let each = summaries-listed visited (among Reads reads) in
        let slashes = among (λ e. HasNoSlash e.0) (group-HasNoSlash files [] tt) in
        (
          R.by_activity (listed visited),
          ground (arith, represents.0, each),
          All-of_Elem Agrees (R.by_activity (listed visited)) (λ a m.
              Elem-All Agrees a (listed visited) (listed-Agrees visited slashes)
                (runs.by_activity_elements.back a (listed visited) m)),
          λ m found e.
              let (paths, k) = group_found m found e in
              let (x, q, f) =
                listed-Lists (thread_short m) paths visited (runs.visits.forth _ groups k)
                  (thread_own m found e) in
              (x, runs.by_activity_elements.forth x (listed visited) q, f),
        )
