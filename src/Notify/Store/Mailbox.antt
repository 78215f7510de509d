-- ===== src/Notify/Store/Mailbox.antt =====
-- The mailbox that the store implements: the messages committed so far, the latest first, and a
-- thread as those of its project and short id in the order of their paths.
use edge_sync.Base.{Text, ℕ, List, keep}
use edge_sync.Base.TextOrder.{sort_by}
use edge_sync.Notify.Message.Folders.{belongs}
use edge_sync.Notify.Message.{Message, file_path}

abbrev pub Mailbox : Type 0
Mailbox = List Message

unfoldable pub thread_of : (ℕ → Text) → Text → Text → Mailbox → List Message
thread_of print project short box = sort_by (file_path print) (keep (belongs project short) box)
