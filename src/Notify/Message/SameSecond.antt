-- ===== src/Notify/Message/SameSecond.antt =====
-- The order in which ReadThread puts messages of one thread and one second.
use edge_sync.Base.{Text, codes, ◌++◌}
use edge_sync.Notify.Message.{Message}

-- A path by its parts.
abbrev path : Text → Text → Text → Text → Text
path project thread seconds name =
    project ++ (codes "/threads/" ++ (thread ++ (codes "/" ++ (seconds ++ (codes "-" ++ name)))))
