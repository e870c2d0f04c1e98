-- ===== src/Server/Session/Examples.antt =====
-- The table after one record.
use msgsrvd.Prelude.{[], ◌∷◌, All}
use msgsrvd.Wal.Record.Examples.{three_bytes}
use msgsrvd.Server.Session.{session_table_init}
use msgsrvd.Server.Session.Memory.{IsKnown, InLog, observed, observed-IsKnown}

observed-IsKnown_example :
    All
      (IsKnown (InLog (three_bytes ∷ [])))
      (observed session_table_init (three_bytes ∷ [])).entries
observed-IsKnown_example = observed-IsKnown (three_bytes ∷ [])
