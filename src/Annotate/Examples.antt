-- ===== src/Annotate/Examples.antt =====
-- The theorem on tester1/annotation.go for a test with three servers.
use mit.Prelude.{ℕ, true, false, List, [], ◌∷◌}
use mit.Annotate.{mk_annotation}
use mit.Annotate.Faults.{Globals, mk_framework_info}
use mit.Annotate.Current.{Report, connection, two_partitions, shutdown, restart}

abbrev globals : Globals
globals = record { annotation = mk_annotation; finfo = mk_framework_info 1 }

-- Server 1 is cut off, servers 0 and 1 are shut down, two partitions are named, and server 1 starts
-- again.
abbrev reports : List (ℕ × Report)
reports =
    (5, connection (true ∷ false ∷ true ∷ []))
    ∷ (6, shutdown (0 ∷ 1 ∷ []))
    ∷ (7, two_partitions (0 ∷ 1 ∷ []) (2 ∷ []))
    ∷ (9, restart (1 ∷ []))
    ∷ []
