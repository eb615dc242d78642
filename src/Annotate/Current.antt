-- ===== src/Annotate/Current.antt =====
-- tester1/annotation.go: the on-going annotation of failures and the servers' state.
use mit.Prelude.{
  ℕ, ◌≡◌, Bool, true, false, Option, none, some, List, [], ◌∷◌, string_eq, replicate, if◌then◌else◌,
  length,
}
use mit.Annotate.{two_parts}
use mit.Annotate.Faults.{
  Globals, bools_eqb, annotate_connection, annotate_clear_failure, annotate_two_partitions, all_to,
  annotate_shutdown, annotate_restart,
}
use mit.Annotate.Described.{IsCurrent, Servers}
use mit.Annotate.Marks.{AllBelow, set_all, differs}

-- What the framework reports: the connections of all servers, two partitions, servers that are shut
-- down or started again, and that all is well; with the time.
pub data Report : Type 0 where
  connection : List Bool → Report
  two_partitions : List ℕ → List ℕ → Report
  shutdown restart : List ℕ → Report
  clear_failure : Report

abbrev pub report : ℕ → Report → Globals → Option Globals
report now (connection c) g = annotate_connection now c g
report now (two_partitions p1 p2) g = some (annotate_two_partitions now p1 p2 g)
report now (shutdown servers) g = annotate_shutdown now servers g
report now (restart servers) g = annotate_restart now servers g
report now clear_failure g = some (annotate_clear_failure now g)

abbrev pub report_on : (Globals → Option Globals) → Option Globals → Option Globals
report_on rest none = none
report_on rest (some g) = rest g

unfoldable pub report_all : List (ℕ × Report) → Globals → Option Globals
report_all [] g = some g
report_all ((now, ev) ∷ evs) g = report_on (report_all evs) (report now ev g)

-- What a report means: the servers' flags become those that it has, and it names two partitions, or
-- leaves none named if a flag changes.
abbrev pub marked_as : Bool → List ℕ → Servers → Servers
marked_as v servers s = record s {
  crashed = set_all v servers s.crashed;
  named = if differs v servers s.crashed then none else s.named;
}

abbrev pub happen : Report → Servers → Servers
happen (connection c) s = record s {
  connected = c;
  named = if bools_eqb s.connected c then s.named else none;
}
happen (two_partitions p1 p2) s = record s { named = some (two_parts p1 p2) }
happen (shutdown servers) s = marked_as true servers s
happen (restart servers) s = marked_as false servers s
happen clear_failure s = record {
  connected = all_to true s.connected;
  crashed = all_to false s.crashed;
  named = none;
}

abbrev pub happen_all : List (ℕ × Report) → Servers → Servers
happen_all [] s = s
happen_all ((_, ev) ∷ evs) s = happen_all evs (happen ev s)

-- All `n` servers of a test are connected and up.
abbrev pub all_up : ℕ → Servers
all_up n = record { connected = replicate n true; crashed = replicate n false; named = none }

-- An event of a test with `n` servers.
abbrev pub IsOf : ℕ → Report → Type 0
IsOf n (connection c) = length c ≡ n
IsOf n (two_partitions p1 p2) = Unit
IsOf n (shutdown servers) = AllBelow n servers
IsOf n (restart servers) = AllBelow n servers
IsOf n clear_failure = Unit

abbrev pub AllOf : ℕ → List (ℕ × Report) → Type 0
AllOf n [] = Unit
AllOf n ((now, ev) ∷ evs) = IsOf n ev × AllOf n evs

abbrev Kept : ℕ → Servers → Option Globals → Type 0
Kept n s o = (g : Globals) × (o ≡ some g) × IsCurrent n s g
