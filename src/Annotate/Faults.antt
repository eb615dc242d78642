-- ===== src/Annotate/Faults.antt =====
-- tester1/annotation.go: what the framework annotates, the checkers and the faults of servers.
use mit.Prelude.{
  ℕ, suc, String, Bool, true, false, ◌&&◌, ◌||◌, not, Option, none, some, List, [], ◌∷◌, nat_eqb,
  get_elem?, set, replicate, if◌then◌else◌,
}
use mit.Annotate.{
  Text, plain, of_servers, behind, parts, two_parts, Annotation, annotate_point_color,
  annotate_interval_color, annotate_continuous_color, annotate_continuous_end, clear,
}

abbrev pub tag_checker : String
tag_checker = "$ Checker"

abbrev pub tag_partition : String
tag_partition = "$ Failure"

abbrev pub tag_info : String
tag_info = "$ Test Info"

abbrev pub color_info : String
color_info = "#FAFAFA"

abbrev pub color_fault : String
color_fault = "#B3E5FC"

-- `FrameworkInfo`, with the two fields of its CheckerBegin.
pub record FrameworkInfo : Type 0 where
  pub nservers : ℕ
  pub connected : List Bool
  pub crashed : List Bool
  pub begin_ts : ℕ
  pub begin_details : Text

-- The two global variables.
pub record Globals : Type 0 where
  pub annotation : Annotation
  pub finfo : FrameworkInfo

unfoldable pub mk_framework_info : ℕ → FrameworkInfo
mk_framework_info n = record {
  nservers = n;
  connected = replicate n true;
  crashed = replicate n false;
  begin_ts = 0;
  begin_details = plain "";
}

unfoldable pub annotate_test : ℕ → String → ℕ → Globals → Globals
annotate_test now desp n g =
    let details = of_servers desp n in
    record {
      annotation =
          annotate_point_color now tag_info details details color_info (clear g.annotation);
      finfo = mk_framework_info n;
    }

unfoldable pub annotate_checker_begin : ℕ → Text → Globals → Globals
annotate_checker_begin now details g = record g {
  finfo = record g.finfo { begin_ts = now; begin_details = details };
}

-- The begin's time is reset in a copy, so that it stays.
unfoldable pub annotate_checker_end : ℕ → Text → Text → String → Globals → Globals
annotate_checker_end now desp details color g =
    if nat_eqb g.finfo.begin_ts 0
    then record g {
      annotation = annotate_point_color now tag_checker desp details color g.annotation;
    }
    else record g {
      annotation =
          annotate_interval_color now tag_checker g.finfo.begin_ts desp
            (behind g.finfo.begin_details details) color g.annotation;
    }

-- slices.Equal
abbrev pub bools_eqb : List Bool → List Bool → Bool
bools_eqb [] [] = true
bools_eqb (true ∷ xs) (true ∷ ys) = bools_eqb xs ys
bools_eqb (false ∷ xs) (false ∷ ys) = bools_eqb xs ys
bools_eqb _ _ = false

-- copy(dst, src)
abbrev pub copy : List Bool → List Bool → List Bool
copy [] src = []
copy (d ∷ dst) [] = d ∷ dst
copy (d ∷ dst) (s ∷ src) = s ∷ copy dst src

-- The loop of annotateFault: the servers alone, those together, and those that crashed. Reading
-- past the end panics.
pub record Parts : Type 0 where
  pub alone : List ℕ
  pub conn : List ℕ
  pub crashes : List ℕ

abbrev pub add_part : ℕ → Bool → Bool → Parts → Parts
add_part id is_connected is_crashed p =
    if is_crashed
    then record p { crashes = id ∷ p.crashes }
    else if is_connected
    then record p { conn = id ∷ p.conn }
    else record p { alone = id ∷ p.alone }

abbrev pub add_first : ℕ → Bool → Bool → Option Parts → Option Parts
add_first id b c none = none
add_first id b c (some p) = some (add_part id b c p)

abbrev pub parts_of : ℕ → List Bool → List Bool → Option Parts
parts_of id [] crashed = some (record { alone = []; conn = []; crashes = [] })
parts_of id (b ∷ connected) [] = none
parts_of id (b ∷ connected) (c ∷ crashed) = add_first id b c (parts_of (suc id) connected crashed)

abbrev pub show_parts : ℕ → Globals → Option Parts → Option Globals
show_parts now g none = none
show_parts now g (some p) =
    let text = parts p.alone p.conn p.crashes in
    some (record g {
      annotation = annotate_continuous_color now tag_partition text text color_fault g.annotation;
    })

unfoldable pub annotate_fault : ℕ → Globals → Option Globals
annotate_fault now g =
    let trues = replicate g.finfo.nservers true in
    let falses = replicate g.finfo.nservers false in
    if bools_eqb trues g.finfo.connected && bools_eqb falses g.finfo.crashed
    then some (record g { annotation = annotate_continuous_end now tag_partition g.annotation })
    else show_parts now g (parts_of 0 g.finfo.connected g.finfo.crashed)

unfoldable pub annotate_connection : ℕ → List Bool → Globals → Option Globals
annotate_connection now connection g =
    if bools_eqb g.finfo.connected connection
    then some g
    else annotate_fault now
        (record g { finfo = record g.finfo { connected = copy g.finfo.connected connection } })

unfoldable pub annotate_two_partitions : ℕ → List ℕ → List ℕ → Globals → Globals
annotate_two_partitions now p1 p2 g =
    let text = two_parts p1 p2 in
    record g {
      annotation = annotate_continuous_color now tag_partition text text color_fault g.annotation;
    }

abbrev pub all_to : Bool → List Bool → List Bool
all_to v [] = []
all_to v (b ∷ bs) = v ∷ all_to v bs

unfoldable pub annotate_clear_failure : ℕ → Globals → Globals
annotate_clear_failure now g = record {
  finfo = record g.finfo {
    crashed = all_to false g.finfo.crashed;
    connected = all_to true g.finfo.connected;
  };
  annotation = annotate_continuous_end now tag_partition g.annotation;
}

-- The loops of AnnotateShutdown and AnnotateRestart, which write `v`: whether something changed,
-- and the crashed servers.
abbrev pub mark_one : Bool → ℕ → List Bool → Option Bool → Option (Bool × List Bool)
mark_one v id crashed none = none
mark_one v id crashed (some b) = some (if v then not b else b, set crashed id v)

abbrev pub mark_on :
    (List Bool → Option (Bool × List Bool)) → Option (Bool × List Bool) → Option (Bool × List Bool)
mark_on rest none = none
mark_on rest (some (c, crashed)) = elim (rest crashed) [
  | none ↦ none
  | some r ↦ some (c || r.0, r.1)
]

unfoldable pub mark_all : Bool → List ℕ → List Bool → Option (Bool × List Bool)
mark_all v [] crashed = some (false, crashed)
mark_all v (id ∷ servers) crashed =
    mark_on (mark_all v servers) (mark_one v id crashed (get_elem? crashed id))

abbrev pub marked : ℕ → Globals → Option (Bool × List Bool) → Option Globals
marked now g none = none
marked now g (some (changed, crashed)) =
    let g' : Globals = record g { finfo = record g.finfo { crashed = crashed } } in
    if not changed then some g' else annotate_fault now g'

unfoldable pub annotate_shutdown : ℕ → List ℕ → Globals → Option Globals
annotate_shutdown now servers g = marked now g (mark_all true servers g.finfo.crashed)

unfoldable pub annotate_restart : ℕ → List ℕ → Globals → Option Globals
annotate_restart now servers g = marked now g (mark_all false servers g.finfo.crashed)
