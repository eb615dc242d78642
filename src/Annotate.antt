-- ===== src/Annotate.antt =====
-- tester1/annotation.go: the annotations of a history that the tests and the framework make. The
-- time that `timestamp` reads is given by the caller; a text that is printed is its parts.
pub mod Faults
pub mod Described
pub mod Marks
pub mod Shown
pub mod Current
mod Examples
use mit.Prelude.{
  ℕ, zero, suc, ◌+◌, String, Bool, true, false, ◌&&◌, ◌||◌, not, Option, none, some, List, [], ◌∷◌,
  ◌++◌, nat_eqb, lookup, insert, delete, string_eq, get_elem?, set, replicate, if◌then◌else◌,
}

-- What Sprintf and the builder make: a string, a test with its number of servers, details behind
-- those of the checker, the partitions with the crashed servers, and two partitions.
pub data Text : Type 0 where
  plain : String → Text
  of_servers : String → ℕ → Text
  behind : Text → Text → Text
  parts : List ℕ → List ℕ → List ℕ → Text
  two_parts : List ℕ → List ℕ → Text

-- `porcupine.Annotation`
pub record Entry : Type 0 where
  pub tag : String
  pub start : ℕ
  pub stop : ℕ
  pub desp : Text
  pub details : Text
  pub color : String

pub record Continuous : Type 0 where
  pub start : ℕ
  pub desp : Text
  pub details : Text
  pub color : String

pub record Annotation : Type 0 where
  pub annotations : List Entry
  pub continuous : List (String × Continuous)
  pub finalized : Bool

unfoldable pub mk_annotation : Annotation
mk_annotation = record { annotations = []; continuous = []; finalized = false }

-- A point has no end, which is 0.
unfoldable pub annotate_point_color : ℕ → String → Text → Text → String → Annotation → Annotation
annotate_point_color now tag desp details color an = record an {
  annotations =
      an.annotations
      ++ (record { tag = tag; start = now; stop = 0; desp = desp; details = details; color = color }
          ∷ []);
}

unfoldable pub annotate_interval_color :
    ℕ → String → ℕ → Text → Text → String → Annotation → Annotation
annotate_interval_color now tag start desp details color an = record an {
  annotations =
      an.annotations
      ++ (record {
        tag = tag;
        start = start;
        stop = now;
        desp = desp;
        details = details;
        color = color;
      }
          ∷ []);
}

-- An on-going annotation that ends.
abbrev pub ended_entry : String → ℕ → Continuous → Entry
ended_entry tag now c = record {
  tag = tag;
  start = c.start;
  stop = now;
  desp = c.desp;
  details = c.details;
  color = c.color;
}

abbrev pub continue_with : ℕ → String → Continuous → Annotation → Option Continuous → Annotation
continue_with now tag new an none = record an { continuous = insert tag new an.continuous }
continue_with now tag new an (some cont) = record an {
  annotations = an.annotations ++ (ended_entry tag now cont ∷ []);
  continuous = insert tag new an.continuous;
}

unfoldable pub annotate_continuous_color :
    ℕ → String → Text → Text → String → Annotation → Annotation
annotate_continuous_color now tag desp details color an =
    continue_with now tag (record { start = now; desp = desp; details = details; color = color }) an
      (lookup tag an.continuous)

-- What Go reads of a missing entry.
abbrev pub no_continuous : Continuous
no_continuous = record { start = 0; desp = plain ""; details = plain ""; color = "" }

abbrev pub or_zero : Option Continuous → Continuous
or_zero none = no_continuous
or_zero (some c) = c

-- The branch for a tag without an on-going annotation has no return.
unfoldable pub annotate_continuous_end : ℕ → String → Annotation → Annotation
annotate_continuous_end now tag an = record an {
  annotations = an.annotations ++ (ended_entry tag now (or_zero (lookup tag an.continuous)) ∷ []);
  continuous = delete tag an.continuous;
}

unfoldable pub clear : Annotation → Annotation
clear an = mk_annotation
