-- ===== src/Annotate/Shown.antt =====
-- tester1/annotation.go: what annotateFault shows.
use mit.Prelude.{
  ℕ, ◌≡◌, refl, sym, ap, ◌∙◌, String, true, false, ◌&&◌, not, Option, none, some, inl, inr, lookup,
  lookup-insert, lookup-delete, string_eq, replicate, length, Bool-cases,
}
use mit.Annotate.{
  Text, parts, Continuous, Annotation, annotate_continuous_color, annotate_continuous_end,
  continue_with,
}
use mit.Annotate.Faults.{Globals, tag_partition, color_fault, bools_eqb, show_parts, annotate_fault}
use mit.Annotate.Described.{IsCurrent, ids, all_are, shown, bools_eqb-replicate, parts_of-ids}

pub lookup-continue :
    (now : ℕ) (tag : String) (c : Continuous) (an : Annotation) (o : Option Continuous)
    → lookup tag (continue_with now tag c an o).continuous ≡ some c
lookup-continue now tag c an none =
    lookup-insert tag tag c an.continuous ∙ rw ((string_eq.same_iff tag tag).1 refl) refl
lookup-continue now tag c an (some d) =
    lookup-insert tag tag c an.continuous ∙ rw ((string_eq.same_iff tag tag).1 refl) refl

pub lookup-end :
    (now : ℕ) (tag : String) (an : Annotation)
    → lookup tag (annotate_continuous_end now tag an).continuous ≡ none
unfolding annotate_continuous_end
lookup-end now tag an =
    lookup-delete tag tag an.continuous ∙ rw ((string_eq.same_iff tag tag).1 refl) refl

-- After a change of the servers the annotation is made again.
pub fault-IsCurrent :
    (n now : ℕ) (g : Globals)
    → g.finfo.nservers ≡ n
    → length g.finfo.connected ≡ n
    → length g.finfo.crashed ≡ n
    → (g' : Globals) × (annotate_fault now g ≡ some g')
      × IsCurrent n
          (record { connected = g.finfo.connected; crashed = g.finfo.crashed; named = none })
          g'
unfolding annotate_fault annotate_continuous_color
fault-IsCurrent n now g e f h =
    let ups : bools_eqb (replicate g.finfo.nservers true) g.finfo.connected
        ≡ all_are true g.finfo.connected =
      ap (λ k. bools_eqb (replicate k true) g.finfo.connected) (e ∙ sym f)
      ∙ bools_eqb-replicate true g.finfo.connected in
    let downs : bools_eqb (replicate g.finfo.nservers false) g.finfo.crashed
        ≡ all_are false g.finfo.crashed =
      ap (λ k. bools_eqb (replicate k false) g.finfo.crashed) (e ∙ sym h)
      ∙ bools_eqb-replicate false g.finfo.crashed in
    elim (Bool-cases (all_are true g.finfo.connected && all_are false g.finfo.crashed)) [
      | inl y ↦ (
        record g { annotation = annotate_continuous_end now tag_partition g.annotation },
        rw (ups, downs, y) refl,
        record {
          servers = e;
          connected = refl;
          crashed = refl;
          connections = f;
          crashes = h;
          showing = ap shown (lookup-end now tag_partition g.annotation) ∙ rw y refl;
        },
      )
      | inr m ↦
          let p = parts_of-ids 0 g.finfo.connected g.finfo.crashed (f ∙ sym h) in
          let text : Text =
            parts (ids (λ b c. not c && not b) 0 g.finfo.connected g.finfo.crashed)
              (ids (λ b c. not c && b) 0 g.finfo.connected g.finfo.crashed)
              (ids (λ b c. c) 0 g.finfo.connected g.finfo.crashed) in
          (
            record g {
              annotation =
                  annotate_continuous_color now tag_partition text text color_fault g.annotation;
            },
            rw (ups, downs, m) (ap (show_parts now g) p),
            record {
              servers = e;
              connected = refl;
              crashed = refl;
              connections = f;
              crashes = h;
              showing = ap shown (lookup-continue now tag_partition _ g.annotation _) ∙ rw m refl;
            },
          )
    ]
