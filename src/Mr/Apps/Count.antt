-- ===== src/Mr/Apps/Count.antt =====
-- The word count, mrapps/wc.go, as a job.
use mit.Prelude.{
  ℕ, zero, suc, ◌+◌, ◌<◌, ◌≡◌, refl, ap, ◌∙◌, arith, String, Bool, Option, some, List, [], ◌∷◌,
  if◌then◌else◌, length, length-append, string_eq, ◌==◌,
}
use Prim.Native.Char.{Char}
use mit.Mr.Worker.{KeyValue}
use mit.Mr.Worker.Shuffle.{values, all_values}
use mit.Mr.Sequential.{distributed}
use mit.Mr.Sequential.Lines.{outputs, one_line}
use mit.Mr.Sequential.Refines.{map_outputs, distributed-outputs}
use mit.Mr.Apps.{words, ones, count_map, count_reduce}

abbrev pub occurrences : String → List String → ℕ
occurrences w [] = 0
occurrences w (x ∷ xs) = (if x == w then 1 else 0) + occurrences w xs

-- How often a word stands in the texts.
abbrev pub occurs : (Char → Bool) → String → List (String × String) → ℕ
occurs is_letter w [] = 0
occurs is_letter w ((_, content) ∷ inputs) =
    occurrences w (words is_letter content) + occurs is_letter w inputs

-- The line of a word that occurs so often.
abbrev pub counted : (ℕ → String) → ℕ → List String
counted itoa zero = []
counted itoa (suc n) = itoa (suc n) ∷ []

values-ones : (w : String) (ws : List String) → length (values w (ones ws)) ≡ occurrences w ws
values-ones w [] = refl
values-ones w (x ∷ ws) = ground (arith, values-ones w ws)

length-all_values :
    (is_letter : Char → Bool) (w : String) (inputs : List (String × String))
    → length (all_values w (map_outputs (count_map is_letter) inputs)) ≡ occurs is_letter w inputs
unfolding count_map
length-all_values is_letter w [] = refl
length-all_values is_letter w ((f, content) ∷ inputs) = omega (
  arith,
  length-append (values w (ones (words is_letter content)))
      (all_values w (map_outputs (count_map is_letter) inputs)),
  values-ones w (words is_letter content),
  length-all_values is_letter w inputs,
)

one_line-counted :
    (itoa : ℕ → String) (w : String) (vs : List String)
    → one_line (count_reduce itoa) w vs ≡ counted itoa (length vs)
one_line-counted itoa w [] = refl
one_line-counted itoa w (v ∷ vs) = refl

-- A word count over any files, each task run once, ends, and its output has, for each word that stands in a file, one
-- line with the number of times that it does, and no line for any other key: if there is a reduce
-- task and JSON reads back what it wrote.
pub wc_counts {ℓ} :
    {Bytes : Type ℓ} (fnv : String → ℕ) (encode : List KeyValue → Bytes)
    (decode : Bytes → Option (List KeyValue)) (n_reduce : ℕ) (is_letter : Char → Bool)
    (itoa : ℕ → String) (inputs : List (String × String))
    → ((slc : List KeyValue) → decode (encode slc) ≡ some slc)
    → 0 < n_reduce
    → (lines : List (String × String)) × (distributed fnv encode decode n_reduce
          (count_map is_letter)
          (count_reduce itoa)
          inputs
        ≡ some lines)
      × ((w : String) → outputs w lines ≡ counted itoa (occurs is_letter w inputs))
wc_counts fnv encode decode n_reduce is_letter itoa inputs back some_task =
    let (lines, ran, have) =
      distributed-outputs fnv encode decode n_reduce back (count_reduce itoa) (count_map is_letter)
        inputs some_task in
    (
      lines,
      ran,
      λ w.
          have w
          ∙ one_line-counted itoa w _
          ∙ ap (counted itoa) (length-all_values is_letter w inputs),
    )
