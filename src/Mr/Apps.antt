-- ===== src/Mr/Apps.antt =====
-- The word count application, mrapps/wc.go, and the indexer, mrapps/indexer.go.
pub mod Count
pub mod Index
use Prim.Native.Char.{Char}
use Prim.Native.String.{[] as end_of_text, ◌∷◌ as char_cons, ◌++◌ as text_append}
use mit.Prelude.{
  ℕ, zero, suc, ◌+◌, ◌/◌, ◌%◌, String, Bool, true, false, not, List, [], ◌∷◌, ◌++◌, if◌then◌else◌,
  nat_eqb, ltb, length, string_eq, ◌==◌, less, insert,
}
use mit.Mr.Worker.{KeyValue}

-- The word in hand, if there is one.
abbrev pub word : String → List String
word cur = if cur == "" then [] else cur ∷ []

-- `strings.FieldsFunc`: the runs of characters that are letters. `cur` is the run in hand.
abbrev pub fields : (Char → Bool) → String → String → List String
fields is_letter cur end_of_text = word cur
fields is_letter cur (char_cons c s) =
    let more = fields is_letter (text_append cur (char_cons c end_of_text)) s in
    let rest = fields is_letter "" s in if is_letter c then more else word cur ++ rest

-- The words of a text: `unicode.IsLetter` tells the letters.
abbrev pub words : (Char → Bool) → String → List String
words is_letter contents = fields is_letter "" contents

-- The loop of the word count's Map.
abbrev pub ones : List String → List KeyValue
ones [] = []
ones (w ∷ ws) = record { key = w; value = "1" } ∷ ones ws

unfoldable pub count_map : (Char → Bool) → String → String → List KeyValue
count_map is_letter filename contents = ones (words is_letter contents)

-- The word count's Reduce; `itoa` is strconv's.
abbrev pub count_reduce : (ℕ → String) → String → List String → String
count_reduce itoa key values = itoa (length values)

-- The loops of the indexer's Map, over the set of words.
abbrev pub word_set : List String → List (String × Bool) → List (String × Bool)
word_set [] m = m
word_set (w ∷ ws) m = word_set ws (insert w true m)

abbrev pub located : String → List (String × Bool) → List KeyValue
located document [] = []
located document ((w, _) ∷ m) = record { key = w; value = document } ∷ located document m

unfoldable pub index_map : (Char → Bool) → String → String → List KeyValue
index_map is_letter document value = located document (word_set (words is_letter value) [])

-- `sort.Strings`
abbrev pub insert_text : String → List String → List String
insert_text s [] = s ∷ []
insert_text s (t ∷ ts) =
    let later = insert_text s ts in if less t s then t ∷ later else s ∷ (t ∷ ts)

abbrev pub sort_texts : List String → List String
sort_texts [] = []
sort_texts (s ∷ ss) = insert_text s (sort_texts ss)

-- `strings.Join`
abbrev pub join_with : String → List String → String
join_with sep [] = ""
join_with sep (s ∷ ss) = join_more s ss
  where
    join_more : String → List String → String
    join_more acc [] = acc
    join_more acc (t ∷ ts) = join_more (text_append acc (text_append sep t)) ts

-- The indexer's Reduce.
abbrev pub index_reduce : (ℕ → String) → String → List String → String
index_reduce itoa key values =
    text_append (itoa (length values)) (text_append " " (join_with "," (sort_texts values)))
