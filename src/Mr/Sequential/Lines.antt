-- ===== src/Mr/Sequential/Lines.antt =====
-- The lines that a key has in the output of main/mrsequential.go and of a reduce task.
use mit.Prelude.{
  ℕ, ◌≡◌, ◌≢◌, refl, sym, ap, ◌∙◌, subst, arith, String, false, Option, some, List, [], ◌∷◌, ◌++◌,
  if◌then◌else◌, string_eq, nat_eq, ◌==◌, less, Bool-cases, Option-cases, inl, inr, lookup, insert,
  lookup-insert, map, append-nil,
}
use mathlib.Core.List.{append_assoc}
use mit.Mr.Worker.{KeyValue, held, append_at, add_pairs, reduce_all, read_pairs}
use mit.Mr.Worker.Shuffle.{values}
use mit.Mr.Sequential.{group_on, groups}
use mit.Mr.Sequential.Order.{IsOrdered, values-gone}

-- The outputs that stand at a key.
abbrev pub outputs : String → List (String × String) → List String
outputs k [] = []
outputs k ((j, out) ∷ lines) = let rest = outputs k lines in if j == k then out ∷ rest else rest

-- One output for a key that has values, and none for a key that has none.
abbrev pub one_line : (String → List String → String) → String → List String → List String
one_line reducef k [] = []
one_line reducef k (v ∷ vs) = reducef k (v ∷ vs) ∷ []

pub outputs-append :
    (k : String) (xs ys : List (String × String))
    → outputs k (xs ++ ys) ≡ outputs k xs ++ outputs k ys
outputs-append k [] ys = refl
outputs-append k ((j, out) ∷ xs) ys = elim (Bool-cases (j == k)) [
  | inl y ↦ rw (y, outputs-append k xs ys)
  | inr n ↦ rw (n, outputs-append k xs ys)
]

one_line-some :
    (reducef : String → List String → String) (k : String) (vs ws : List String) (v : String)
    → one_line reducef k ((vs ++ v ∷ []) ++ ws) ≡ reducef k ((vs ++ v ∷ []) ++ ws) ∷ []
one_line-some reducef k [] ws v = refl
one_line-some reducef k (x ∷ vs) ws v = refl

IsOrdered-head :
    (a b : KeyValue) (l rest : List KeyValue)
    → IsOrdered (a ∷ l)
    → l ≡ b ∷ rest
    → less b.key a.key ≡ false
IsOrdered-head a b [] rest o e = cc
IsOrdered-head a b (c ∷ l) rest o e =
    let same : c ≡ b = cc in subst (λ x. less x.key a.key ≡ false) same o.0

IsOrdered-tail : (a : KeyValue) (l : List KeyValue) → IsOrdered (a ∷ l) → IsOrdered l
IsOrdered-tail a [] o = tt
IsOrdered-tail a (b ∷ l) o = o.1

same_key : (j k : String) → (j == k) ≡ false → j ≢ k
same_key j k n e = cc ((string_eq.same_iff j k).1 e, n)

values-other :
    (k : String) (kv : KeyValue) (l : List KeyValue)
    → (kv.key == k) ≡ false
    → values k (kv ∷ l) ≡ values k l
values-other k kv l n = rw n

-- From the group of `key` on, with the values so far.
group_on-outputs :
    (reducef : String → List String → String) (k key : String) (vals : List String)
    (l : List KeyValue)
    → ((b : KeyValue) (rest : List KeyValue) → l ≡ b ∷ rest → less b.key key ≡ false)
    → IsOrdered l
    → outputs k (reduce_all reducef (group_on key vals l)) ≡ (
        if key == k
        then reducef key (vals ++ values key l) ∷ []
        else one_line reducef k (values k l))
group_on-outputs reducef k key vals [] first o = elim (Bool-cases (key == k)) [
  | inl y ↦ rw (y, append-nil)
  | inr n ↦ rw n
]
group_on-outputs reducef k key vals (kv ∷ rest) first o = elim (Bool-cases (kv.key == key)) [
  | inl y ↦
      let e : kv.key ≡ key = (string_eq.same_iff kv.key key).0 y in
      let later =
        group_on-outputs reducef k key (vals ++ kv.value ∷ []) rest
          (λ b r q. subst (λ j. less b.key j ≡ false) e (IsOrdered-head kv b rest r o q))
          (IsOrdered-tail kv rest o) in
      elim (Bool-cases (key == k)) [
        | inl z ↦ rw (y, later, z, append_assoc)
        | inr n ↦
            let other : (kv.key == k) ≡ false = ap (λ j. j == k) e ∙ n in rw (y, later, n, other)
      ]
  | inr n ↦
      let gone : values key (kv ∷ rest) ≡ [] =
        values-gone key kv rest (first kv rest refl) (same_key kv.key key n) o in
      let later =
        group_on-outputs reducef k kv.key (kv.value ∷ []) rest
          (λ b r q. IsOrdered-head kv b rest r o q) (IsOrdered-tail kv rest o) in
      elim (Bool-cases (key == k)) [
        | inl z ↦
            let same : key ≡ k = (string_eq.same_iff key k).0 z in
            let other : (kv.key == k) ≡ false = ap (λ j. kv.key == j) (sym same) ∙ n in
            let empty : values key rest ≡ [] = sym (values-other key kv rest n) ∙ gone in
            let empty_k : values k rest ≡ [] = subst (λ j. values j rest ≡ []) same empty in
            rw (n, z, later, other, empty, empty_k, append-nil)
        | inr m ↦ elim (Bool-cases (kv.key == k)) [
          | inl w ↦ rw (n, m, later, w, (string_eq.same_iff kv.key k).0 w)
          | inr w ↦ rw (n, m, later, w)
        ]
      ]
]

pub groups-outputs :
    (reducef : String → List String → String) (k : String) (l : List KeyValue)
    → IsOrdered l
    → outputs k (reduce_all reducef (groups l)) ≡ one_line reducef k (values k l)
groups-outputs reducef k [] o = refl
groups-outputs reducef k (kv ∷ rest) o =
    let all =
      group_on-outputs reducef k kv.key (kv.value ∷ []) rest
        (λ b r q. IsOrdered-head kv b rest r o q) (IsOrdered-tail kv rest o) in
    elim (Bool-cases (kv.key == k)) [
      | inl y ↦ rw (all, y, (string_eq.same_iff kv.key k).0 y)
      | inr n ↦ rw (all, n)
    ]

-- The lists of values that a map holds at a key; a map from Go holds one at most, and with values.
abbrev pub entries : String → List (String × List String) → List (List String)
entries k [] = []
entries k ((j, vs) ∷ m) = let rest = entries k m in if j == k then vs ∷ rest else rest

abbrev pub entry_of : List String → List (List String)
entry_of [] = []
entry_of (v ∷ vs) = (v ∷ vs) ∷ []

abbrev pub IsClean : List (String × List String) → Type 0
IsClean m = (k : String) → entries k m ≡ entry_of (held (lookup k m))

abbrev pub tail_of : List (List String) → List (List String)
tail_of [] = []
tail_of (x ∷ xs) = xs

entries-insert :
    (j k : String) (vs : List String) (m : List (String × List String))
    → entries j (insert k vs m) ≡ (if k == j then vs ∷ tail_of (entries j m) else entries j m)
unfolding insert
entries-insert j k vs [] = elim (Bool-cases (k == j)) [ inl y ↦ rw y | inr n ↦ rw n ]
entries-insert j k vs ((i, ws) ∷ m) = ground (
  arith,
  entries-insert j k vs m,
  string_eq.same_iff i k,
  string_eq.same_iff k j,
  string_eq.same_iff i j,
)

tail_of-entry_of : (vs : List String) → tail_of (entry_of vs) ≡ []
tail_of-entry_of [] = refl
tail_of-entry_of (v ∷ vs) = refl

entry_of-append : (vs : List String) (v : String) → entry_of (vs ++ v ∷ []) ≡ (vs ++ v ∷ []) ∷ []
entry_of-append [] v = refl
entry_of-append (x ∷ vs) v = refl

append_at-IsClean :
    (k v : String) (m : List (String × List String)) → IsClean m → IsClean (append_at k v m)
append_at-IsClean k v m c j =
    let vs = held (lookup k m) ++ v ∷ [] in
    elim (Bool-cases (k == j)) [
      | inl y ↦
          let alone : tail_of (entries j m) ≡ [] =
            ap tail_of (c j) ∙ tail_of-entry_of (held (lookup j m)) in
          rw (
            entries-insert j k vs m,
            lookup-insert k j vs m,
            y,
            alone,
            entry_of-append (held (lookup k m)) v,
          )
      | inr n ↦ rw (entries-insert j k vs m, lookup-insert k j vs m, n, c j)
    ]

add_pairs-IsClean :
    (slc : List KeyValue) (m : List (String × List String)) → IsClean m → IsClean (add_pairs slc m)
add_pairs-IsClean [] m c = c
add_pairs-IsClean (kv ∷ slc) m c =
    add_pairs-IsClean slc (append_at kv.key kv.value m) (append_at-IsClean kv.key kv.value m c)

pub read_pairs-IsClean {ℓ} :
    {Bytes : Type ℓ} (decode : Bytes → Option (List KeyValue)) (r : ℕ)
    (dir : List (List (ℕ × Bytes))) (kvs m : List (String × List String))
    → IsClean kvs
    → read_pairs decode r dir kvs ≡ some m
    → IsClean m
read_pairs-IsClean decode r [] kvs m c h = let same : kvs ≡ m = cc in subst IsClean same c
read_pairs-IsClean decode r (files ∷ dir) kvs m c h = elim (Option-cases (lookup r files)) [
  | inl e ↦ read_pairs-IsClean decode r dir kvs m c (ground arith)
  | inr (bytes, e) ↦ elim (Option-cases (decode bytes)) [
    | inl d ↦ absurd (ground arith)
    | inr (slc, d) ↦
        read_pairs-IsClean decode r dir (add_pairs slc kvs) m (add_pairs-IsClean slc kvs c)
          (ground arith)
  ]
]

reduce_all-outputs :
    (reducef : String → List String → String) (k : String) (m : List (String × List String))
    → outputs k (reduce_all reducef m) ≡ map (reducef k) (entries k m)
reduce_all-outputs reducef k [] = refl
reduce_all-outputs reducef k ((j, vs) ∷ m) = elim (Bool-cases (j == k)) [
  | inl y ↦ rw (y, (string_eq.same_iff j k).0 y, reduce_all-outputs reducef k m)
  | inr n ↦ rw (n, reduce_all-outputs reducef k m)
]

map-entry_of :
    (reducef : String → List String → String) (k : String) (vs : List String)
    → map (reducef k) (entry_of vs) ≡ one_line reducef k vs
map-entry_of reducef k [] = refl
map-entry_of reducef k (v ∷ vs) = refl

-- The lines of a clean map: one for a key with values, and none for another.
pub IsClean-outputs :
    (reducef : String → List String → String) (k : String) (m : List (String × List String))
    → IsClean m
    → outputs k (reduce_all reducef m) ≡ one_line reducef k (held (lookup k m))
IsClean-outputs reducef k m c =
    reduce_all-outputs reducef k m
    ∙ ap (map (reducef k)) (c k)
    ∙ map-entry_of reducef k (held (lookup k m))

pub IsClean-nil : IsClean []
unfolding lookup
IsClean-nil k = refl
