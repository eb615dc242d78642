-- ===== src/Raft/Apply/Order.antt =====
-- The order of what commitIndexLoop of raft1/raft.go sends.
use mit.Prelude.{
  ℕ, zero, suc, ◌-◌, ◌+◌, ◌<◌, ◌≤◌, ◌≡◌, refl, ap, sym, subst, ◌∙◌, arith, not, some, get_elem?,
  List, [], ◌∷◌, ◌++◌, length, drop, take, length-drop, length-take, take-append-drop,
}
use native.Mathlib.Nat.{add-zero}
use mit.Raft.{LogEntry, Raft}
use mit.Raft.Apply.{ApplyMsg, pushed, messages, apply_round}

get_elem?-drop {ℓ} :
    {A : Type ℓ} (n p : ℕ) (xs : List A) → get_elem? (drop n xs) p ≡ get_elem? xs (n + p)
get_elem?-drop zero p xs = ap (get_elem? xs) (omega arith)
get_elem?-drop (suc n) p [] = refl
get_elem?-drop (suc n) p (x ∷ xs) =
    let e : suc (n + p) ≡ suc n + p = omega arith in
    get_elem?-drop n p xs ∙ ap (get_elem? (x ∷ xs)) e

module _ {ℓ} {V : Type ℓ} where
  abbrev pub message : ℕ → LogEntry V → ApplyMsg V
  message i l = record { command_valid = not l.noop; command = l.value; command_index = i }

  length-messages : (i : ℕ) (ls : List (LogEntry V)) → length (messages i ls) ≡ length ls
  length-messages i [] = refl
  length-messages i (l ∷ ls) = ap suc (length-messages (suc i) ls)

  messages-append :
      (i : ℕ) (xs ys : List (LogEntry V))
      → messages i (xs ++ ys) ≡ messages i xs ++ messages (i + length xs) ys
  messages-append i [] ys = rw add-zero
  messages-append i (x ∷ xs) ys =
      ap (◌∷◌ (message i x)) (
        messages-append (suc i) xs ys
        ∙ ap (λ k. messages (suc i) xs ++ messages k ys) (omega arith))

  -- What a round sends continues what was sent for the entries before it: together they are the
  -- messages of the whole log in order, with no index left out or sent twice, and the next round
  -- starts behind the log.
  pub apply_continues :
      (rf : Raft V) (next next' : ℕ) (msgs : List (ApplyMsg V))
      → apply_round rf next ≡ pushed msgs next'
      → (messages 0 (take next rf.log) ++ msgs ≡ messages 0 rf.log) × (next' ≡ length rf.log)
  unfolding apply_round
  apply_continues rf next next' msgs h =
      let inside : next ≤ length rf.log = ground arith in
      let count : 0 + length (take next rf.log) ≡ next = omega (arith, length-take next rf.log) in
      let sent : msgs ≡ messages next (drop next rf.log) = ground arith in
      (
        rw sent (
            subst
              (λ k.
                messages 0 (take next rf.log) ++ messages k (drop next rf.log) ≡ messages 0 rf.log)
              count
              (sym (messages-append 0 (take next rf.log) (drop next rf.log))
                ∙ ap (messages 0) (take-append-drop next rf.log))),
        ground (arith, length-drop next rf.log),
      )

  get_elem?-messages :
      (k p : ℕ) (ls : List (LogEntry V)) (l : LogEntry V)
      → get_elem? ls p ≡ some l
      → get_elem? (messages k ls) p ≡ some (message (k + p) l)
  get_elem?-messages k p [] l h = cc
  get_elem?-messages k zero (x ∷ ls) l h =
      let same : x ≡ l = cc in
      ap (λ y. some (message k y)) same ∙ ap (λ j. some (message j l)) (omega arith)
  get_elem?-messages k (suc p) (x ∷ ls) l h =
      get_elem?-messages (suc k) p ls l h ∙ ap (λ j. some (message j l)) (omega arith)

  -- A round that wakes sends also the entries that are not committed: an entry of the log at an
  -- index `i` behind the commit index is sent, with its value and that index.
  pub apply_passes_commit :
      (rf : Raft V) (next next' i : ℕ) (msgs : List (ApplyMsg V)) (l : LogEntry V)
      → apply_round rf next ≡ pushed msgs next'
      → get_elem? rf.log i ≡ some l
      → rf.commit_index < i
      → get_elem? msgs (i - next)
        ≡ some (record { command_valid = not l.noop; command = l.value; command_index = i })
  unfolding apply_round
  apply_passes_commit rf next next' i msgs l h at behind =
      let awake : next ≤ rf.commit_index = ground arith in
      let place : next + (i - next) ≡ i = omega arith in
      let sent : msgs ≡ messages next (drop next rf.log) = ground arith in
      rw sent (
        get_elem?-messages next (i - next) (drop next rf.log) l
          (get_elem?-drop next (i - next) rf.log ∙ ap (get_elem? rf.log) place ∙ at)
        ∙ ap (λ j. some (message j l)) place)
