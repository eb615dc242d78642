-- ===== src/RaftTest/Leaders.antt =====
-- raft1/test.go: the checks of leaders and terms. A round is what the servers answer to GetState,
-- by place, with `none` for one that is not connected.
pub mod Unique
use mit.Prelude.{
  ℕ, suc, ◌+◌, Bool, true, false, Option, none, some, List, [], ◌∷◌, ◌++◌, ltb, nat_eqb, length,
  get_elem?, if◌then◌else◌, nat_eq, lookup, insert,
}

-- `leaders[t]`, nil where there is none.
abbrev pub leaders_of : ℕ → List (ℕ × List ℕ) → List ℕ
leaders_of t leaders = elim (lookup t leaders) [ none ↦ [] | some is ↦ is ]

-- The first loop, from place `i` on.
abbrev pub gather : ℕ → List (Option (ℕ × Bool)) → List (ℕ × List ℕ) → List (ℕ × List ℕ)
gather i [] leaders = leaders
gather i (some (t, true) ∷ answers) leaders =
    gather (suc i) answers (insert t (leaders_of t leaders ++ i ∷ []) leaders)
gather i (_ ∷ answers) leaders = gather (suc i) answers leaders

abbrev pub is_later : ℕ → Option ℕ → Bool
is_later t none = true
is_later t (some last) = ltb last t

-- The second loop; the outer `none` is its Fatalf, and -1 is the inner one.
abbrev pub last_term : List (ℕ × List ℕ) → Option ℕ → Option (Option ℕ)
last_term [] last = some last
last_term ((t, is) ∷ leaders) last =
    let rest = last_term leaders (if is_later t last then some t else last) in
    if ltb 1 (length is) then none else rest

pub data Round : Type 0 where
  fatal nobody : Round
  leader : ℕ → Round

-- `leaders[lastTermWithLeader][0]`
abbrev pub first_of : List ℕ → Round
first_of [] = fatal
first_of (i ∷ is) = leader i

abbrev pub pick : List (ℕ × List ℕ) → Option (Option ℕ) → Round
pick leaders none = fatal
pick leaders (some none) = nobody
pick leaders (some (some last)) = first_of (leaders_of last leaders)

unfoldable pub check_round : List (Option (ℕ × Bool)) → Round
check_round answers = let leaders = gather 0 answers [] in pick leaders (last_term leaders none)

-- checkOneLeader, on the rounds that it takes; `none` is a Fatalf.
abbrev pub check_one_leader : List (List (Option (ℕ × Bool))) → Option ℕ
check_one_leader [] = none
check_one_leader (answers ∷ rounds) = elim (check_round answers) [
  | fatal ↦ none
  | nobody ↦ check_one_leader rounds
  | leader i ↦ some i
]

-- The loop of checkTerms with the term so far, `none` for -1; the outer `none` is its Fatalf.
abbrev pub terms_from : List (Option (ℕ × Bool)) → Option ℕ → Option (Option ℕ)
terms_from [] term = some term
terms_from (none ∷ answers) term = terms_from answers term
terms_from (some (xterm, _) ∷ answers) none = terms_from answers (some xterm)
terms_from (some (xterm, _) ∷ answers) (some term) =
    let rest = terms_from answers (some term) in if nat_eqb term xterm then rest else none

unfoldable pub check_terms : List (Option (ℕ × Bool)) → Option (Option ℕ)
check_terms answers = terms_from answers none

-- checkNoLeader; `false` is its Fatalf.
abbrev pub check_no_leader : List (Option (ℕ × Bool)) → Bool
check_no_leader [] = true
check_no_leader (some (_, true) ∷ answers) = false
check_no_leader (_ ∷ answers) = check_no_leader answers
