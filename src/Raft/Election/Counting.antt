-- ===== src/Raft/Election/Counting.antt =====
-- The wait for votes in candidateLoop (raft1/raft.go) and its early exits.
use mit.Prelude.{ℕ, ◌+◌, Bool, true, false, ◌&&◌, not, List, [], ◌∷◌, ltb, leb, if◌then◌else◌}
use mit.Raft.Vote.{RequestVoteReply}
use mit.Raft.Election.{Count, counted}

abbrev pub grants : List RequestVoteReply → ℕ
grants [] = 0
grants (r ∷ rs) = (if r.vote_granted then 1 else 0) + grants rs

-- A refusal by a server of a newer term.
abbrev pub reports_newer : ℕ → List RequestVoteReply → Bool
reports_newer term [] = false
reports_newer term (r ∷ rs) =
    let rest = reports_newer term rs in if not r.vote_granted && ltb term r.term then true else rest

-- Whether the wait ended with enough votes.
abbrev pub wins : ℕ → Count → Bool
wins yes_needed (counted y n) = leb yes_needed y
wins yes_needed _ = false

abbrev pub is_counted : Count → Bool
is_counted (counted y n) = true
is_counted _ = false
