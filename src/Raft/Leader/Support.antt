-- ===== src/Raft/Leader/Support.antt =====
-- Which servers hold an entry that singleHeartBeat of raft1/raft.go commits.
use mit.Prelude.{
  ℕ, zero, suc, ◌-◌, ◌+◌, ◌/◌, ◌≤◌, ◌<◌, ◌≡◌, ◌≢◌, refl, sym, ap, ◌∙◌, arith, Bool, true, false,
  some, List, [], ◌∷◌, nat_eqb, ltb, length, get_elem?, set, length-set, get_elem?-set_self,
  get_elem?-set_ne, get_elem?-lt, ◌&&◌, ◌⊎◌, inl, inr, Option-cases, sorted, count_ge,
  sorted-support, sorted-reaches,
}
use mit.Raft.{LogEntry, Raft, leading, state_eqb}
use mit.Raft.Append.{AppendEntriesReply}
use mit.Raft.Leader.{commit_place, try_commit, caught_up, heartbeat_reply}

one-count : (c : ℕ) (xs : List ℕ) (p a : ℕ) → get_elem? xs p ≡ some a → c ≤ a → 1 ≤ count_ge c xs
one-count c [] p a h k = cc
one-count c (x ∷ xs) zero a h k = ground arith
one-count c (x ∷ xs) (suc p) a h k = omega (arith, one-count c xs p a h k)

two-count :
    (c : ℕ) (xs : List ℕ) (p q a b : ℕ)
    → p ≢ q
    → get_elem? xs p ≡ some a
    → get_elem? xs q ≡ some b
    → c ≤ a
    → c ≤ b
    → 2 ≤ count_ge c xs
two-count c [] p q a b ne h k ha hb = cc
two-count c (x ∷ xs) zero zero a b ne h k ha hb = absurd (ne refl)
two-count c (x ∷ xs) zero (suc q) a b ne h k ha hb = ground (arith, one-count c xs q b k hb)
two-count c (x ∷ xs) (suc p) zero a b ne h k ha hb = ground (arith, one-count c xs p a h ha)
two-count c (x ∷ xs) (suc p) (suc q) a b ne h k ha hb =
    omega (arith, two-count c xs p q a b (λ e. ne (ap suc e)) h k ha hb)

module _ {ℓ} {V : Type ℓ} where
  -- What an attempt to commit does: nothing, or the index moves up to an entry of the current
  -- term that all servers but `commit_place` of them are known to hold.
  try_commit-support :
      (rf rf' : Raft V)
      → try_commit rf ≡ some rf'
      → (rf' ≡ rf)
        ⊎ ((c : ℕ) × (e : LogEntry V) × (rf' ≡ record rf { commit_index = c; commit_signal = true })
            × (get_elem? (sorted rf.match_index) (commit_place rf.peers) ≡ some c)
            × (rf.commit_index < c)
            × (get_elem? rf.log c ≡ some e)
            × (e.term ≡ rf.current_term))
  try_commit-support rf rf' h =
      elim (Option-cases (get_elem? (sorted rf.match_index) (commit_place rf.peers))) [
        | inl k ↦ absurd (ground arith)
        | inr (c, k) ↦ elim (Option-cases (get_elem? rf.log c)) [
          | inl l ↦ absurd (ground arith)
          | inr (e, l) ↦ elim (moves rf c e) [
            | inl no_move ↦ inl (ground arith)
            | inr (lt, eq) ↦ inr (c, e, ground arith, k, lt, l, eq)
          ]
        ]
      ]
    where
      moves :
          (rf : Raft V) (c : ℕ) (e : LogEntry V)
          → ((ltb rf.commit_index c && nat_eqb e.term rf.current_term) ≡ false)
            ⊎ ((rf.commit_index < c) × (e.term ≡ rf.current_term))
      moves rf c e = ground arith

  length-caught_up :
      (rf : Raft V) (i : ℕ) → length (caught_up rf i).match_index ≡ length rf.match_index
  length-caught_up rf i =
      length-set (set rf.match_index i (length rf.log - 1)) rf.me (length rf.log - 1)
      ∙ length-set rf.match_index i (length rf.log - 1)

  supported :
      (rf : Raft V) (i c : ℕ)
      → length rf.match_index ≡ rf.peers
      → get_elem? (sorted (caught_up rf i).match_index) (commit_place rf.peers) ≡ some c
      → rf.peers ≤ count_ge c (caught_up rf i).match_index + (rf.peers / 2 + 1)
  supported rf i c full place = omega (
    arith,
    sorted-support (caught_up rf i).match_index (commit_place rf.peers) c place,
    length-caught_up rf i,
  )

  -- After a reply, on every branch, with `n` servers: the commit index stays, or it moves up to an
  -- entry of the current term that the match indexes of all servers but n / 2 + 1 reach.
  pub commit_support :
      (now i : ℕ) (rf rf' : Raft V) (is_ok again : Bool) (r : AppendEntriesReply)
      → length rf.match_index ≡ rf.peers
      → heartbeat_reply now rf i is_ok r ≡ some (again, rf')
      → (rf'.commit_index ≡ rf.commit_index)
        ⊎ ((e : LogEntry V) × (rf.commit_index < rf'.commit_index)
            × (get_elem? rf'.log rf'.commit_index ≡ some e)
            × (e.term ≡ rf'.current_term)
            × (rf.peers ≤ count_ge rf'.commit_index rf'.match_index + (rf.peers / 2 + 1)))
  unfolding heartbeat_reply
  commit_support now i rf rf' is_ok again r full h =
      elim (Option-cases (try_commit (caught_up rf i))) [
        | inl k ↦ inl (ground arith)
        | inr (rf2, k) ↦ elim (try_commit-support (caught_up rf i) rf2 k) [
          | inl same ↦ inl (ground arith)
          | inr (c, e, eq, place, lt, l, cur) ↦ elim (replied rf is_ok r) [
            | inl took ↦
                let final : rf'
                    ≡ record (caught_up rf i) { commit_index = c; commit_signal = true } =
                  ground arith in
                rw final (inr (e, lt, l, cur, supported rf i c full place))
            | inr not_taken ↦ inl (ground arith)
          ]
        ]
      ]
    where
      replied :
          (rf : Raft V) (is_ok : Bool) (r : AppendEntriesReply)
          → ((state_eqb rf.state leading && (is_ok && r.success)) ≡ true)
            ⊎ ((state_eqb rf.state leading && (is_ok && r.success)) ≡ false)
      replied rf is_ok r = ground arith

  -- The leader and a server that has just succeeded both count as holding the whole log.
  caught_up-two :
      (rf : Raft V) (i : ℕ)
      → length rf.match_index ≡ rf.peers
      → i < rf.peers
      → rf.me < rf.peers
      → i ≢ rf.me
      → 2 ≤ count_ge (length rf.log - 1) (caught_up rf i).match_index
  caught_up-two rf i full i_in me_in ne =
      let m = length rf.log - 1 in
      let once = set rf.match_index i m in
      two-count m (caught_up rf i).match_index i rf.me m m ne
        (get_elem?-set_ne once m (λ e. ne (sym e))
          ∙ get_elem?-set_self rf.match_index i m (omega arith))
        (get_elem?-set_self once rf.me m (omega (arith, length-set rf.match_index i m)))
        (omega arith) (omega arith)

  -- A success of one server `i` besides the leader is enough, in a cluster of five or six, to
  -- commit the leader's whole log, whatever the other servers hold, if the last entry is of the
  -- current term and above the commit index.
  pub one_reply_commits :
      (now i : ℕ) (rf rf' : Raft V) (again : Bool) (r : AppendEntriesReply) (e : LogEntry V)
      → length rf.match_index ≡ rf.peers
      → 5 ≤ rf.peers
      → rf.peers ≤ 6
      → i < rf.peers
      → rf.me < rf.peers
      → i ≢ rf.me
      → rf.state ≡ leading
      → r.success ≡ true
      → get_elem? rf.log (length rf.log - 1) ≡ some e
      → e.term ≡ rf.current_term
      → rf.commit_index < length rf.log - 1
      → heartbeat_reply now rf i true r ≡ some (again, rf')
      → rf'.commit_index ≡ length rf.log - 1
  unfolding heartbeat_reply
  one_reply_commits now i rf rf' again r e full lo hi i_in me_in ne leads took last cur behind h =
      elim (Option-cases
        (get_elem? (sorted (caught_up rf i).match_index) (commit_place rf.peers))) [
          | inl k ↦ absurd (ground arith)
          | inr (c, k) ↦ elim (Option-cases (get_elem? rf.log c)) [
            | inl l ↦ absurd (ground arith)
            | inr (e', l) ↦
                let top : c ≡ length rf.log - 1 = omega (
                  arith,
                  sorted-reaches (caught_up rf i).match_index (commit_place rf.peers) c
                      (length rf.log - 1) k
                      (omega (arith, caught_up-two rf i full i_in me_in ne, length-caught_up rf i)),
                  get_elem?-lt rf.log c e' l,
                ) in
                ground arith
          ]
        ]
