-- ===== src/RaftTest/Examples.antt =====
-- The theorems on raft1/test.go and raft1/server.go for three servers and commands that are
-- numbers; 0 is nil.
use mit.Prelude.{
  ℕ, zero, suc, ◌≤◌, ◌≡◌, refl, sym, ap, ◌∙◌, arith, Bool, true, false, ◌↔◌, Option, none, some,
  List, [], ◌∷◌, get_elem?, nat_eq, lookup, insert,
}
use mathlib.Core.Option.{some-injective, none-ne-some}
use mit.Raft.{LogEntry}
use mit.Raft.Apply.{ApplyMsg, messages}
use mit.RaftTest.{
  ErrMsg, fine, out_of_order, RaftServer, new_raft_server, Test, counted, entry, is_fine,
  check_logs, n_committed,
}
use mit.RaftTest.Agree.{AllHave, IsAgreed, check_logs-IsAgreed}
use mit.RaftTest.Count.{holders, Covers, IsQuiet, n_committed-holders}
use mit.KvSrv.Clerk.{Delivery, delivered}
use mit.RaftTest.Applier.{Rfsrv, applier}
use mit.RaftTest.Applied.{IsFaithful, IsPlain, applier-messages}
use mit.RaftTest.Snapshots.{snapshot_msg, Turn, value_or, apply_snap, snapshot_at}
use mit.RaftTest.Snapshots.CatchUp.{snapshot_catches_up}
use mit.RaftTest.Leaders.{check_round}
use mit.RaftTest.Leaders.Unique.{check_round-leader}

abbrev newcomer : RaftServer ℕ
newcomer = new_raft_server 1

abbrev behind : RaftServer ℕ
behind = record newcomer { logs = (1, 5) ∷ [] }

abbrev three : Test ℕ
three = record { srvs = behind ∷ newcomer ∷ newcomer ∷ []; max_index = 1 }

abbrev msg : ℕ → ℕ → ApplyMsg ℕ
msg i v = record { command_valid = true; command = v; command_index = i }

check_logs-IsAgreed_example :
    (err : ErrMsg) × (prevok : Bool) × (ts' : Test ℕ) × (check_logs three 1 (msg 1 6)
      ≡ some ((err, prevok), ts'))
    × ((err ≡ fine) ↔ AllHave 1 6 three.srvs)
    × (IsAgreed three → err ≡ fine → IsAgreed ts')
check_logs-IsAgreed_example = check_logs-IsAgreed three 1 newcomer (msg 1 6) refl

-- Only the server of place 0 has an entry.
entry_three :
    (i : ℕ) (a : RaftServer ℕ) (k v : ℕ)
    → get_elem? three.srvs i ≡ some a
    → entry a k ≡ some v
    → (k ≡ 1) × (v ≡ 5)
unfolding lookup
entry_three zero a k v at en =
    let en' : entry behind k ≡ some v = ap (λ s. entry s k) (some-injective behind a at) ∙ en in
    ground arith
entry_three (suc zero) a k v at en =
    absurd (none-ne-some v (ap (λ s. entry s k) (some-injective newcomer a at) ∙ en))
entry_three (suc (suc zero)) a k v at en =
    absurd (none-ne-some v (ap (λ s. entry s k) (some-injective newcomer a at) ∙ en))
entry_three (suc (suc (suc i))) a k v at en = cc

three-IsAgreed : IsAgreed three
three-IsAgreed i j a b k v w at_a at_b en_a en_b =
    (entry_three i a k v at_a en_a).1 ∙ sym (entry_three j b k w at_b en_b).1

three-IsQuiet : IsQuiet three.srvs
three-IsQuiet zero rs at = ap (λ s. is_fine s.apply_err) (some-injective rs behind (sym at))
three-IsQuiet (suc zero) rs at = ap (λ s. is_fine s.apply_err) (some-injective rs newcomer (sym at))
three-IsQuiet (suc (suc zero)) rs at =
    ap (λ s. is_fine s.apply_err) (some-injective rs newcomer (sym at))
three-IsQuiet (suc (suc (suc i))) rs at = cc

n_committed-holders_example :
    (cmd : Option ℕ) × (n_committed three 1 ≡ counted (holders 1 three.srvs) cmd)
    × Covers 1 three.srvs cmd
n_committed-holders_example = n_committed-holders 1 three three-IsAgreed three-IsQuiet

abbrev answers : List (Option (ℕ × Bool))
answers = some (2, true) ∷ none ∷ some (4, true) ∷ some (4, false) ∷ []

check_round-leader_example :
    (t : ℕ) × (get_elem? answers 2 ≡ some (some (t, true)))
    × ((j u : ℕ) → get_elem? answers j ≡ some (some (u, true)) → (u ≤ t) × (u ≡ t → j ≡ 2))
unfolding check_round lookup insert
check_round-leader_example = check_round-leader answers 2 refl

abbrev noop : LogEntry ℕ
noop = record { term = 0; noop = true; value = 0 }

abbrev five : LogEntry ℕ
five = record { term = 1; noop = false; value = 5 }

five-IsPlain : IsPlain (five ∷ [])
five-IsPlain zero l at = ap (λ e. e.noop) (some-injective l five (sym at))
five-IsPlain (suc p) l at = cc

three-IsFaithful : IsFaithful 1 (five ∷ []) three.srvs
three-IsFaithful zero l at j rs w got en =
    (entry_three j rs 1 w got en).1 ∙ ap (λ e. e.value) (some-injective five l at)
three-IsFaithful (suc p) l at j rs w got en = cc

abbrev arriving : ℕ → Delivery × Delivery
arriving k = (delivered, delivered)

applier-messages_example :
    (ts' : Test ℕ) × (me' : RaftServer ℕ) × (applier arriving 0 three 2
        (messages 0 (noop ∷ (five ∷ [])))
      ≡ some ts')
    × (get_elem? ts'.srvs 2 ≡ some me')
    × (me'.apply_err ≡ fine)
    × ((p : ℕ) (l : LogEntry ℕ)
        → get_elem? (five ∷ []) p ≡ some l
        → entry me' (suc p) ≡ some l.value)
applier-messages_example =
    applier-messages arriving three 2 newcomer noop (five ∷ []) (λ k. refl) refl refl refl
      five-IsPlain three-IsFaithful

-- A server that has applied the entries up to 8, and what it is after entry 9.
abbrev ahead : Rfsrv ℕ
ahead = record { me = 0; last_applied = 8; log = [] }

abbrev turn : Turn ℕ (ℕ × List ℕ)
turn = record {
  made = snapshot_at 0 (λ s. s) (insert 9 7 []) 9;
  server = record { me = 0; last_applied = 9; log = insert 9 7 [] };
  tester = record {
    srvs =
        record behind { apply_err = out_of_order 0 9; logs = insert 9 7 behind.logs }
        ∷ newcomer
        ∷ newcomer
        ∷ [];
    max_index = 9;
  };
}

snapshot_catches_up_example :
    (t' : Turn ℕ (ℕ × List ℕ)) × (apply_snap 0
        (λ s. s)
        some
        delivered
        delivered
        three
        (record { me = 2; last_applied = 0; log = [] })
        (snapshot_msg (some (9, 0 ∷ 0 ∷ 0 ∷ 0 ∷ 0 ∷ 0 ∷ 0 ∷ 0 ∷ 0 ∷ 7 ∷ [])) 9)
      ≡ some t')
    × (t'.made ≡ none)
    × (t'.server.last_applied ≡ 9)
    × ((j : ℕ) → j ≤ 9 → lookup j t'.server.log ≡ some (value_or 0 (lookup j (insert 9 7 []))))
unfolding apply_snap check_logs snapshot_at lookup insert
snapshot_catches_up_example =
    snapshot_catches_up 0 (λ s. s) some delivered delivered three ahead (msg 9 7) turn 9
      (9, 0 ∷ 0 ∷ 0 ∷ 0 ∷ 0 ∷ 0 ∷ 0 ∷ 0 ∷ 0 ∷ 7 ∷ []) three
      (record { me = 2; last_applied = 0; log = [] }) newcomer (λ s. refl) refl refl refl
