-- ===== src/Raft/Append/Matching.antt =====
-- AppendEntries against the leader's log (raft1/raft.go: singleHeartBeat and AppendEntries).
use mit.Prelude.{
  ℕ, zero, suc, ◌+◌, ◌≡◌, ◌∙◌, subst, arith, true, ◌&&◌, some, List, ◌++◌, leb, take, drop,
  get_elem?, if◌then◌else◌, take-append-drop, inl, inr, Option-cases,
}
use mit.Raft.{LogEntry, PersistentState, Raft}
use mit.Raft.Append.{AppendEntriesArgs, has_entry, spliced, append_entries}
use mit.Raft.Leader.{args_at, heartbeat_args}

module _ {ℓ} {V : Type ℓ} where
  -- Log matching: where two logs have entries of one term, they agree up to there.
  abbrev pub Matches : List (LogEntry V) → List (LogEntry V) → Type ℓ
  Matches xs ys =
      (i : ℕ) (e e' : LogEntry V)
      → get_elem? xs i ≡ some e
      → get_elem? ys i ≡ some e'
      → e.term ≡ e'.term
      → take (suc i) xs ≡ take (suc i) ys

  has_entry-some :
      (log : List (LogEntry V)) (p t : ℕ)
      → has_entry log p t ≡ true
      → (e : LogEntry V) × (get_elem? log p ≡ some e) × (e.term ≡ t)
  has_entry-some log p t h = elim (Option-cases (get_elem? log p)) [
    | inl k ↦ ground arith
    | inr (e, k) ↦ (e, k, ground arith)
  ]

  -- What the leader puts into the arguments for a server whose next index is `suc pi`.
  args_fields :
      (lead : Raft V) (pi : ℕ) (args : AppendEntriesArgs V)
      → args_at lead (suc pi) ≡ some args
      → (e : LogEntry V) × (get_elem? lead.log pi ≡ some e)
        × (args.prev_log_index ≡ pi)
        × (args.prev_log_term ≡ e.term)
        × (args.entries ≡ drop (suc pi) lead.log)
  args_fields lead pi args h = elim (Option-cases (get_elem? lead.log pi)) [
    | inl k ↦ ground arith
    | inr (e, k) ↦ (e, k, ground arith, ground arith, ground arith)
  ]

  splice-eq :
      (log lead es : List (LogEntry V)) (p n : ℕ)
      → n ≡ suc p
      → es ≡ drop (suc p) lead
      → take (suc p) log ≡ take (suc p) lead
      → take n log ++ es ≡ lead
  splice-eq log lead es p n en ee et = rw (en, ee, et) (take-append-drop (suc p) lead)

  spliced-args :
      (log : List (LogEntry V)) (lead : Raft V) (n : ℕ) (args : AppendEntriesArgs V)
      → args_at lead n ≡ some args
      → Matches log lead.log
      → has_entry log args.prev_log_index args.prev_log_term ≡ true
      → spliced log args ≡ lead.log
  spliced-args log lead zero args h m k = cc
  spliced-args log lead (suc pi) args h m k =
      let (e, at_pi, index, term, rest) = args_fields lead pi args h in
      let (e', mine, same) = has_entry-some log args.prev_log_index args.prev_log_term k in
      splice-eq log lead.log args.entries pi (args.prev_log_index + 1) (omega arith) rest
        (m pi e' e (subst (λ x. get_elem? log x ≡ some e') index mine) at_pi (same ∙ term))

  heartbeat_next :
      (lead : Raft V) (i : ℕ) (args : AppendEntriesArgs V)
      → heartbeat_args lead i ≡ some (some args)
      → (n : ℕ) × (args_at lead n ≡ some args)
  unfolding heartbeat_args
  heartbeat_next lead i args h = elim (Option-cases (get_elem? lead.next_index i)) [
    | inl k ↦ absurd (ground arith)
    | inr (n, k) ↦ (n, ground arith)
  ]

  module _ (encode : PersistentState V → List ℕ) where
    -- A success reply exactly when the term is not behind and the previous entry is there; then
    -- the log is the spliced one, and else it is unchanged.
    pub append_log :
        (now : ℕ) (rf : Raft V) (args : AppendEntriesArgs V)
        → ((append_entries encode now rf args).0.success ≡ (
            leb rf.current_term args.term
            && has_entry rf.log args.prev_log_index args.prev_log_term))
          × ((append_entries encode now rf args).1.log ≡ (
              if (append_entries encode now rf args).0.success
              then spliced rf.log args
              else rf.log))
    unfolding append_entries
    append_log now rf args = ground arith

    -- Replication: if a follower's log and a leader's log match, and the follower accepts the
    -- AppendEntries that the leader makes for it, then its log becomes the leader's.
    pub append_replicates :
        (now i : ℕ) (rf lead : Raft V) (args : AppendEntriesArgs V)
        → heartbeat_args lead i ≡ some (some args)
        → Matches rf.log lead.log
        → (append_entries encode now rf args).0.success ≡ true
        → (append_entries encode now rf args).1.log ≡ lead.log
    append_replicates now i rf lead args h m k =
        let (n, made) = heartbeat_next lead i args h in
        let (ok_iff, log_is) = append_log now rf args in
        let spliced_is : spliced rf.log args ≡ lead.log =
          spliced-args rf.log lead n args made m (ground arith) in
        ground arith
