-- ===== src/Raft/Quorum.antt =====
-- The servers of a cluster, their events in any order and with any messages, and the votes given.
use mit.Prelude.{
  update, ℕ, zero, suc, ◌+◌, ◌≤◌, ◌≡◌, ◌≢◌, refl, arith, Bool, true, false, Option, none, some,
  List, [], ◌∷◌, nat_eqb, nat_eqb_iff, if◌then◌else◌, ◌&&◌, ◌||◌,
}
use native.Mathlib.Decide.{ℕ_discrete}
use mit.Raft.{PersistentState, Raft}
use mit.Raft.Election.{need_yes}
use mit.Raft.Node.{Event, handle, vote_of, handle-term, handle-vote}

-- A vote that was given: by whom, in which term, for whom.
pub record Vote : Type 0 where
  pub voter : ℕ
  pub term : ℕ
  pub candidate : ℕ

abbrev pub is_vote : ℕ → ℕ → ℕ → Vote → Bool
is_vote v t c x = nat_eqb x.voter v && (nat_eqb x.term t && nat_eqb x.candidate c)

abbrev pub has_vote : List Vote → ℕ → ℕ → ℕ → Bool
has_vote [] v t c = false
has_vote (x ∷ xs) v t c = is_vote v t c x || has_vote xs v t c

-- How many of the first `n` servers have given a vote to `c` in term `t`.
abbrev pub tally : List Vote → ℕ → ℕ → ℕ → ℕ
tally votes zero t c = 0
tally votes (suc n) t c = tally votes n t c + (if has_vote votes n t c then 1 else 0)

abbrev pub cast : ℕ → Option (ℕ × ℕ) → List Vote → List Vote
cast i none votes = votes
cast i (some (t, c)) votes = record { voter = i; term = t; candidate = c } ∷ votes

module _ {ℓ} {V : Type ℓ} (encode : PersistentState V → List ℕ) where
  pub record Cluster : Type ℓ where
    pub nodes : ℕ → Raft V
    pub votes : List Vote

  pub data Step (w : Cluster) : Cluster → Type ℓ where
    at :
        (i : ℕ) (ev : Event V) (rf : Raft V)
        → handle encode (w.nodes i) ev ≡ some rf
        → Step w (record {
          nodes = update w.nodes i rf;
          votes = cast i (vote_of encode (w.nodes i) ev) w.votes;
        })

  -- What is reached from servers that have given no vote yet.
  pub data Reach (start : ℕ → Raft V) : Cluster → Type ℓ where
    here : Reach start (record { nodes = start; votes = [] })
    next : {w w' : Cluster} → Reach start w → Step w w' → Reach start w'

  -- Votes are for terms that their voters have reached, and a voter has one vote in a term.
  pub record Inv (w : Cluster) : Type ℓ where
    pub reached : (v t c : ℕ) → has_vote w.votes v t c ≡ true → t ≤ (w.nodes v).current_term
    pub single :
        (v t c c' : ℕ) → has_vote w.votes v t c ≡ true → has_vote w.votes v t c' ≡ true → c ≡ c'

  Step-reached :
      {w : Cluster} (i : ℕ) (ev : Event V) (rf : Raft V)
      → Inv w
      → handle encode (w.nodes i) ev ≡ some rf
      → (o : Option (ℕ × ℕ)) → vote_of encode (w.nodes i) ev ≡ o
      → (v t c : ℕ) → has_vote (cast i o w.votes) v t c ≡ true
      → t ≤ (update w.nodes i rf v).current_term
  Step-reached {w} i ev rf inv h none e v t c k =
      ground (arith, inv.reached v t c, handle-term encode (w.nodes i) rf ev, nat_eqb_iff i v)
  Step-reached {w} i ev rf inv h (some (t', c')) e v t c k = ground (
    arith,
    inv.reached v t c,
    handle-term encode (w.nodes i) rf ev,
    handle-vote encode (w.nodes i) rf ev t' c' h e,
    nat_eqb_iff i v,
  )

  Step-single :
      {w : Cluster} (i : ℕ) (ev : Event V) (rf : Raft V)
      → Inv w
      → handle encode (w.nodes i) ev ≡ some rf
      → (o : Option (ℕ × ℕ)) → vote_of encode (w.nodes i) ev ≡ o
      → (v t c c' : ℕ) → has_vote (cast i o w.votes) v t c ≡ true
      → has_vote (cast i o w.votes) v t c' ≡ true
      → c ≡ c'
  Step-single {w} i ev rf inv h none e v t c c' k k' = inv.single v t c c' k k'
  Step-single {w} i ev rf inv h (some (t', d)) e v t c c' k k' = ground (
    arith,
    inv.single v t c c',
    inv.reached v t c,
    inv.reached v t c',
    handle-vote encode (w.nodes i) rf ev t' d h e,
    nat_eqb_iff i v,
  )

  Step-Inv : {w w' : Cluster} → Step w w' → Inv w → Inv w'
  Step-Inv {w} (at i ev rf h) inv = record {
    reached = Step-reached i ev rf inv h (vote_of encode (w.nodes i) ev) refl;
    single = Step-single i ev rf inv h (vote_of encode (w.nodes i) ev) refl;
  }

  pub Reach-Inv : {s : ℕ → Raft V} {w : Cluster} → Reach s w → Inv w
  Reach-Inv here = record { reached = λ v t c k. cc; single = λ v t c c' k k'. cc }
  Reach-Inv (next r st) = Step-Inv st (Reach-Inv r)

  -- Two candidates of a term share no voter.
  tally-disjoint :
      {w : Cluster}
      → Inv w
      → (n t c c' : ℕ) → c ≢ c'
      → tally w.votes n t c + tally w.votes n t c' ≤ n
  tally-disjoint inv zero t c c' ne = omega arith
  tally-disjoint {w} inv (suc n) t c c' ne =
      ground (arith, tally-disjoint inv n t c c' ne, inv.single n t c c')

  -- Election safety: of a cluster of `n` servers that take any events in any order, with any
  -- messages but with no restart, at most one candidate has the votes that win in a term.
  pub election_safety :
      {s : ℕ → Raft V} {w : Cluster}
      → Reach s w
      → (n t c c' : ℕ) → need_yes n ≤ tally w.votes n t c
      → need_yes n ≤ tally w.votes n t c'
      → c ≡ c'
  election_safety {w} r n t c c' won won' = elim (ℕ_discrete c c') [
    | yes e ↦ e
    | no ne ↦ absurd (omega (arith, tally-disjoint (Reach-Inv r) n t c c' ne))
  ]
