-- ===== src/Lock/Exclusion.antt =====
-- What holds in every state that clients of one lock reach.
use text.Mathlib.TextEquality.{eq_iff}
use mit.Prelude.{
  update-all, ℕ, suc, ◌+◌, ◌≤◌, ◌<◌, String, ◌≡◌, ◌≢◌, sym, ◌∙◌, subst, some, ◌⊎◌, inl, inr, arith,
  lookup, insert, string_eq,
}
use mit.KvSrv.Rpc.{version_mod}
use mit.KvSrv.Server.{Value, make_kv_server, put}
use mit.KvSrv.Server.Laws.{put_lem}
use mit.Lock.{Pc, acquiring, held, releasing, fatal, unlocked}
use mit.Lock.System.{
  System, start, rpc, lock_of, Step, call_acquire, call_release, run, other_put, Reach, here, next,
}
use mit.Lock.Fits.{Fits, Fits-other, Change}
use mit.Lock.Invariant.{exec-Own}

module _ (name : String) (ids : ℕ → String) where
  -- The lock's entry is there, its version counts at most the steps, and every client fits it.
  pub record Inv (n : ℕ) (s : System) : Type 0 where
    pub entry : Value
    pub found : lookup name s.server.kv ≡ some entry
    pub counted : entry.version ≤ n + 1
    pub fits : (i : ℕ) → Fits entry (ids i) (s.pc i)

module _ (name : String) (ids : ℕ → String) (named : (i : ℕ) → ids i ≢ unlocked)
    (distinct : (i j : ℕ) → ids i ≡ ids j → i ≡ j) where
  start-Inv : Inv name ids 0 (start name ids)
  unfolding start put make_kv_server lookup insert
  start-Inv = record {
    entry = record { val = ""; version = 1 };
    found = ground (arith, eq_iff name name);
    counted = omega arith;
    fits = λ i e. named i (sym e);
  }

  -- What client `i` found or left at the lock is not what identifies another client.
  not_other : (i j : ℕ) (v : String) → i ≢ j → (v ≡ unlocked) ⊎ (v ≡ ids i) → v ≢ ids j
  not_other i j v ne (inl e) k = named j (sym k ∙ e)
  not_other i j v ne (inr e) k = ne (distinct i j (sym e ∙ k))

  Change-Fits :
      (i j : ℕ) (e e' : Value) (p : Pc)
      → i ≢ j
      → Change (ids i) e e'
      → Fits e (ids j) p
      → Fits e' (ids j) p
  Change-Fits i j e e' p ne (inl same) f = subst (λ x. Fits x (ids j) p) (sym same) f
  Change-Fits i j e e' p ne (inr (up, old, new)) f =
      Fits-other e e' (ids j) p (not_other i j e.val ne old) (not_other i j e'.val ne new) up f

  Change-counted :
      (i n : ℕ) (e e' : Value) → Change (ids i) e e' → e.version ≤ n + 1 → e'.version ≤ suc n + 1
  Change-counted i n e e' (inl same) h = rw same (omega arith)
  Change-counted i n e e' (inr (up, _, _)) h = omega arith

  Step-Inv :
      {n : ℕ} {s t : System}
      → n + 2 < version_mod
      → Step name ids s t
      → Inv name ids n s
      → Inv name ids (suc n) t
  unfolding rpc
  Step-Inv {n} {s} room (call_acquire i e) inv = record {
    entry = inv.entry;
    found = inv.found;
    counted = omega arith;
    fits =
        update-all (λ j p. Fits inv.entry (ids j) p) s.pc i acquiring
          (subst (Fits inv.entry (ids i)) e (inv.fits i)) (λ j _. inv.fits j);
  }
  Step-Inv {n} {s} room (call_release i e) inv = record {
    entry = inv.entry;
    found = inv.found;
    counted = omega arith;
    fits =
        update-all (λ j p. Fits inv.entry (ids j) p) s.pc i releasing
          (subst (Fits inv.entry (ids i)) e (inv.fits i)) (λ j _. inv.fits j);
  }
  Step-Inv {n} {s} room (run i d) inv =
      let (e', now, own, change) =
        exec-Own (lock_of name ids i) s.server inv.entry inv.found (named i) (omega arith) d
          (s.pc i) (inv.fits i) in
      record {
        entry = e';
        found = now;
        counted = Change-counted i n inv.entry e' change inv.counted;
        fits =
            update-all (λ j p. Fits e' (ids j) p) s.pc i _ own
              (λ j ne. Change-Fits i j inv.entry e' (s.pc j) ne change (inv.fits j));
      }
  Step-Inv {n} {s} room (other_put args ne) inv = record {
    entry = inv.entry;
    found = ground (arith, put_lem s.server args name, eq_iff args.key name, inv.found);
    counted = omega arith;
    fits = inv.fits;
  }

  pub Reach-Inv : {n : ℕ} {s : System} → n + 2 < version_mod → Reach name ids n s → Inv name ids n s
  Reach-Inv room here = start-Inv
  Reach-Inv {n = suc n} room (next r st) = Step-Inv (omega arith) st (Reach-Inv (omega arith) r)

  -- Mutual exclusion: with distinct non-empty identities, no two clients hold the lock together,
  -- whatever is lost and however the RPCs interleave, as long as versions do not wrap.
  pub mutual_exclusion :
      {n : ℕ} {s : System}
      → n + 2 < version_mod
      → Reach name ids n s
      → (i j : ℕ) → s.pc i ≡ held
      → s.pc j ≡ held
      → i ≡ j
  mutual_exclusion {s} room r i j hi hj =
      let inv = Reach-Inv room r in
      let own : (k : ℕ) → s.pc k ≡ held → inv.entry.val ≡ ids k =
        λ k h. subst (Fits inv.entry (ids k)) h (inv.fits k) in
      distinct i j (sym (own i hi) ∙ own j hj)

  -- With distinct non-empty identities, as long as versions do not wrap, and where a client calls
  -- Acquire only when it is idle and Release only when it holds the lock, none of the `log.Fatal`
  -- calls of Acquire and Release is reached.
  pub never_fatal :
      {n : ℕ} {s : System} → n + 2 < version_mod → Reach name ids n s → (i : ℕ) → s.pc i ≢ fatal
  never_fatal room r i h =
      let inv = Reach-Inv room r in subst (Fits inv.entry (ids i)) h (inv.fits i)
