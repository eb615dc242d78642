-- ===== src/ShardCfg/Analyze.antt =====
-- What `analyze` of shardkv1/shardcfg/shardcfg.go finds.
use mit.Prelude.{
  ℕ, ◌≤◌, ◌<◌, ◌≡◌, ◌≢◌, refl, sym, ◌∙◌, subst, arith, true, ◌||◌, some, List, [], ◌∷◌, nat_eqb_iff,
  ltb, length, count, count-le-length, member, sorted, insert_sorted, if◌then◌else◌,
}
use mit.ShardCfg.{Loads, no_loads, weigh, weigh_all, analyze}

member-insert : (a x : ℕ) (xs : List ℕ) → member a (insert_sorted x xs) ≡ member a (x ∷ xs)
member-insert a x [] = refl
member-insert a x (y ∷ ys) = ground (arith, member-insert a x ys)

member-sorted : (a : ℕ) (xs : List ℕ) → member a (sorted xs) ≡ member a xs
member-sorted a [] = refl
member-sorted a (x ∷ xs) = ground (arith, member-insert a x (sorted xs), member-sorted a xs)

insert-ne : (x : ℕ) (xs : List ℕ) → insert_sorted x xs ≢ []
insert-ne x [] e = cc
insert-ne x (y ∷ ys) e = ground arith

sorted-ne : (xs : List ℕ) → xs ≢ [] → sorted xs ≢ []
sorted-ne [] ne = ne
sorted-ne (x ∷ xs) ne = insert-ne x (sorted xs)

abbrev onto : List ℕ → List ℕ → List ℕ
onto seen [] = seen
onto seen (g ∷ gs) = onto (g ∷ seen) gs

member-onto : (a : ℕ) (seen gs : List ℕ) → member a (onto seen gs) ≡ (member a gs || member a seen)
member-onto a seen [] = refl
member-onto a seen (g ∷ gs) = ground (arith, member-onto a (g ∷ seen) gs)

-- Of the groups `gids`, one with most and one with fewest shards, and those numbers.
pub record Picked (shards : List ℕ) (gids : List ℕ) (l : Loads) : Type 0 where
  pub mg : ℕ
  pub mn : ℕ
  pub lg : ℕ
  pub most_gid_is : l.most_gid ≡ some mg
  pub most_is : l.most ≡ some mn
  pub least_gid_is : l.least_gid ≡ some lg
  pub mg_in : member mg gids ≡ true
  pub lg_in : member lg gids ≡ true
  pub mn_is : count mg shards ≡ mn
  pub ln_is : count lg shards ≡ l.fewest
  pub bounds : (g : ℕ) → member g gids ≡ true → (l.fewest ≤ count g shards) × (count g shards ≤ mn)

module _ (shards : List ℕ) where
  weigh-first :
      (g : ℕ) → count g shards < 257 → Picked shards (g ∷ []) (weigh no_loads g (count g shards))
  weigh-first g small = record {
    mg = g;
    mn = count g shards;
    lg = g;
    most_gid_is = ground arith;
    most_is = ground arith;
    least_gid_is = ground arith;
    mg_in = ground arith;
    lg_in = ground arith;
    mn_is = refl;
    ln_is = ground arith;
    bounds = λ h k.
        let e : g ≡ h = ground arith in
        subst
          (λ x.
            ((weigh no_loads g (count g shards)).fewest ≤ count x shards)
            × (count x shards ≤ count g shards))
          e (ground arith);
  }

  weigh-next :
      (l : Loads) (seen : List ℕ) (g : ℕ)
      → Picked shards seen l
      → Picked shards (g ∷ seen) (weigh l g (count g shards))
  weigh-next l seen g p =
      let n = count g shards in
      record {
        mg = if ltb p.mn n then g else p.mg;
        mn = if ltb p.mn n then n else p.mn;
        lg = if ltb n l.fewest then g else p.lg;
        most_gid_is = ground (arith, p.most_gid_is, p.most_is);
        most_is = ground (arith, p.most_is);
        least_gid_is = ground (arith, p.least_gid_is, p.most_is);
        mg_in = ground (arith, p.mg_in);
        lg_in = ground (arith, p.lg_in);
        mn_is = ground (arith, p.mn_is);
        ln_is = ground (arith, p.ln_is, p.most_is);
        bounds =
            λ h k. ground (arith, p.bounds h, p.most_is, nat_eqb_iff g h, p.bounds p.mg p.mg_in);
      }

  weigh_all-Picked :
      (gs seen : List ℕ) (l : Loads)
      → Picked shards seen l
      → Picked shards (onto seen gs) (weigh_all shards l gs)
  weigh_all-Picked [] seen l p = p
  weigh_all-Picked (g ∷ gs) seen l p = weigh_all-Picked gs (g ∷ seen) _ (weigh-next l seen g p)

  Picked-ext :
      {l : Loads} (xs ys : List ℕ)
      → ((a : ℕ) → member a xs ≡ member a ys)
      → Picked shards xs l
      → Picked shards ys l
  Picked-ext xs ys same p = record {
    mg = p.mg;
    mn = p.mn;
    lg = p.lg;
    most_gid_is = p.most_gid_is;
    most_is = p.most_is;
    least_gid_is = p.least_gid_is;
    mg_in = sym (same p.mg) ∙ p.mg_in;
    lg_in = sym (same p.lg) ∙ p.lg_in;
    mn_is = p.mn_is;
    ln_is = p.ln_is;
    bounds = λ g k. p.bounds g (same g ∙ k);
  }

  picked :
      (gs : List ℕ)
      → gs ≢ []
      → length shards < 257
      → Picked shards gs (weigh_all shards no_loads gs)
  picked [] ne small = absurd (ne refl)
  picked (g ∷ gs) ne small =
      Picked-ext (onto (g ∷ []) gs) (g ∷ gs) (λ a. ground (arith, member-onto a (g ∷ []) gs))
        (weigh_all-Picked gs (g ∷ []) _ (weigh-first g (omega (arith, count-le-length g shards))))

  -- With a group there is, `analyze` finds a group with most and one with fewest shards.
  pub analyze-Picked :
      (gids : List ℕ) → gids ≢ [] → length shards < 257 → Picked shards gids (analyze gids shards)
  unfolding analyze
  analyze-Picked gids ne small =
      Picked-ext (sorted gids) gids (λ a. member-sorted a gids)
        (picked (sorted gids) (sorted-ne gids ne) small)
