-- ===== src/Net/Cut.antt =====
-- What labrpc/labrpc.go does to the calls of an end that is disabled.
use mit.Prelude.{ℕ, ◌≡◌, refl, false, Option, none, some, nat_eq}
use mit.Net.{Network, EndInfo, ReplyMsg, no_reply, Chances, process_at}

module _ {ℓ} {S : Type ℓ} (rn' : Network) (ch : Chances) (handler : ℕ → S → ReplyMsg × S)
    (s : S) where
  pub process_at-disabled :
      (endname : ℕ) (info : EndInfo) (name server : Option ℕ)
      → info.is_enabled ≡ false
      → process_at rn' endname ch handler info name server s ≡ (no_reply, s)
  process_at-disabled endname info none server e = refl
  process_at-disabled endname info (some name) none e = refl
  process_at-disabled endname info (some name) (some server) e = rw e
