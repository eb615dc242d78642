-- ===== src/Net/Examples.antt =====
-- The theorems on labrpc/labrpc.go for a network of one server and one client.
use mit.Prelude.{ℕ, suc, ◌≡◌, true, false, some, [], ◌∷◌, nat_eq}
use mit.KvSrv.Clerk.{Delivery}
use mit.Net.{Network, ReplyMsg, Chances, process_req}
use mit.Net.Delivered.{deliver, Fate, process_req-deliver}

-- End 1 is connected to server 5, which stands at address 9.
abbrev net : Network
net = record {
  reliable = true;
  long_delays = false;
  long_reordering = false;
  ends = (1, 1) ∷ [];
  enabled = (1, true) ∷ [];
  servers = (5, some 9) ∷ [];
  connections = (1, some 5) ∷ [];
  count = 0;
  bytes = 0;
}

abbrev lossy : Network
lossy = record net { reliable = false }

-- The handler counts its runs and answers with the count.
abbrev counter : ℕ → ℕ → ReplyMsg × ℕ
counter at n = (record { ok = true; reply = suc n ∷ [] }, suc n)

abbrev unlucky : Chances
unlucky = record { drops_request = false; drops_reply = true; returned = true }

process_req-deliver_example :
    (d : Delivery) × (at : ℕ) × (process_req lossy lossy 1 unlucky counter 3
      ≡ deliver d (counter at) 3)
    × Fate lossy lossy 1 unlucky d at
process_req-deliver_example = process_req-deliver lossy lossy 1 unlucky counter 3
