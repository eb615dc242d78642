-- ===== src/Demux/Examples.antt =====
-- The theorems on tester1/demux for a server that echoes, and for an encoding of small messages.
use mit.Prelude.{
  ℕ, zero, suc, ◌≡◌, ◌≢◌, refl, Bool, true, false, none, List, [], ◌∷◌, update, lookup, insert,
  delete, arith, if◌then◌else◌,
}
use mit.Demux.{reading, fatal, tag, put, new_demux_clnt, new_call_map, reply, remove}
use mit.Demux.System.{
  System, Reach, here, next, start, idle, tagged, queued, waiting, answered, take_tag, enqueue,
  write, read_request, serve, read_reply, hand_over, answer_of,
}
use mit.Demux.Matched.{IsFair, calls-matched}
use mit.Demux.Transport.{Msg, write_calls, read_calls, ended_by, IoErr}
use mit.Demux.Arrival.{fitting, frames-arrive}

abbrev asks : ℕ → List ℕ
asks c = c ∷ 7 ∷ []

abbrev Echoes : List ℕ → List ℕ → Bool → Type 0
Echoes b rep is_ok = rep ≡ b

-- Caller 1 calls while caller 0 has a tag, and is answered; caller 0 has not written yet.
abbrev one_answered : System
one_answered = record {
  clnt = record { callmap = record { closed = false; calls = (1, 0) ∷ [] }; next_tag = 3 };
  callers =
      update
        (update
          (update (update (update (update (λ _. idle) 0 (tagged 1)) 1 (tagged 2)) 1 (queued 2)) 0
            (queued 1))
          1 (waiting 2))
        1 (answered (answer_of (1 ∷ 7 ∷ []) true));
  reader = reading;
  requests = [];
  pending = [];
  replies = [];
}

echoed : Reach asks Echoes 9 one_answered
unfolding start tag put new_demux_clnt new_call_map reply remove lookup insert delete
echoed =
    next
      (next
        (next
          (next
            (next
              (next (next (next (next here (take_tag 0 refl)) (take_tag 1 refl)) (enqueue 1 2 refl))
                (enqueue 0 1 refl))
              (write 1 2 false refl))
            (read_request (2, asks 1) [] refl))
          (serve 2 (asks 1) (asks 1) true false [] [] refl refl))
        (read_reply 2 (answer_of (asks 1) true) [] refl refl))
      (hand_over 1 2 2 (answer_of (asks 1) true) none refl refl)

calls-matched_example :
    IsFair asks Echoes one_answered.reader 1 (one_answered.callers 1)
    × (one_answered.reader ≢ fatal)
calls-matched_example = calls-matched asks Echoes (omega arith) echoed 1

abbrev encode : Msg → List ℕ
encode m = m.tag ∷ (if m.is_ok then 1 else 0) ∷ m.data_

abbrev decode : List ℕ → Msg
decode (t ∷ zero ∷ bs) = record { tag = t; data_ = bs; is_ok = false }
decode (t ∷ suc k ∷ bs) = record { tag = t; data_ = bs; is_ok = true }
decode _ = record { tag = 0; data_ = []; is_ok = false }

decode-bit :
    (t : ℕ) (bs : List ℕ) (b : Bool)
    → decode (t ∷ (if b then 1 else 0) ∷ bs) ≡ record { tag = t; data_ = bs; is_ok = b }
decode-bit t bs true = refl
decode-bit t bs false = refl

decode-encode : (m : Msg) → decode (encode m) ≡ m
decode-encode m = decode-bit m.tag m.data_ m.is_ok

abbrev two_messages : List Msg
two_messages =
    record { tag = 1; data_ = 5 ∷ 6 ∷ []; is_ok = true }
    ∷ record { tag = 2; data_ = 9 ∷ []; is_ok = false }
    ∷ []

-- The first message takes eight bytes, and the second is cut.
frames-arrive_example :
    ((write_calls encode two_messages (record { sent = []; left = 12; is_broken = false })).0
      ≡ fitting encode 12 two_messages)
    × ((e : IoErr) × (read_calls decode 3
            (write_calls encode two_messages
              (record { sent = []; left = 12; is_broken = false })).1.sent
          ≡ ended_by (fitting encode 12 two_messages) e))
frames-arrive_example =
    frames-arrive encode decode decode-encode two_messages 12 (omega arith, (omega arith, tt))
