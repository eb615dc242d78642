-- ===== src/Demux/System.antt =====
-- tester1/demux: the goroutines of a client that call SendReceive, its reader, the server's reader
-- and the goroutines that it starts, over two streams of messages. Each caller calls once.
use mit.Prelude.{
  ℕ, suc, ◌≡◌, Bool, false, Option, none, some, List, [], ◌∷◌, ◌++◌, update, if◌then◌else◌,
}
use mit.Demux.{
  Reply, DemuxClnt, Reader, reading, closing, listing, returned, draining, sending, tag,
  new_demux_clnt, put, close, outstanding, close_clnt, reply, reply_fail, sent,
}

-- Where a call of SendReceive stands: not begun, with a tag, in the map, written, or returned.
pub data Caller : Type 0 where
  idle : Caller
  tagged queued waiting : ℕ → Caller
  answered : Reply → Caller

-- `requests` and `replies` are the messages under way, `pending` those that the server serves.
pub record System : Type 0 where
  pub clnt : DemuxClnt
  pub callers : ℕ → Caller
  pub reader : Reader
  pub requests : List (ℕ × List ℕ)
  pub pending : List (ℕ × List ℕ)
  pub replies : List (ℕ × Reply)

-- What SendReceive does with the answer of `put`.
abbrev pub enqueued : ℕ → Bool → Caller
enqueued t is_put = if is_put then queued t else answered reply_fail

-- A message that a failed WriteCall or a closed connection loses is not added.
abbrev pub under_way {ℓ} : {A : Type ℓ} → Bool → List A → A → List A
under_way is_lost xs x = if is_lost then xs else xs ++ (x ∷ [])

-- The reply to a message that the reader has read.
abbrev pub answer_of : List ℕ → Bool → Reply
answer_of b is_ok = record { rep = b; is_ok = is_ok; is_err = false }

abbrev pub reply_step : ℕ → Reply → Option (List ℕ) → System → System
reply_step t r left s =
    let (rd, dmx) = reply t r left s.clnt in record s { clnt = dmx; reader = rd }

-- `req` is what each caller sends; `Serves` is what ServeRequest may make of a request.
module _ (req : ℕ → List ℕ) (Serves : List ℕ → List ℕ → Bool → Type 0) where
  unfoldable pub start : System
  start = record {
    clnt = new_demux_clnt;
    callers = λ _. idle;
    reader = reading;
    requests = [];
    pending = [];
    replies = [];
  }

  pub data Step (s : System) : System → Type 0 where
    take_tag :
        (c : ℕ)
        → s.callers c ≡ idle
        → Step s (record s {
          clnt = (tag s.clnt).1;
          callers = update s.callers c (tagged (tag s.clnt).0);
        })
    enqueue :
        (c t : ℕ)
        → s.callers c ≡ tagged t
        → Step s (record s {
          clnt = record s.clnt { callmap = (put t c s.clnt.callmap).1 };
          callers = update s.callers c (enqueued t (put t c s.clnt.callmap).0);
        })
    write :
        (c t : ℕ) (is_lost : Bool)
        → s.callers c ≡ queued t
        → Step s (record s {
          callers = update s.callers c (waiting t);
          requests = under_way is_lost s.requests (t, req c);
        })
    read_request :
        (x : ℕ × List ℕ) (rest : List (ℕ × List ℕ))
        → s.requests ≡ x ∷ rest
        → Step s (record s { requests = rest; pending = x ∷ s.pending })
    serve :
        (t : ℕ) (b rep : List ℕ) (is_ok is_lost : Bool) (before after : List (ℕ × List ℕ))
        → s.pending ≡ before ++ ((t, b) ∷ after)
        → Serves b rep is_ok
        → Step s (record s {
          pending = before ++ after;
          replies = under_way is_lost s.replies (t, answer_of rep is_ok);
        })
    read_reply :
        (t : ℕ) (r : Reply) (rest : List (ℕ × Reply))
        → s.reader ≡ reading
        → s.replies ≡ (t, r) ∷ rest
        → Step s (reply_step t r none (record s { replies = rest }))
    read_error : s.reader ≡ reading → Step s (record s { reader = closing })
    close_map :
        s.reader ≡ closing
        → Step s
            (record s { clnt = record s.clnt { callmap = close s.clnt.callmap }; reader = listing })
    list_tags :
        s.reader ≡ listing → Step s (record s { reader = draining (outstanding s.clnt.callmap) })
    fail_one :
        (t : ℕ) (ts : List ℕ)
        → s.reader ≡ draining (t ∷ ts)
        → Step s (reply_step t reply_fail (some ts) s)
    drained : s.reader ≡ draining [] → Step s (record s { reader = returned })
    hand_over :
        (c t u : ℕ) (r : Reply) (left : Option (List ℕ))
        → s.reader ≡ sending t c r left
        → s.callers c ≡ waiting u
        → Step s (record s { callers = update s.callers c (answered r); reader = sent left })
    close_by_user : Step s (record s { clnt = close_clnt s.clnt })

  -- What is reached in `n` steps.
  pub data Reach : ℕ → System → Type 0 where
    here : Reach 0 start
    next : {n : ℕ} {s t : System} → Reach n s → Step s t → Reach (suc n) t
