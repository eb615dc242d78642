-- ===== src/Demux/Owners.antt =====
-- tester1/demux: who owns a tag, in the map or while its reply is being sent.
use mit.Prelude.{
  ℕ, ◌≡◌, refl, sym, ◌∙◌, Bool, true, false, Option, none, some, List, [], ◌⊎◌, nat_eq, lookup,
  keys, IsDistinct, update, update-all,
}
use mit.Demux.{
  Reply, Reader, reading, closing, listing, returned, fatal, draining, sending, reply_fail,
}
use mit.Demux.System.{Caller, queued, waiting, answered}

abbrev pub awaited : Caller → Option ℕ
awaited (queued t) = some t
awaited (waiting t) = some t
awaited _ = none

abbrev pub Hands : Reader → ℕ → ℕ → Type 0
Hands (sending t' c' _ _) t c = (t' ≡ t) × (c' ≡ c)
Hands _ t c = ⊥

-- What the state of the reader says of the map.
abbrev pub Mode : Reader → Bool → List (ℕ × ℕ) → Type 0
Mode reading closed calls = Unit
Mode closing closed calls = Unit
Mode listing closed calls = closed ≡ true
Mode (draining ts) closed calls = (closed ≡ true) × (keys calls ≡ ts)
Mode (sending _ _ _ none) closed calls = Unit
Mode (sending _ _ _ (some ts)) closed calls = (closed ≡ true) × (keys calls ≡ ts)
Mode returned closed calls = (closed ≡ true) × (calls ≡ [])
Mode fatal closed calls = ⊥

-- The reader's states in which it reads on, or sends a reply that it has read.
abbrev pub is_live : Reader → Bool
is_live reading = true
is_live (sending _ _ _ none) = true
is_live _ = false

-- A reply that a caller may get: the failure, or what the server made of its request.
abbrev pub IsOwn : (ℕ → List ℕ) → (List ℕ → List ℕ → Bool → Type 0) → ℕ → Reply → Type 0
IsOwn req Serves c r = (r ≡ reply_fail) ⊎ ((r.is_err ≡ false) × Serves (req c) r.rep r.is_ok)

module _ (req : ℕ → List ℕ) (Serves : List ℕ → List ℕ → Bool → Type 0) where
  abbrev pub Handed : List (ℕ × ℕ) → (ℕ → Caller) → Reader → Type 0
  Handed calls callers (sending t c r _) =
      (awaited (callers c) ≡ some t) × (lookup t calls ≡ none) × IsOwn req Serves c r
  Handed calls callers _ = Unit

  abbrev pub Answered : ℕ → Caller → Type 0
  Answered c (answered r) = IsOwn req Serves c r
  Answered c _ = Unit

  pub record Owners (closed : Bool) (calls : List (ℕ × ℕ)) (callers : ℕ → Caller) (rd : Reader)
      : Type 0 where
    pub owned : (t c : ℕ) → lookup t calls ≡ some c → awaited (callers c) ≡ some t
    pub waits : (c t : ℕ) → awaited (callers c) ≡ some t → (lookup t calls ≡ some c) ⊎ Hands rd t c
    pub handed : Handed calls callers rd
    pub own : (c : ℕ) → Answered c (callers c)
    pub distinct : IsDistinct (keys calls)
    pub mode : Mode rd closed calls

  Handed-awaited :
      (calls : List (ℕ × ℕ)) (f g : ℕ → Caller) (rd : Reader)
      → ((j : ℕ) → awaited (g j) ≡ awaited (f j))
      → Handed calls f rd
      → Handed calls g rd
  Handed-awaited calls f g (sending t c r l) same (a, b, d) = (same c ∙ a, b, d)
  Handed-awaited calls f g reading same h = tt
  Handed-awaited calls f g closing same h = tt
  Handed-awaited calls f g listing same h = tt
  Handed-awaited calls f g returned same h = tt
  Handed-awaited calls f g fatal same h = tt
  Handed-awaited calls f g (draining ts) same h = tt

  -- A caller moves on without changing what it waits for.
  pub Owners-caller :
      {closed : Bool} {calls : List (ℕ × ℕ)} {callers : ℕ → Caller} {rd : Reader} (c : ℕ)
      (p : Caller)
      → awaited p ≡ awaited (callers c)
      → Answered c p
      → Owners closed calls callers rd
      → Owners closed calls (update callers c p) rd
  Owners-caller {calls} {callers} {rd} c p a ans o =
      let same : (j : ℕ) → awaited (update callers c p j) ≡ awaited (callers j) =
        update-all (λ j q. awaited q ≡ awaited (callers j)) callers c p a (λ j _. refl) in
      record {
        owned = λ t d h. same d ∙ o.owned t d h;
        waits = λ d t h. o.waits d t (sym (same d) ∙ h);
        handed = Handed-awaited calls callers (update callers c p) rd same o.handed;
        own = update-all Answered callers c p ans (λ j _. o.own j);
        distinct = o.distinct;
        mode = o.mode;
      }
