-- ===== src/Core/Server/Pending.antt =====
-- The pending futures of the server: their keys, and what a poll of the server does to them.
use jsonrpc_client_rs.Base.{
  ℕ, ◌+◌, ◌≤◌, ◌<◌, ◌≡◌, refl, sym, ◌∙◌, ap, append-nil, Option, none, some, List, [], ◌∷◌, ◌++◌,
  Bool, true, false, nat_key, arith,
}
use jsonrpc_client_rs.Base.Action.{Result, ok, err}
use jsonrpc_client_rs.Base.Assoc.{Assoc, insert, erase, lookup, erase_absent}
use jsonrpc_client_rs.Core.Types.{Response, ErrorKind}
use jsonrpc_client_rs.Core.Server.Drivable.{
  DrivableCall, spent, Driven, waits, finishes, fails, Channel, poll_call,
}
use jsonrpc_client_rs.Core.Server.State.{remove_ready, poll_entry, poll_futures}

-- The keys rise along the map, from `lo` on, and stay below `hi`.
abbrev pub Rising : {A : Type 0} → ℕ → ℕ → Assoc ℕ A → Type 0
Rising lo hi [] = Unit {0}
Rising lo hi ((key, f) ∷ m) = (lo ≤ key) × (key < hi) × Rising (key + 1) hi m

module _ {A : Type 0} where
  pub Rising-insert :
      (lo hi : ℕ) (f : A) (m : Assoc ℕ A)
      → lo ≤ hi
      → Rising lo hi m
      → Rising lo (hi + 1) (insert hi f m)
  unfolding insert
  Rising-insert lo hi f [] l h = (l, omega arith, tt)
  Rising-insert lo hi f ((key, g) ∷ m) l h =
      ground (arith, Rising-insert (key + 1) hi f m (omega arith) h.2)

  pub Rising-absent : (k lo hi : ℕ) (m : Assoc ℕ A) → k < lo → Rising lo hi m → lookup k m ≡ none
  unfolding lookup
  Rising-absent k lo hi [] l h = refl
  Rising-absent k lo hi ((key, g) ∷ m) l h =
      ground (arith, Rising-absent k (key + 1) hi m (omega arith) h.2)

  pub Rising-lower : (lo lo' hi : ℕ) (m : Assoc ℕ A) → lo' ≤ lo → Rising lo hi m → Rising lo' hi m
  Rising-lower lo lo' hi [] l h = tt
  Rising-lower lo lo' hi ((key, g) ∷ m) l h = (omega arith, h.1, h.2)

module _ {A : Type 0} where
  pub erase-Rising : (k lo hi : ℕ) (m : Assoc ℕ A) → Rising lo hi m → Rising lo hi (erase k m)
  unfolding erase
  erase-Rising k lo hi [] h = tt
  erase-Rising k lo hi ((key, f) ∷ m) h = ground (
    arith,
    erase-Rising k (key + 1) hi m h.2,
    Rising-lower (key + 1) lo hi (erase k m) (omega arith),
  )

-- The keys of a round, which are all above a number.
abbrev pub Above : ℕ → List (ℕ × Bool) → Type 0
Above k [] = Unit {0}
Above k ((key, b) ∷ l) = (k < key) × Above k l

Above-lower : (k j : ℕ) (l : List (ℕ × Bool)) → j < k → Above k l → Above j l
Above-lower k j [] h a = tt
Above-lower k j ((key, b) ∷ l) h a = (omega arith, Above-lower k j l h a.1)

erase_head :
    {A : Type 0} (k : ℕ) (f : A) (m : Assoc ℕ A) → lookup k m ≡ none → erase k ((k, f) ∷ m) ≡ m
unfolding erase
erase_head k f m h = ground (arith, erase_absent k m h)

module _ {T : Type 0} where
  remove_ready-keep :
      (k : ℕ) (f : DrivableCall T) (l : List (ℕ × Bool)) (m : Assoc ℕ (DrivableCall T))
      → Above k l
      → remove_ready l ((k, f) ∷ m) ≡ (k, f) ∷ remove_ready l m
  unfolding remove_ready erase
  remove_ready-keep k f [] m h = refl
  remove_ready-keep k f ((key, true) ∷ l) m h =
      ground (arith, remove_ready-keep k f l (erase key m) h.1)
  remove_ready-keep k f ((key, false) ∷ l) m h = remove_ready-keep k f l m h.1

  abbrev pub or_first : Driven T → Option ErrorKind → Option ErrorKind
  or_first (waits f) e = e
  or_first (finishes r) e = e
  or_first (fails x) e = some x

  abbrev pub keep_waiting : ℕ → Driven T → Assoc ℕ (DrivableCall T) → Assoc ℕ (DrivableCall T)
  keep_waiting key (waits f) m = (key, f) ∷ m
  keep_waiting key (finishes r) m = m
  keep_waiting key (fails e) m = m

  abbrev pub sent_by : Driven T → List Response
  sent_by (waits f) = []
  sent_by (finishes r) = r
  sent_by (fails e) = []

  -- What a round answered, against the first error, the futures that wait and what was sent.
  abbrev pub Matches :
      ℕ
      → Option ErrorKind
      → Assoc ℕ (DrivableCall T)
      → List Response
      → Result (List (ℕ × Bool)) ErrorKind
      → Assoc ℕ (DrivableCall T)
      → List Response
      → Type 0
  Matches k e waiting out (ok l) futures out' =
      (e ≡ none) × Above k l × (remove_ready l futures ≡ waiting) × (out' ≡ out)
  Matches k e waiting out (err x) futures out' = e ≡ some x

  module _ (chan : Channel T) where
    entry-Matches :
        (k key : ℕ) (d : Driven T) (m : Assoc ℕ (DrivableCall T)) (e : Option ErrorKind)
        (waiting : Assoc ℕ (DrivableCall T)) (out : List Response)
        (p : Result (List (ℕ × Bool)) ErrorKind) (futures : Assoc ℕ (DrivableCall T))
        (o : List Response)
        → k < key
        → lookup key futures ≡ none
        → Matches key e waiting out p futures o
        → let q = poll_entry chan key d m (record { polled = p; futures = futures; out = o }) in
          Matches k
            (or_first d e)
            (keep_waiting key d waiting)
            (out ++ sent_by d)
            q.polled
            q.futures
            q.out
    unfolding remove_ready
    entry-Matches k key (waits f) m e waiting out (ok l) futures o lt absent (x, a, w, s) = (
      x,
      (lt, Above-lower key k l lt a),
      remove_ready-keep key f l futures a ∙ ap (◌∷◌ (key, f)) w,
      s ∙ sym (append-nil out),
    )
    entry-Matches k key (waits f) m e waiting out (err x) futures o lt absent h = h
    entry-Matches k key (finishes r) m e waiting out (ok l) futures o lt absent (x, a, w, s) = (
      x,
      (lt, Above-lower key k l lt a),
      ap (remove_ready l) (erase_head key spent futures absent) ∙ w,
      ap (λ y. y ++ r) s,
    )
    entry-Matches k key (finishes r) m e waiting out (err x) futures o lt absent h = h
    entry-Matches k key (fails y) m e waiting out p futures o lt absent h = refl

    unfoldable pub first_error : Assoc ℕ (DrivableCall T) → Option ErrorKind
    first_error [] = none
    first_error ((key, f) ∷ m) = or_first (poll_call chan f) (first_error m)

    unfoldable pub survivors : Assoc ℕ (DrivableCall T) → Assoc ℕ (DrivableCall T)
    survivors [] = []
    survivors ((key, f) ∷ m) = keep_waiting key (poll_call chan f) (survivors m)

    unfoldable pub sent : Assoc ℕ (DrivableCall T) → List Response
    sent [] = []
    sent ((key, f) ∷ m) = sent m ++ sent_by (poll_call chan f)

    pub poll_futures-Rising :
        (lo hi : ℕ) (m : Assoc ℕ (DrivableCall T))
        → Rising lo hi m
        → Rising lo hi (poll_futures chan m).futures
    unfolding poll_futures
    poll_futures-Rising lo hi [] h = tt
    poll_futures-Rising lo hi ((key, f) ∷ m) h =
        ground (arith, poll_futures-Rising (key + 1) hi m h.2)

    pub survivors-Rising :
        (lo hi : ℕ) (m : Assoc ℕ (DrivableCall T)) → Rising lo hi m → Rising lo hi (survivors m)
    unfolding survivors
    survivors-Rising lo hi [] h = tt
    survivors-Rising lo hi ((key, f) ∷ m) h = ground (
      arith,
      survivors-Rising (key + 1) hi m h.2,
      Rising-lower (key + 1) lo hi (survivors m) (omega arith),
    )

    pub round-Matches :
        (k lo hi : ℕ) (m : Assoc ℕ (DrivableCall T))
        → k < lo
        → Rising lo hi m
        → let r = poll_futures chan m in
          Matches k (first_error m) (survivors m) (sent m) r.polled r.futures r.out
    unfolding poll_futures first_error survivors sent
    round-Matches k lo hi [] l h = unfold remove_ready in (refl, tt, refl, refl)
    round-Matches k lo hi ((key, f) ∷ m) l h =
        let r = poll_futures chan m in
        entry-Matches k key (poll_call chan f) m (first_error m) (survivors m) (sent m) r.polled
          r.futures r.out (omega arith)
          (Rising-absent key (key + 1) hi r.futures (omega arith)
            (poll_futures-Rising (key + 1) hi m h.2))
          (round-Matches key (key + 1) hi m (omega arith) h.2)
