-- ===== src/Hub/Invariant.antt =====
-- Runs of the hub as sequences of steps, and what holds between any two of them.
use starfire_agent_team.Prelude.{
  some_inj, ℕ, ◌<◌, ◌≡◌, ◌∙◌, ◌⊎◌, inl, inr, Bool-cases, is_some, sym, subst, refl, String, Bool,
  true, false, ◌&&◌, not, Option, none, some, List, [], ◌∷◌, arith, eqb, any,
}
use starfire_agent_team.Hub.{
  Client, Hub, WsMessage, Closing, open_hub, waiting, finished, store, registered, without,
  close_send, connect, unregister, broadcast, signal_done, disconnect, disconnect_all, leave,
  receive, new_hub, send_all, offer,
}

module _ (can_communicate : Option (String → String → Bool))
    (marshal : WsMessage → Option String) where
  -- One step of the hub. Run takes clients while it runs, also when `done` is closed already, as
  -- its select may choose either.
  pub data Step : Hub → Hub → Type 0 where
    connected :
        (h : Hub) (workspace_id : String) → h.running ≡ true → Step h (connect workspace_id h)
    unregistered :
        (h : Hub) (c : ℕ) {h' : Hub} → h.running ≡ true → unregister c h ≡ some h' → Step h h'
    sent : (h : Hub) (msg : WsMessage) → Step h (broadcast can_communicate marshal msg h)
    received : (h : Hub) (c : ℕ) → Step h (receive c h)
    signalled : (h : Hub) → Step h (signal_done h)
    disconnected : (h : Hub) {h' : Hub} → h.closing ≡ waiting → disconnect h ≡ some h' → Step h h'
    left : (h : Hub) → (h.closing ≡ waiting) ⊎ (h.closing ≡ finished) → Step h (leave h)

  pub data Reach : Hub → Type 0 where
    start : (heap : ℕ → Client) → Reach (new_hub heap)
    next : {h h' : Hub} → Reach h → Step h h' → Reach h'

abbrev pub distinct : List ℕ → Bool
distinct [] = true
distinct (c ∷ cs) = not (any (eqb c) cs) && distinct cs

-- The clients are distinct, and of the allocated clients exactly those have an open channel.
pub record Inv (h : Hub) : Type 0 where
  pub once_each : distinct h.clients ≡ true
  pub allocated_all : (c : ℕ) → registered c h ≡ true → c < h.allocated
  pub open_registered : (c : ℕ) → c < h.allocated → (h.heap c).closed ≡ not (registered c h)

any-without :
    (c d : ℕ) (cs : List ℕ) → any (eqb c) (without d cs) ≡ (any (eqb c) cs && not (eqb d c))
any-without c d [] = refl
any-without c d (x ∷ xs) = ground (arith, any-without c d xs)

without_absent : (c : ℕ) (cs : List ℕ) → any (eqb c) cs ≡ false → without c cs ≡ cs
without_absent c [] h = refl
without_absent c (x ∷ xs) h = ground (arith, without_absent c xs)

distinct-without : (c : ℕ) (cs : List ℕ) → distinct cs ≡ true → distinct (without c cs) ≡ true
distinct-without c [] h = refl
distinct-without c (x ∷ xs) h = ground (arith, distinct-without c xs, any-without x c xs)

closed-send_all :
    (can_communicate : Option (String → String → Bool)) (msg : WsMessage) (t : String) (cs : List ℕ)
    (heap : ℕ → Client) (c : ℕ)
    → (send_all can_communicate msg t cs heap c).closed ≡ (heap c).closed
unfolding send_all starfire_agent_team.Hub.offer starfire_agent_team.Hub.safe_send
closed-send_all can msg t [] heap c = refl
closed-send_all can msg t (x ∷ xs) heap c =
    ground (arith, closed-send_all can msg t xs (store x (offer can msg t (heap x)) heap) c)

-- A client that is taken off the map, with its channel closed.
abbrev dropped : ℕ → Hub → Hub
dropped c h = record h {
  heap = store c (record (h.heap c) { closed = true }) h.heap;
  clients = without c h.clients;
}

dropped-Inv : (c : ℕ) (h : Hub) → registered c h ≡ true → Inv h → Inv (dropped c h)
dropped-Inv c h r inv = record {
  once_each = distinct-without c h.clients inv.once_each;
  allocated_all = λ d m. ground (arith, any-without d c h.clients, inv.allocated_all d);
  open_registered = λ d m. ground (arith, any-without d c h.clients, inv.open_registered d);
}

pub is_open : (c : ℕ) (h : Hub) → Inv h → registered c h ≡ true → (h.heap c).closed ≡ false
is_open c h inv r = rw (inv.open_registered c (inv.allocated_all c r), r) refl

unregister-dropped :
    (c : ℕ) (h : Hub)
    → registered c h ≡ true
    → (h.heap c).closed ≡ false
    → unregister c h ≡ some (dropped c h)
unfolding unregister close_send
unregister-dropped c h r o = rw (r, o) refl

unregister-absent : (c : ℕ) (h : Hub) → registered c h ≡ false → unregister c h ≡ some h
unfolding unregister
unregister-absent c h r = rw r refl

pub unregister-Inv : (c : ℕ) (h : Hub) → Inv h → (h' : Hub) × (unregister c h ≡ some h') × Inv h'
unregister-Inv c h inv = elim (Bool-cases (registered c h)) [
  | inl r ↦ (dropped c h, unregister-dropped c h r (is_open c h inv r), dropped-Inv c h r inv)
  | inr r ↦ (h, unregister-absent c h r, inv)
]

disconnect_all-dropped :
    (c : ℕ) (cs : List ℕ) (h : Hub)
    → (h.heap c).closed ≡ false
    → disconnect_all (c ∷ cs) h ≡ disconnect_all cs (dropped c h)
unfolding disconnect_all close_send
disconnect_all-dropped c cs h o = rw (o, disconnect_all) refl

disconnect_all-Inv :
    (cs : List ℕ) (h : Hub)
    → h.clients ≡ cs
    → Inv h
    → (h' : Hub) × (disconnect_all cs h ≡ some h') × Inv h'
unfolding disconnect_all
disconnect_all-Inv [] h e inv = (h, refl, inv)
disconnect_all-Inv (c ∷ cs) h e inv =
    let (h', done, after) = disconnect_all-Inv cs (dropped c h) tail (dropped-Inv c h here inv) in
    (h', disconnect_all-dropped c cs h (is_open c h inv here) ∙ done, after)
  where
    here : registered c h ≡ true
    here = rw e (ground arith)

    tail : without c h.clients ≡ cs
    tail = ground (arith, without_absent c cs, inv.once_each)

pub disconnect-Inv : (h : Hub) → Inv h → (h' : Hub) × (disconnect h ≡ some h') × Inv h'
unfolding disconnect
disconnect-Inv h inv =
    disconnect_all-Inv h.clients (record h { closing = finished }) refl
      (record {
        once_each = inv.once_each;
        allocated_all = inv.allocated_all;
        open_registered = inv.open_registered;
      })

connect-Inv : (i : String) (h : Hub) → Inv h → Inv (connect i h)
unfolding connect
connect-Inv i h inv = record {
  once_each = ground (arith, inv.once_each, inv.allocated_all h.allocated);
  allocated_all = λ d m. ground (arith, inv.allocated_all d);
  open_registered = λ d m. ground (arith, inv.open_registered d, inv.allocated_all d);
}

broadcast-Inv :
    (can_communicate : Option (String → String → Bool)) (marshal : WsMessage → Option String)
    (msg : WsMessage) (h : Hub)
    → Inv h
    → Inv (broadcast can_communicate marshal msg h)
unfolding broadcast
broadcast-Inv can marshal msg h inv = go (marshal msg)
  where
    go :
        (o : Option String)
        → Inv
            (elim o [ none ↦ h | some t ↦ record h { heap = send_all can msg t h.clients h.heap } ])
    go none = inv
    go (some t) = record {
      once_each = inv.once_each;
      allocated_all = inv.allocated_all;
      open_registered =
          λ c m. closed-send_all can msg t h.clients h.heap c ∙ inv.open_registered c m;
    }

receive-Inv : (c : ℕ) (h : Hub) → Inv h → Inv (receive c h)
unfolding receive
receive-Inv c h inv = record {
  once_each = inv.once_each;
  allocated_all = inv.allocated_all;
  open_registered = λ d m. ground (arith, inv.open_registered d m);
}

signal_done-Inv : (h : Hub) → Inv h → Inv (signal_done h)
unfolding signal_done
signal_done-Inv h inv = record {
  once_each = ground (arith, inv.once_each);
  allocated_all = λ c m. ground (arith, inv.allocated_all c);
  open_registered = λ c m. ground (arith, inv.open_registered c);
}

leave-Inv : (h : Hub) → Inv h → Inv (leave h)
unfolding leave
leave-Inv h inv = record {
  once_each = inv.once_each;
  allocated_all = inv.allocated_all;
  open_registered = inv.open_registered;
}

Step-Inv :
    (can_communicate : Option (String → String → Bool)) (marshal : WsMessage → Option String)
    {h h' : Hub}
    → Step can_communicate marshal h h'
    → Inv h
    → Inv h'
Step-Inv can marshal (connected h i run) inv = connect-Inv i h inv
Step-Inv can marshal (unregistered h c run e) inv =
    let (h', found, after) = unregister-Inv c h inv in subst Inv (some_inj (sym found ∙ e)) after
Step-Inv can marshal (sent h msg) inv = broadcast-Inv can marshal msg h inv
Step-Inv can marshal (received h c) inv = receive-Inv c h inv
Step-Inv can marshal (signalled h) inv = signal_done-Inv h inv
Step-Inv can marshal (disconnected h waits e) inv =
    let (h', found, after) = disconnect-Inv h inv in subst Inv (some_inj (sym found ∙ e)) after
Step-Inv can marshal (left h closing) inv = leave-Inv h inv

-- In every reachable state of the hub the clients are distinct, and of the clients that were ever
-- allocated exactly the registered ones have an open channel, whichever clients connect, leave and
-- read, whatever is broadcast, and wherever in this Close is called, once or more often.
pub Reach-Inv :
    (can_communicate : Option (String → String → Bool)) (marshal : WsMessage → Option String)
    {h : Hub}
    → Reach can_communicate marshal h
    → Inv h
unfolding new_hub
Reach-Inv can marshal (start heap) = record {
  once_each = refl;
  allocated_all = λ c m. cc;
  open_registered = λ c m. absurd (omega arith);
}
Reach-Inv can marshal (next r s) = Step-Inv can marshal s (Reach-Inv can marshal r)

-- No step of a reachable hub panics: neither the removal of a client, be it registered or not, nor
-- the end of Close closes a channel that is closed already.
pub no_panic :
    (can_communicate : Option (String → String → Bool)) (marshal : WsMessage → Option String)
    {h : Hub}
    → Reach can_communicate marshal h
    → (c : ℕ) → (is_some (unregister c h) ≡ true) × (is_some (disconnect h) ≡ true)
no_panic can marshal {h} r c =
    let inv = Reach-Inv can marshal r in
    let (_, gone, _) = unregister-Inv c h inv in
    let (_, closed, _) = disconnect-Inv h inv in (rw gone refl, rw closed refl)
