-- ===== src/Channels/History.antt =====
-- A conversation in Redis as the last turns of a log.
use starfire_agent_team.Prelude.{
  ℕ, zero, suc, ◌+◌, ◌≡◌, refl, sym, ◌∙◌, ap, String, Bool, true, false, Option, none, some, List,
  [], ◌∷◌, if◌then◌else◌, arith, ltb, eq_refl,
}
use starfire_agent_team.Sql.Order.{limit}
use starfire_agent_team.Channels.{Turn, Stored, Call, push, trim, expire}
use starfire_agent_team.Channels.Manager.{
  history_ttl, live, turns_of, pushed, trimmed, expiring, when_stored, load_history, append_history,
}

-- A turn that is appended at a time; whether LTRIM fails is open.
pub record Append : Type 0 where
  pub turn : Turn
  pub at : ℕ
  pub trim_fails : Bool

-- Of the commands of an append only LTRIM may fail.
abbrev pub only_trim : Bool → Call → Bool
only_trim b trim = b
only_trim b _ = false

abbrev pub none_fails : Call → Bool
none_fails _ = false

-- What Redis holds after the appends, the latest of which comes first.
pub replay : String → List Append → (String → Option Stored) → String → Option Stored
replay key [] m = m
replay key (a ∷ log) m = append_history (only_trim a.trim_fails) a.at key a.turn (replay key log m)

-- The turns that a conversation is made of: back from now without a gap of 24 hours.
unfoldable pub conversation : ℕ → List Append → List Turn
conversation now [] = []
conversation now (a ∷ log) =
    let older = conversation a.at log in if ltb now (a.at + history_ttl) then a.turn ∷ older else []

module _ {A : Type 0} where
  limit_again : (n : ℕ) (xs : List A) → limit n (limit n xs) ≡ limit n xs
  unfolding limit
  limit_again zero xs = refl
  limit_again (suc n) [] = refl
  limit_again (suc n) (x ∷ xs) = ap (λ ys. x ∷ ys) (limit_again n xs)

  limit_twice : (n : ℕ) (xs : List A) → limit n (limit (suc n) xs) ≡ limit n xs
  unfolding limit
  limit_twice zero xs = refl
  limit_twice (suc n) [] = refl
  limit_twice (suc n) (x ∷ xs) = ap (λ ys. x ∷ ys) (limit_twice n xs)

  -- One more in front drops the last of a full list.
  limit_cons :
      (n : ℕ) (x : A) (xs ys : List A)
      → limit (suc n) xs ≡ limit (suc n) ys
      → limit (suc n) (x ∷ xs) ≡ limit (suc n) (x ∷ ys)
  unfolding limit
  limit_cons n x xs ys h =
      ap (λ zs. x ∷ zs) (sym (limit_twice n xs) ∙ ap (limit n) h ∙ limit_twice n ys)

append_history_at :
    (fails : Call → Bool) (now : ℕ) (key : String) (e : Turn) (m : String → Option Stored)
    → append_history fails now key e m key
      ≡ when_stored (fails expire) (expiring now) (
          when_stored
            (fails trim)
            trimmed
            (if fails push then live now (m key) else some (pushed e (live now (m key)))))
unfolding append_history
append_history_at fails now key e m = rw (eq_refl key) refl

turns_of-expiring :
    (now at : ℕ) (h : Stored)
    → turns_of (live now (some (expiring at h)))
      ≡ (if ltb now (at + history_ttl) then h.turns else [])
turns_of-expiring now at h = ground arith

turns_of-pushed : (e : Turn) (o : Option Stored) → (pushed e o).turns ≡ e ∷ turns_of o
turns_of-pushed e none = refl
turns_of-pushed e (some h) = refl

limit-when :
    (b : Bool) (xs : List Turn) → limit 10 (if b then xs else []) ≡ (if b then limit 10 xs else [])
unfolding limit
limit-when true xs = refl
limit-when false xs = refl

-- An append leaves its turn in front of what was live, for 24 hours.
live-append_history :
    (now : ℕ) (key : String) (a : Append) (m : String → Option Stored)
    → limit 10 (turns_of (live now (append_history (only_trim a.trim_fails) a.at key a.turn m key)))
      ≡ limit 10
          (if ltb now (a.at + history_ttl) then a.turn ∷ turns_of (live a.at (m key)) else [])
live-append_history now key a m =
    ap (λ o. limit 10 (turns_of (live now o)))
      (append_history_at (only_trim a.trim_fails) a.at key a.turn m)
    ∙ cut a.trim_fails
  where
    full : Stored
    full = pushed a.turn (live a.at (m key))

    cut :
        (b : Bool)
        → limit 10 (turns_of (live now (some (expiring a.at (if b then full else trimmed full)))))
          ≡ limit 10
              (if ltb now (a.at + history_ttl) then a.turn ∷ turns_of (live a.at (m key)) else [])
    cut true = rw (turns_of-expiring now a.at full, turns_of-pushed a.turn (live a.at (m key))) refl
    cut false =
        rw
          (
            turns_of-expiring now a.at (trimmed full),
            limit-when (ltb now (a.at + history_ttl)) (limit 10 full.turns),
            limit_again 10 full.turns,
            turns_of-pushed a.turn (live a.at (m key)),
          )
          (sym (limit-when (ltb now (a.at + history_ttl)) (a.turn ∷ turns_of (live a.at (m key)))))

stored-replay :
    (now : ℕ) (key : String) (log : List Append) (m : String → Option Stored)
    → m key ≡ none
    → limit 10 (turns_of (live now (replay key log m key))) ≡ limit 10 (conversation now log)
unfolding replay conversation
stored-replay now key [] m h = rw h refl
stored-replay now key (a ∷ log) m h =
    live-append_history now key a (replay key log m)
    ∙ step (ltb now (a.at + history_ttl)) (stored-replay a.at key log m h)
  where
    step :
        (b : Bool)
        → limit 10 (turns_of (live a.at (replay key log m key))) ≡ limit 10 (conversation a.at log)
        → limit 10 (if b then a.turn ∷ turns_of (live a.at (replay key log m key)) else [])
          ≡ limit 10 (if b then a.turn ∷ conversation a.at log else [])
    step true ih =
        limit_cons 9 a.turn (turns_of (live a.at (replay key log m key))) (conversation a.at log) ih
    step false ih = refl

-- What the agent is told of a conversation is the last ten turns, newest first, of the log of that
-- chat, back to a gap of 24 hours or more: whether or not the list in Redis was cut at each append,
-- where the other commands succeed and the key was free at first.
pub load_history-replay :
    (now : ℕ) (key : String) (log : List Append) (m : String → Option Stored)
    → m key ≡ none
    → load_history none_fails now key (replay key log m) ≡ limit 10 (conversation now log)
unfolding load_history
load_history-replay now key log m h = stored-replay now key log m h
