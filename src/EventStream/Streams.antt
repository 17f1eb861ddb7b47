-- ===== src/EventStream/Streams.antt =====
-- metriceventstream/metriceventstream.go: `sendEvent`, which `Start` calls, and the calls of `ServeHTTP`
-- of any number of clients, as steps in any order. An event is a number. The registered requests are those
-- of the map, in no order; an event goes to those that were in it when the send began. That no event is
-- made while nobody listens, and the text of the response, are not modelled.
pub mod Order
use circuit.Prelude.{
  ℕ, Bool, true, false, Option, none, some, List, [], ◌∷◌, ◌++◌, length, ltb, if◌then◌else◌, ◌==◌,
  ◌≡◌, ℤ, pos, eqb_ℤ,
}

-- A request: whether it has come, whether it is in the map, whether the send that is under way has still
-- to offer it its event, and the channel; and what happened to it: the events written to the client, those
-- offered, those due since it was in the map when they were sent, and whether it lost one.
pub record Client : Type 0 where
  pub known : Bool
  pub registered : Bool
  pub remaining : Bool
  pub channel : List ℕ
  pub written : List ℕ
  pub offered : List ℕ
  pub due : List ℕ
  pub lossy : Bool

-- The requests, the event that is being sent, all events so far, and whether `Close` was called.
pub record Streams : Type 0 where
  pub clients : ℕ → Client
  pub current : Option ℕ
  pub sent : List ℕ
  pub closed : Bool

abbrev pub put : ℕ → Client → (ℕ → Client) → ℕ → Client
put i c cs j = if j == i then c else cs j

-- The time between two rounds of events, a second if it is unset.
unfoldable pub tick_duration : ℤ → ℤ
tick_duration d = if eqb_ℤ d (pos 0) then pos 1_000_000_000 else d

-- The capacity of the channel.
abbrev pub capacity : ℕ
capacity = 1024

-- `m.eventStreams[req] = myBytesToWrite`, with a new channel.
unfoldable pub connect : Client → Client
connect c = record c { known = true; registered = true }

-- The deferred `delete`: the client is gone, or the stream was closed.
unfoldable pub leave : Client → Client
leave c = record c { registered = false }

-- An event is taken from the channel and written.
unfoldable pub write : ℕ → List ℕ → Client → Client
write e rest c = record c { channel = rest; written = c.written ++ e ∷ [] }

-- The write of an event fails, and the request ends.
unfoldable pub fail : List ℕ → Client → Client
fail rest c = record c { channel = rest; lossy = true; registered = false }

-- `placesToSend` has the channels of the map.
unfoldable pub collect : ℕ → Client → Client
collect e c = record c {
  remaining = c.registered;
  due = if c.registered then c.due ++ e ∷ [] else c.due;
}

-- The `select` of `sendEvent`: a full channel loses the event.
unfoldable pub offer : ℕ → Client → Client
offer e c =
    let c' = record c { remaining = false; offered = c.offered ++ e ∷ [] } in
    if ltb (length c.channel) capacity
    then record c' { channel = c.channel ++ e ∷ [] }
    else record c' { lossy = true }

pub data Step : Streams → Streams → Type 0 where
  connects :
      (i : ℕ) (s : Streams)
      → (s.clients i).known ≡ false
      → Step s (record s { clients = put i (connect (s.clients i)) s.clients })
  leaves :
      (i : ℕ) (s : Streams)
      → (s.clients i).registered ≡ true
      → Step s (record s { clients = put i (leave (s.clients i)) s.clients })
  writes :
      (i e : ℕ) (rest : List ℕ) (s : Streams)
      → (s.clients i).registered ≡ true
      → (s.clients i).channel ≡ e ∷ rest
      → Step s (record s { clients = put i (write e rest (s.clients i)) s.clients })
  fails :
      (i e : ℕ) (rest : List ℕ) (s : Streams)
      → (s.clients i).registered ≡ true
      → (s.clients i).channel ≡ e ∷ rest
      → Step s (record s { clients = put i (fail rest (s.clients i)) s.clients })
  sends :
      (e : ℕ) (s : Streams)
      → s.current ≡ none
      → Step s (record s {
        clients = λ i. collect e (s.clients i);
        current = some e;
        sent = s.sent ++ e ∷ [];
      })
  offers :
      (i e : ℕ) (s : Streams)
      → s.current ≡ some e
      → (s.clients i).remaining ≡ true
      → Step s (record s { clients = put i (offer e (s.clients i)) s.clients })
  finishes :
      (s : Streams)
      → ((i : ℕ) → (s.clients i).remaining ≡ false)
      → Step s (record s { current = none })
  closes : (s : Streams) → Step s (record s { closed = true })

abbrev pub newcomer : Client
newcomer = record {
  known = false;
  registered = false;
  remaining = false;
  channel = [];
  written = [];
  offered = [];
  due = [];
  lossy = false;
}

abbrev pub fresh : Streams
fresh = record { clients = λ i. newcomer; current = none; sent = []; closed = false }

pub data Reachable : Streams → Type 0 where
  started : Reachable fresh
  stepped : {s s' : Streams} → Reachable s → Step s s' → Reachable s'
