-- ===== src/EventStream/Streams/Order.antt =====
-- metriceventstream/metriceventstream.go: what a client gets, and in which order.
use mathlib.Core.List.{Sublist, append_assoc, append-nil}
use mathlib.Core.List.Sublist
use circuit.Prelude.{
  ℕ, true, false, Option, none, some, List, [], ◌∷◌, ◌++◌, length, ltb, ◌==◌, ◌≡◌, ◌≤◌, refl, sym,
  ap, subst, ◌∙◌, arith, Bool-cases, inl, inr, length-append,
}
use circuit.EventStream.Streams.{
  Client, Streams, put, capacity, connect, leave, write, fail, collect, offer, Step, connects,
  leaves, writes, fails, sends, offers, finishes, closes, Reachable, started, stepped,
}

-- What holds of a client while an event, or none, is being sent.
record Good (current : Option ℕ) (sent : List ℕ) (c : Client) : Type 0 where
  stream : Sublist (c.written ++ c.channel) c.offered
  whole : c.lossy ≡ false → c.written ++ c.channel ≡ c.offered
  bounded : length c.channel ≤ capacity
  told : Sublist c.due sent
  awaited : c.remaining ≡ true → (e : ℕ) × (current ≡ some e) × (c.due ≡ c.offered ++ e ∷ [])
  done : c.remaining ≡ false → c.due ≡ c.offered

put-each :
    (P : Client → Type 0) (i j : ℕ) (c : Client) (cs : ℕ → Client)
    → P c
    → P (cs j)
    → P (put i c cs j)
put-each P i j c cs a b = elim (Bool-cases (j == i)) [
  | inl same ↦ rw same a
  | inr other ↦ rw other b
]

-- Events are only added at the end.
prefix : (l : List ℕ) (e : ℕ) → Sublist l (l ++ e ∷ [])
prefix l e =
    subst (λ x. Sublist x (l ++ e ∷ [])) (append-nil l)
      (Sublist.append (Sublist.refl l) (Sublist.cons e (Sublist.refl [])))

module _ (current : Option ℕ) (sent : List ℕ) (c : Client) (g : Good current sent c) where
  connect-Good : Good current sent (connect c)
  unfolding connect
  connect-Good = record {
    stream = g.stream;
    whole = g.whole;
    bounded = g.bounded;
    told = g.told;
    awaited = g.awaited;
    done = g.done;
  }

  leave-Good : Good current sent (leave c)
  unfolding leave
  leave-Good = record {
    stream = g.stream;
    whole = g.whole;
    bounded = g.bounded;
    told = g.told;
    awaited = g.awaited;
    done = g.done;
  }

  write-Good : (e : ℕ) (rest : List ℕ) → c.channel ≡ e ∷ rest → Good current sent (write e rest c)
  unfolding write
  write-Good e rest at =
      let moved : c.written ++ e ∷ [] ++ rest ≡ c.written ++ c.channel =
        append_assoc c.written (e ∷ []) rest ∙ ap (λ l. c.written ++ l) (sym at) in
      record {
        stream = subst (λ l. Sublist l c.offered) (sym moved) g.stream;
        whole = λ h. moved ∙ g.whole h;
        bounded = ground (arith, ap length at, g.bounded);
        told = g.told;
        awaited = g.awaited;
        done = g.done;
      }

  fail-Good : (e : ℕ) (rest : List ℕ) → c.channel ≡ e ∷ rest → Good current sent (fail rest c)
  unfolding fail
  fail-Good e rest at =
      let shorter : Sublist (c.written ++ rest) (c.written ++ c.channel) =
        subst (λ l. Sublist (c.written ++ rest) (c.written ++ l)) (sym at)
          (Sublist.append (Sublist.refl c.written) (Sublist.cons e (Sublist.refl rest))) in
      record {
        stream = Sublist.trans shorter g.stream;
        whole = λ h. absurd (ground (arith, h));
        bounded = ground (arith, ap length at, g.bounded);
        told = g.told;
        awaited = g.awaited;
        done = g.done;
      }

  offer-Good : (e : ℕ) → current ≡ some e → c.remaining ≡ true → Good current sent (offer e c)
  unfolding offer
  offer-Good e sending remains =
      let (e', same, due) = g.awaited remains in
      let e-same : e' ≡ e = ground (arith, same, sending) in
      let due' : c.due ≡ c.offered ++ e ∷ [] = due ∙ ap (λ x. c.offered ++ x ∷ []) e-same in
      elim (Bool-cases (ltb (length c.channel) capacity)) [
        | inl room ↦
            let longer : c.written ++ (c.channel ++ e ∷ []) ≡ c.written ++ c.channel ++ e ∷ [] =
              sym (append_assoc c.written c.channel (e ∷ [])) in
            rw room (record {
              stream =
                  subst (λ l. Sublist l (c.offered ++ e ∷ [])) (sym longer)
                    (Sublist.append g.stream (Sublist.refl (e ∷ [])));
              whole = λ h. longer ∙ ap (λ l. l ++ e ∷ []) (g.whole h);
              bounded = ground (arith, length-append c.channel (e ∷ []));
              told = g.told;
              awaited = λ h. absurd (ground (arith, h));
              done = λ h. due';
            })
        | inr full ↦ rw full (record {
          stream = Sublist.trans g.stream (prefix c.offered e);
          whole = λ h. absurd (ground (arith, h));
          bounded = g.bounded;
          told = g.told;
          awaited = λ h. absurd (ground (arith, h));
          done = λ h. due';
        })
      ]

  collect-Good : (e : ℕ) → current ≡ none → Good (some e) (sent ++ e ∷ []) (collect e c)
  unfolding collect
  collect-Good e idle = elim (Bool-cases c.remaining) [
    | inl busy ↦ absurd (let (e', current, _) = g.awaited busy in ground (arith, current, idle))
    | inr free ↦ elim (Bool-cases c.registered) [
      | inl registered ↦ rw registered (record {
        stream = g.stream;
        whole = g.whole;
        bounded = g.bounded;
        told = Sublist.append g.told (Sublist.refl (e ∷ []));
        awaited = λ h. (e, refl, ap (λ l. l ++ e ∷ []) (g.done free));
        done = λ h. absurd (ground (arith, h));
      })
      | inr gone ↦ rw gone (record {
        stream = g.stream;
        whole = g.whole;
        bounded = g.bounded;
        told = Sublist.trans g.told (prefix sent e);
        awaited = λ h. absurd (ground (arith, h));
        done = λ h. g.done free;
      })
    ]
  ]

abbrev Goods : Streams → Type 0
Goods s = (i : ℕ) → Good s.current s.sent (s.clients i)

Step-Goods : {s s' : Streams} → Step s s' → Goods s → Goods s'
Step-Goods (connects i s h) g j =
    put-each (Good s.current s.sent) i j (connect (s.clients i)) s.clients
      (connect-Good s.current s.sent (s.clients i) (g i)) (g j)
Step-Goods (leaves i s h) g j =
    put-each (Good s.current s.sent) i j (leave (s.clients i)) s.clients
      (leave-Good s.current s.sent (s.clients i) (g i)) (g j)
Step-Goods (writes i e rest s h at) g j =
    put-each (Good s.current s.sent) i j (write e rest (s.clients i)) s.clients
      (write-Good s.current s.sent (s.clients i) (g i) e rest at) (g j)
Step-Goods (fails i e rest s h at) g j =
    put-each (Good s.current s.sent) i j (fail rest (s.clients i)) s.clients
      (fail-Good s.current s.sent (s.clients i) (g i) e rest at) (g j)
Step-Goods (sends e s idle) g j = collect-Good s.current s.sent (s.clients j) (g j) e idle
Step-Goods (offers i e s sending remains) g j =
    put-each (Good s.current s.sent) i j (offer e (s.clients i)) s.clients
      (offer-Good s.current s.sent (s.clients i) (g i) e sending remains) (g j)
Step-Goods (finishes s all) g j = record {
  stream = (g j).stream;
  whole = (g j).whole;
  bounded = (g j).bounded;
  told = (g j).told;
  awaited = λ h. absurd (ground (arith, h, all j));
  done = (g j).done;
}
Step-Goods (closes s) g j = g j

Reachable-Goods : {s : Streams} → Reachable s → Goods s
Reachable-Goods started i = record {
  stream = Sublist.refl [];
  whole = λ h. refl;
  bounded = omega arith;
  told = Sublist.refl [];
  awaited = λ h. absurd (ground (arith, h));
  done = λ h. refl;
}
Reachable-Goods (stepped r step) i = Step-Goods step (Reachable-Goods r) i

-- What a client has got, or has in its channel.
pub record Delivered (s : Streams) (c : Client) : Type 0 where
  pub in_order : Sublist (c.written ++ c.channel) s.sent
  pub bounded : length c.channel ≤ capacity
  pub complete : s.current ≡ none → c.lossy ≡ false → c.written ++ c.channel ≡ c.due

due_of_offered :
    (current : Option ℕ) (sent : List ℕ) (c : Client)
    → Good current sent c
    → Sublist c.offered c.due
due_of_offered current sent c g = elim (Bool-cases c.remaining) [
  | inl waits ↦
      let (e, _, due) = g.awaited waits in
      subst (λ l. Sublist c.offered l) (sym due) (prefix c.offered e)
  | inr free ↦ subst (λ l. Sublist c.offered l) (sym (g.done free)) (Sublist.refl c.offered)
]

-- However the sends, the clients' requests and their writes interleave, a client is written events in the
-- order in which they were sent, each at most once, and its channel never exceeds its capacity. Between two sends
-- a client that lost no event, to a full channel or a failed write, has been written, or has in its
-- channel, exactly the events that were sent while it was registered.
pub Reachable-streams : (s : Streams) (i : ℕ) → Reachable s → Delivered s (s.clients i)
Reachable-streams s i r =
    let c = s.clients i in
    let g = Reachable-Goods r i in
    record {
      in_order =
          Sublist.trans g.stream (Sublist.trans (due_of_offered s.current s.sent c g) g.told);
      bounded = g.bounded;
      complete = λ idle kept. elim (Bool-cases c.remaining) [
        | inl waits ↦
            absurd (let (e, current, _) = g.awaited waits in ground (arith, current, idle))
        | inr free ↦ g.whole kept ∙ sym (g.done free)
      ];
    }
