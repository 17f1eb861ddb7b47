-- ===== src/Circuit/Transitions.antt =====
-- circuit.go: how a circuit opens and closes. The sections under transitionMu are single steps here;
-- the user's listeners act on the environment alone.
use circuit.Prelude.{
  ℤ, Bool, true, false, Option, some, none, List, [], ◌∷◌, ◌++◌, if◌then◌else◌, after,
}
use circuit.Circuit.Logic.{Transition, Parts, tell_all}
use circuit.Circuit.World.{World, now, should_open}

abbrev pub same : Bool → Bool → Bool
same true b = b
same false b = if b then false else true

module _ {O C E : Type 0} (p : Parts O C E) where
  abbrev pub Recheck : Type 0
  Recheck = ℤ → World O C E → Bool × World O C E

  unfoldable pub notify_state_machines : Transition → World O C E → World O C E
  notify_state_machines t w = record w {
    closer = p.open_to_close.notice t w.closer;
    opener = p.closed_to_open.notice t w.opener;
  }

  -- A nil recheck passes.
  unfoldable pub ask : Option Recheck → ℤ → World O C E → Bool × World O C E
  ask none t w = (true, w)
  ask (some recheck) t w = recheck t w

  -- The flip itself, stamped with the later of the caller's time and the clock.
  unfoldable pub flip : ℤ → Bool → World O C E → World O C E
  flip t open? w =
      let (flipped, w') = now p (record w { is_open = open? }) in
      let stamp : Transition = record {
        to_open = open?;
        at = if after flipped t then flipped else t;
      } in
      let w'' = notify_state_machines stamp w' in
      record w'' { pending_transitions = w''.pending_transitions ++ stamp ∷ [] }

  unfoldable pub commit_transition : ℤ → Bool → Option Recheck → World O C E → Bool × World O C E
  commit_transition t open? recheck w =
      if same w.is_open open?
      then (false, w)
      else let (ok, w') = ask recheck t w in if ok then (true, flip t open? w') else (false, w')

  unfoldable pub notify_listeners : Transition → World O C E → World O C E
  notify_listeners t w = record w { env = tell_all p.circuit_metrics t w.env }

  -- The loop of `deliverPendingTransitions`: each transition leaves the queue before it is told.
  unfoldable pub drain : List Transition → World O C E → World O C E
  drain [] w = w
  drain (t ∷ ts) w = drain ts (notify_listeners t (record w { pending_transitions = ts }))

  unfoldable pub deliver_pending_transitions : World O C E → World O C E
  deliver_pending_transitions w =
      if w.delivering_transitions
      then w
      else let w' = drain w.pending_transitions (record w { delivering_transitions = true }) in
        record w' { delivering_transitions = false }

  unfoldable pub transition_to : ℤ → Bool → Option Recheck → World O C E → World O C E
  transition_to t open? recheck w =
      if same w.is_open open?
      then w
      else let (done, w') = commit_transition t open? recheck w in
        if done then deliver_pending_transitions w' else w'

  unfoldable pub close_circuit : World O C E → World O C E
  close_circuit w = let (t, w') = now p w in transition_to t false none w'

  unfoldable pub open_circuit : World O C E → World O C E
  open_circuit w = let (t, w') = now p w in transition_to t true none w'

  unfoldable pub attempt_to_open : ℤ → World O C E → World O C E
  attempt_to_open t w =
      if w.config.forced_closed
      then w
      else if w.is_open
      then w
      else let (ok, w') = should_open p t w in
        if ok then transition_to t true (some (should_open p)) w' else w'
