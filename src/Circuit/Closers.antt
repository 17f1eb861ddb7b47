-- ===== src/Circuit/Closers.antt =====
-- closers.go: the logic of a circuit that has no other, which never opens and never closes it.
use circuit.Prelude.{ℤ, true, false, Option, ◌≡◌, arith, Bool-cases, inl, inr}
use circuit.Circuit.Errors.{Err}
use circuit.Circuit.Logic.{OpenerLogic, CloserLogic, Parts}
use circuit.Circuit.World.{World}
use circuit.Circuit.Execute.{judge}
use circuit.Circuit.Execute.Outcomes.{judge-opens, judge-closes}

-- `neverOpens`, which has no state.
unfoldable pub never_opens : OpenerLogic (Unit {0})
never_opens = record {
  observe = λ event o. o;
  notice = λ t o. o;
  should_open = λ now o. (false, o);
  prevent = λ now o. (false, o);
}

-- `neverCloses`.
unfoldable pub never_closes : CloserLogic (Unit {0})
never_closes = record {
  observe = λ event c. c;
  notice = λ t c. c;
  should_close = λ now c. (false, c);
  allow = λ now c. (false, c);
}

module _ {C E : Type 0} (p : Parts (Unit {0}) C E) where
  -- No run opens a circuit whose open logic is the default.
  pub judge-never_opens :
      (ret : Option Err) (expected_done_by done total : ℤ) (w : World (Unit {0}) C E)
      → w.is_open ≡ false
      → (judge
          (record p { closed_to_open = never_opens })
          ret
          expected_done_by
          done
          total
          w).1.is_open
        ≡ false
  unfolding never_opens
  judge-never_opens ret expected_done_by done total w is_closed =
      let p' : Parts (Unit {0}) C E = record p { closed_to_open = never_opens } in
      elim (Bool-cases (judge p' ret expected_done_by done total w).1.is_open) [
        | inl opens ↦
            let may = judge-opens p' ret expected_done_by done total w is_closed opens in
            ground (arith, may.opener_agrees)
        | inr stays ↦ stays
      ]

module _ {O E : Type 0} (p : Parts O (Unit {0}) E) where
  -- No run closes a circuit whose close logic is the default.
  pub judge-never_closes :
      (ret : Option Err) (expected_done_by done total : ℤ) (w : World O (Unit {0}) E)
      → w.is_open ≡ true
      → (judge
          (record p { open_to_close = never_closes })
          ret
          expected_done_by
          done
          total
          w).1.is_open
        ≡ true
  unfolding never_closes
  judge-never_closes ret expected_done_by done total w is_open =
      let p' : Parts O (Unit {0}) E = record p { open_to_close = never_closes } in
      elim (Bool-cases (judge p' ret expected_done_by done total w).1.is_open) [
        | inl stays ↦ stays
        | inr closes ↦
            let may = judge-closes p' ret expected_done_by done total w is_open closes in
            ground (arith, may.closer_agrees)
      ]
