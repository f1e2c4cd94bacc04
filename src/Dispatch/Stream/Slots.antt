-- ===== src/Dispatch/Stream/Slots.antt =====
-- dispatchStream around its pipeline: the slot of the service, the count, and what is returned.
use case_execution.Prelude.{
  ap, [], ℕ, zero, suc, ◌-◌, ◌≡◌, ◌<◌, true, Option, none, some, if◌then◌else◌, ltb, arith,
}
use case_execution.Domain.Errs.{GoError, wrap}
use case_execution.Dispatch.Ports.{Reply, ok, err}
use case_execution.Text.{lit}

-- The slots of the service that are taken, and the rest of what a stream works on.
pub record Served (S : Type 0) : Type 0 where
  pub taken_slots : ℕ
  pub rest : S

module _ {S : Type 0} (count : S → Reply ℕ × S) (pipeline : ℕ → S → Option GoError × S) where
  abbrev pub counted : Reply ℕ × S → Option GoError × S
  counted (err e, s) = (some (wrap (lit "count cases: ") e []), s)
  counted (ok zero, s) = (none, s)
  counted (ok (suc n), s) = pipeline (suc n) s

  -- The stream in its slot, which the deferred function gives back.
  in_slot : Served S → Option GoError × Served S
  in_slot served =
      let held : Served S = record served { taken_slots = suc served.taken_slots } in
      let (e, s) = counted (count held.rest) in
      (e, record { taken_slots = held.taken_slots - 1; rest = s })

  -- `gives_up` is the error of the context where the select takes that branch; it can take a slot only
  -- while one is free.
  unfoldable pub dispatch_stream :
      ℕ → Option GoError → Served S → Option (Option GoError × Served S)
  unfolding in_slot
  dispatch_stream slots (some e) served = some (some e, served)
  dispatch_stream slots none served =
      if ltb served.taken_slots slots then some (in_slot served) else none

  -- A stream that has got a slot gives it back, whatever the count and the pipeline return.
  pub slot_returned :
      (slots : ℕ) (served : Served S)
      → served.taken_slots < slots
      → dispatch_stream slots none served
        ≡ some (
          (counted (count served.rest)).0,
          record { taken_slots = served.taken_slots; rest = (counted (count served.rest)).1 },
        )
  unfolding dispatch_stream
  slot_returned slots served free =
      let taken : ltb served.taken_slots slots ≡ true = ground arith in
      let back : suc served.taken_slots - 1 ≡ served.taken_slots = omega arith in
      rw taken (
        ap
          (λ n. some (
            (counted (count served.rest)).0,
            record { taken_slots = n; rest = (counted (count served.rest)).1 },
          ))
          back)
