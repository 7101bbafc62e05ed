-- ===== src/Tests/Timing.antt =====
-- Tests of the event times and of the heap of time event blocks.
use toppers_hrp3_gr_rose.Common.{
  ℕ, ◌+◌, ◌-◌, ◌*◌, ◌%◌, ◌≤◌, ◌<◌, ◌≡◌, refl, inl, inr, ◌↔◌, true, arith,
}
use toppers_hrp3_gr_rose.TimeEvent.{update_current_evttim}
use toppers_hrp3_gr_rose.TimeEvent.Times.{evttim_order, systim, systim_monotonic}
use toppers_hrp3_gr_rose.TimeEvent.Heap.{
  Store, evttim_mod, evttim_lt, evttim_le, tmevtb_insert, tmevtb_delete, tmevtb_delete_top,
}
use toppers_hrp3_gr_rose.TimeEvent.Heap.Order.{IsHeap, Registered}
use toppers_hrp3_gr_rose.TimeEvent.Heap.Laws.{Inserted, tmevtb_insert_correct}
use toppers_hrp3_gr_rose.TimeEvent.Heap.Removal.{
  Deleted, Popped, tmevtb_delete_correct, tmevtb_delete_top_correct,
}
use toppers_hrp3_gr_rose.Tests.{clock}

evttim_order_example :
    ((evttim_lt (4294967290 % evttim_mod) (4294967295 % evttim_mod) (4294967300 % evttim_mod)
        ≡ true)
      ↔ (4294967295 < 4294967300))
    × ((evttim_le (4294967290 % evttim_mod) (4294967295 % evttim_mod) (4294967300 % evttim_mod)
          ≡ true)
        ↔ (4294967295 ≤ 4294967300))
evttim_order_example =
    evttim_order 4294967290 4294967295 4294967300 (omega arith) (omega arith) (omega arith)
      (omega arith)

systim_monotonic_example :
    (systim clock ≤ systim (update_current_evttim clock))
    × (systim (update_current_evttim clock) ≤ systim clock + (150 - 100))
systim_monotonic_example =
    systim_monotonic clock 100 150 refl refl (omega arith) (omega arith) (omega arith) (omega arith)
      (omega arith)

abbrev no_events : Store
no_events = record { evttim = λ b. b * 10; p_tmevtn = λ _. 0; p_tmevtb = λ _. 0; p_last = 0 }

no_events-IsHeap : IsHeap 0 no_events
no_events-IsHeap = record {
  order = λ c p q. absurd (omega arith);
  placed = λ i p q. absurd (omega arith);
}

no_events-Registered : (y : ℕ) → ¬ Registered no_events y
no_events-Registered y r = omega (arith, r.0)

tmevtb_insert_correct_example : Inserted 0 4 no_events (tmevtb_insert 0 4 no_events)
tmevtb_insert_correct_example =
    tmevtb_insert_correct 0 no_events 4 no_events-IsHeap (no_events-Registered 4)

-- The heap with the blocks 4 and 3.
unfoldable one_event : Store
one_event = tmevtb_insert 0 4 no_events

one_event-Inserted : Inserted 0 4 no_events one_event
unfolding one_event
one_event-Inserted = tmevtb_insert_correct 0 no_events 4 no_events-IsHeap (no_events-Registered 4)

unfoldable two_events : Store
two_events = tmevtb_insert 0 3 one_event

two_events-Inserted : Inserted 0 3 one_event two_events
unfolding two_events
two_events-Inserted = tmevtb_insert_correct 0 one_event 3 one_event-Inserted.heap (λ r.
    elim ((one_event-Inserted.members 3).0 r) [
      | inl e ↦ omega (arith, e)
      | inr old ↦ no_events-Registered 3 old
    ])

two_events-Registered : Registered two_events 3
two_events-Registered = (two_events-Inserted.members 3).1 (inl refl)

two_events_size : two_events.p_last ≡ 2
two_events_size = omega (arith, two_events-Inserted.size, one_event-Inserted.size)

tmevtb_delete_correct_example : Deleted 0 3 two_events (tmevtb_delete 0 3 two_events)
tmevtb_delete_correct_example =
    tmevtb_delete_correct 0 two_events 3 two_events-Inserted.heap two_events-Registered

tmevtb_delete_top_correct_example : Popped 0 two_events (tmevtb_delete_top 0 two_events)
tmevtb_delete_top_correct_example =
    tmevtb_delete_top_correct 0 two_events two_events-Inserted.heap (omega (arith, two_events_size))
