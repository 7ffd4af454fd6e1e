-- ===== src/Demo.antt =====
-- demo/app.py: the deadlock that the demo arms, as the steps of its two threads, and the leak. Locks and
-- events are Python's; a thread that waits makes no step until it need not wait any more. Of the pool
-- of connections nothing is modelled: the locks are taken with a connection in hand.
pub mod Deadlock
pub mod Growth
use pidprobe.Base.{
  ℕ, suc, String, Bool, true, false, ◌&&◌, Option, none, some, List, [], ◌∷◌, ◌++◌, length,
  if◌then◌else◌,
}

-- `_ledger_writer`: before it takes the ledger's lock, with it, once it has said so, once it was told that
-- the inventory's lock is taken, with both, and at its end.
pub data Writer : Type 0 where
  absent started ledger_taken armed wanting both_taken finished : Writer

-- A request that runs `read_report`: not there yet, after the query, with the inventory's lock, once it has
-- said so, with both, and at its end.
pub data Reader : Type 0 where
  idle queried inventory_taken signalled both_taken finished : Reader

pub record World : Type 0 where
  pub writer : Writer
  pub reader : Reader
  pub ledger_free : Bool
  pub inventory_free : Bool
  -- the events `_LEDGER_ARMED` and `_INVENTORY_TAKEN`
  pub ledger_armed : Bool
  pub inventory_is_taken : Bool

-- The next step of the writer's thread, if it can make one.
writer_step : Writer → World → Option World
writer_step absent w = none
writer_step started w =
    if w.ledger_free
    then some (record {
      writer = ledger_taken;
      reader = w.reader;
      ledger_free = false;
      inventory_free = w.inventory_free;
      ledger_armed = w.ledger_armed;
      inventory_is_taken = w.inventory_is_taken;
    })
    else none
writer_step ledger_taken w = some (record {
  writer = armed;
  reader = w.reader;
  ledger_free = w.ledger_free;
  inventory_free = w.inventory_free;
  ledger_armed = true;
  inventory_is_taken = w.inventory_is_taken;
})
writer_step armed w =
    if w.inventory_is_taken
    then some (record {
      writer = wanting;
      reader = w.reader;
      ledger_free = w.ledger_free;
      inventory_free = w.inventory_free;
      ledger_armed = w.ledger_armed;
      inventory_is_taken = w.inventory_is_taken;
    })
    else none
writer_step wanting w =
    if w.inventory_free
    then some (record {
      writer = both_taken;
      reader = w.reader;
      ledger_free = w.ledger_free;
      inventory_free = false;
      ledger_armed = w.ledger_armed;
      inventory_is_taken = w.inventory_is_taken;
    })
    else none
writer_step both_taken w = some (record {
  writer = finished;
  reader = w.reader;
  ledger_free = true;
  inventory_free = true;
  ledger_armed = w.ledger_armed;
  inventory_is_taken = w.inventory_is_taken;
})
writer_step finished w = none

-- The next step of the request, if it can make one.
reader_step : Reader → World → Option World
reader_step idle w = some (record {
  writer = w.writer;
  reader = queried;
  ledger_free = w.ledger_free;
  inventory_free = w.inventory_free;
  ledger_armed = w.ledger_armed;
  inventory_is_taken = w.inventory_is_taken;
})
reader_step queried w =
    if w.inventory_free
    then some (record {
      writer = w.writer;
      reader = inventory_taken;
      ledger_free = w.ledger_free;
      inventory_free = false;
      ledger_armed = w.ledger_armed;
      inventory_is_taken = w.inventory_is_taken;
    })
    else none
reader_step inventory_taken w = some (record {
  writer = w.writer;
  reader = signalled;
  ledger_free = w.ledger_free;
  inventory_free = w.inventory_free;
  ledger_armed = w.ledger_armed;
  inventory_is_taken = true;
})
reader_step signalled w =
    if w.ledger_free
    then some (record {
      writer = w.writer;
      reader = both_taken;
      ledger_free = false;
      inventory_free = w.inventory_free;
      ledger_armed = w.ledger_armed;
      inventory_is_taken = w.inventory_is_taken;
    })
    else none
reader_step both_taken w = some (record {
  writer = w.writer;
  reader = finished;
  ledger_free = true;
  inventory_free = true;
  ledger_armed = w.ledger_armed;
  inventory_is_taken = w.inventory_is_taken;
})
reader_step finished w = none

unfoldable pub ledger_writer : World → Option World
unfolding writer_step
ledger_writer w = writer_step w.writer w

unfoldable pub read_report : World → Option World
unfolding reader_step
read_report w = reader_step w.reader w

abbrev is_alive : Writer → Bool
is_alive absent = false
is_alive finished = false
is_alive _ = true

-- `arm_deadlock`, up to the wait for the event: a writer that lives is left alone, else the events are
-- cleared and another is started.
unfoldable pub arm_deadlock : World → World
arm_deadlock w = if is_alive w.writer then w else record {
  writer = started;
  reader = w.reader;
  ledger_free = w.ledger_free;
  inventory_free = w.inventory_free;
  ledger_armed = false;
  inventory_is_taken = false;
}

-- A `LeakedRecord`, and the part of `DemoState` that the leak is about.
pub record LeakedRecord : Type 0 where
  pub index : ℕ
  pub rows : List (ℕ × String)

pub record Leak : Type 0 where
  pub is_stopped : Bool
  -- the index of the worker's next record, if it runs
  pub worker : Option ℕ
  pub widget_rows : List (ℕ × String)
  pub leaked : List LeakedRecord

-- A round of `_leak_worker`, which ends once the event is set.
leak_round : Option ℕ → Leak → Leak
leak_round none s = s
leak_round (some index) s =
    if s.is_stopped
    then record { is_stopped = true; worker = none; widget_rows = s.widget_rows; leaked = s.leaked }
    else record {
      is_stopped = false;
      worker = some (suc index);
      widget_rows = s.widget_rows;
      leaked = s.leaked ++ (record { index = index; rows = s.widget_rows } ∷ []);
    }

unfoldable pub leak_worker : Leak → Leak
unfolding leak_round
leak_worker s = leak_round s.worker s

unfoldable pub start_leak : Leak → Leak
start_leak s = elim s.worker [
  | some index ↦ s
  | none ↦ record {
    is_stopped = false;
    worker = some 0;
    widget_rows = s.widget_rows;
    leaked = s.leaked;
  }
]

unfoldable pub stop_leak : Leak → Leak
stop_leak s = record {
  is_stopped = true;
  worker = s.worker;
  widget_rows = s.widget_rows;
  leaked = s.leaked;
}
