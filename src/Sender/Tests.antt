-- ===== src/Sender/Tests.antt =====
-- A sender over the in-memory transport, with a cooldown of a minute.
use lpr_refactored.Prelude.{ℕ, true, false, none, List, [], ◌∷◌, arith, Text, codes, pos}
use lpr_refactored.Transport.{InMemoryTransport, in_memory}
use lpr_refactored.Sender.{Rect, PlateItem, Document, Config, SenderState}
use lpr_refactored.Sender.Spacing.{Spaced, sends_of, sends-Spaced}

abbrev no_box : Rect
no_box = record { x = 0; y = 0; width = 0; height = 0 }

abbrev item : PlateItem
item = record {
  text = codes "12j34567";
  confidence = 9;
  box = no_box;
  vehicle_box = no_box;
  track_id = pos 3;
  direction = 1;
  pass_id = [];
  gate = codes "5";
  force_send = false;
}

abbrev cfg : Config
cfg = record { subject = codes "plates"; durable = true; cooldown_ms = 60000; validator = none }

abbrev dump : Document → Text
dump d = d.plate

abbrev items : List (PlateItem × ℕ)
items = (item, 1000) ∷ (item, 2000) ∷ (record item { force_send = true }, 3000) ∷ (item, 61000) ∷ []

abbrev nothing : InMemoryTransport
nothing = record { messages = []; subs = [] }

abbrev start : SenderState InMemoryTransport
start = record { last_sent = []; sent = 0; transport = nothing }

sends-Spaced_example :
    Spaced 60000 none (sends_of in_memory dump cfg (codes "5:12j34567") items start)
sends-Spaced_example =
    sends-Spaced in_memory dump cfg (codes "5:12j34567") items nothing (omega arith) (omega arith)
