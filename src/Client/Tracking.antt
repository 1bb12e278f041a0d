-- ===== src/Client/Tracking.antt =====
-- src/client/master-control-client.ts: the tracking of connection states; and the connection messages
-- of src/client/agv-client.ts. Handlers are numbers; a combined handler calls those that it is made
-- of in the order of their registration.
use vda_5050_lib_2_0_0_js.Prelude.{
  ℕ, ◌≡◌, refl, String, Bool, true, Option, none, some, List, [], ◌∷◌, ◌++◌, map, if◌then◌else◌,
  arith,
}
use vda_5050_lib_2_0_0_js.AgvIdMap
use vda_5050_lib_2_0_0_js.AgvIdMap.{AgvIdMap}
use vda_5050_lib_2_0_0_js.AgvIdMap.Laws.{get-set_agv}
use vda_5050_lib_2_0_0_js.Types.{
  AgvId, agv_id_beq, Topic, Connection, ConnectionState, Headerless, Content,
}

pub record TrackedState : Type 0 where
  pub state : ConnectionState
  pub timestamp : String

pub record TrackCall : Type 0 where
  pub handler : ℕ
  pub subject : AgvId
  pub tracked : TrackedState

pub record Tracker : Type 0 where
  pub connection_states : AgvIdMap Connection
  pub track_handlers : List ℕ
  pub calls : List TrackCall

abbrev pub tracked_of : Connection → TrackedState
tracked_of c = record { state = c.connection_state; timestamp = c.timestamp }

abbrev tell : AgvId → Connection → ℕ → TrackCall
tell subject c handler = record { handler = handler; subject = subject; tracked = tracked_of c }

-- A new handler is called for each vehicle that is tracked already.
unfoldable pub track_agvs : ℕ → Tracker → Tracker
track_agvs handler t = record t {
  track_handlers = t.track_handlers ++ handler ∷ [];
  calls = t.calls ++ map (λ e. tell e.0 e.1 handler) (AgvIdMap.entries t.connection_states);
}

-- The handler of connection messages, as `onStarted` subscribes it.
unfoldable pub connection_received : Connection → AgvId → Tracker → Tracker
connection_received c agv_id t = record t {
  connection_states = AgvIdMap.set agv_id c t.connection_states;
  calls = t.calls ++ map (tell agv_id c) t.track_handlers;
}

unfoldable pub get_tracked_state : AgvId → Tracker → Option TrackedState
get_tracked_state subject t = elim (AgvIdMap.get subject t.connection_states) [
  | none ↦ none
  | some c ↦ some (tracked_of c)
]

unfoldable pub get_tracked_states : Tracker → List (AgvId × TrackedState)
get_tracked_states t = map (λ e. (e.0, tracked_of e.1)) (AgvIdMap.entries t.connection_states)

-- `reset`, less what the base class does.
unfoldable pub reset : Tracker → Tracker
reset t = record t { connection_states = AgvIdMap.empty; track_handlers = [] }

-- What an AGV publishes: when it has started, when it stops, and as its last will.
pub data Occasion : Type 0 where
  started stopping broken : Occasion

pub record ConnectionPublication : Type 0 where
  pub topic : Topic
  pub object : Headerless
  pub retain_message : Bool

abbrev connection_with : ConnectionState → ConnectionPublication
connection_with state = record {
  topic = Topic.connection;
  object = record { timestamp = none; content = Content.connection state };
  retain_message = true;
}

unfoldable pub connection_publication : Occasion → ConnectionPublication
connection_publication Occasion.started = connection_with ConnectionState.online
connection_publication Occasion.stopping = connection_with ConnectionState.offline
connection_publication Occasion.broken = connection_with ConnectionState.connectionbroken

-- The connection messages of some vehicles, in order.
abbrev pub after_connections : List (AgvId × Connection) → Tracker → Tracker
after_connections [] t = t
after_connections ((agv_id, c) ∷ messages) t =
    after_connections messages (connection_received c agv_id t)

abbrev pub last_connection :
    AgvId → List (AgvId × Connection) → Option TrackedState → Option TrackedState
last_connection agv_id [] before = before
last_connection agv_id ((other, c) ∷ messages) before =
    last_connection agv_id messages
      (if agv_id_beq other agv_id then some (tracked_of c) else before)

tracked-received :
    (agv_id other : AgvId) (c : Connection) (t : Tracker)
    → get_tracked_state agv_id (connection_received c other t)
      ≡ (if agv_id_beq other agv_id then some (tracked_of c) else get_tracked_state agv_id t)
unfolding get_tracked_state connection_received
tracked-received agv_id other c t = ground (arith, get-set_agv other agv_id c t.connection_states)

-- The tracked state of a vehicle is that of its last connection message, and as before if there was
-- none.
pub get_tracked_state-after_connections :
    (agv_id : AgvId) (messages : List (AgvId × Connection)) (t : Tracker)
    → get_tracked_state agv_id (after_connections messages t)
      ≡ last_connection agv_id messages (get_tracked_state agv_id t)
get_tracked_state-after_connections agv_id [] t = refl
get_tracked_state-after_connections agv_id ((other, c) ∷ messages) t =
    rw (← tracked-received agv_id other c t)
      (get_tracked_state-after_connections agv_id messages (connection_received c other t))
