-- ===== src/NotificationStream.antt =====
-- hooks/useNotificationStream.ts: the stream of notifications, its reconnection and its cleanup.
-- Streams and timers have numbers. `abort_name` and `abort_message` are those of the error that the
-- RPC client throws out of a stream that was aborted. An event of a stream or a timer that is not
-- there does not happen, and is dropped.
pub mod Tidy
mod Examples
use mirai_app.Prelude.{
  ℕ, ◌+◌, ◌*◌, ◌^◌, String, Bool, true, false, not, ◌&&◌, ◌||◌, Option, none, some, List, [], ◌∷◌,
  nat_eq, leb, str_eq, if◌then◌else◌,
}
use mirai_app.Prelude.Js.{units, includes, has_prefix, same_text}

-- The type of an event as it comes in: a number of the enum, or a text.
pub data EventType : Type 0 where
  number : ℕ → EventType
  text : String → EventType

-- `s.replace(p, '')`: the text without the first occurrence.
unfoldable pub drop_units : List ℕ → List ℕ → List ℕ
drop_units cs [] = cs
drop_units [] (p ∷ ps) = []
drop_units (c ∷ cs) (p ∷ ps) = drop_units cs ps

unfoldable pub without_first : List ℕ → List ℕ → List ℕ
unfolding has_prefix drop_units
without_first p [] = []
without_first p (c ∷ cs) =
    let rest = without_first p cs in
    if has_prefix (c ∷ cs) p then drop_units (c ∷ cs) p else c ∷ rest

-- `NotificationEventType[name]`, where it is a number.
unfoldable pub enum_of : List ℕ → Option ℕ
unfolding same_text units
enum_of name =
    if same_text name (units "UNSPECIFIED")
    then some 0
    else if same_text name (units "CREATED")
    then some 1
    else if same_text name (units "READ")
    then some 2
    else if same_text name (units "DELETED")
    then some 3
    else if same_text name (units "KEEPALIVE")
    then some 4
    else none

unfoldable pub normalized_type : EventType → Option ℕ
unfolding enum_of without_first units
normalized_type (number n) = some n
normalized_type (text s) = enum_of (without_first (units "NOTIFICATION_EVENT_TYPE_") (units s))

-- What a step does outside the hook's references.
pub data StreamEffect : Type 0 where
  invalidate_list invalidate_count : StreamEffect
  abort : ℕ → StreamEffect
  connect : ℕ → StreamEffect
  reconnect_in : ℕ → StreamEffect

-- `handleEvent`.
unfoldable pub handle_event : EventType → List StreamEffect
unfolding normalized_type
handle_event e = elim (normalized_type e) [
  | none ↦ []
  | some n ↦
      if nat_eq n 1 || nat_eq n 2 || nat_eq n 3 then invalidate_list ∷ invalidate_count ∷ [] else []
]

-- The references of the hook, the streams that run, those of them that were aborted and have not
-- thrown yet, and the timers that are set.
pub record Streams : Type 0 where
  pub controller : Option ℕ
  pub reconnect_timer : Option ℕ
  pub attempt : ℕ
  pub is_connected : Bool
  pub live : List ℕ
  pub aborted : List ℕ
  pub timers : List ℕ
  pub next : ℕ
  pub mounted : Bool

pub data StreamEvent : Type 0 where
  mount unmount : StreamEvent
  received : ℕ → EventType → StreamEvent
  ended : ℕ → StreamEvent
  threw : ℕ → String → String → StreamEvent
  aborts : ℕ → StreamEvent
  fires : ℕ → StreamEvent

abbrev pub initial : Streams
initial = record {
  controller = none;
  reconnect_timer = none;
  attempt = 0;
  is_connected = false;
  live = [];
  aborted = [];
  timers = [];
  next = 0;
  mounted = false;
}

unfoldable pub contains : ℕ → List ℕ → Bool
contains n [] = false
contains n (m ∷ ms) = nat_eq n m || contains n ms

unfoldable pub without : ℕ → List ℕ → List ℕ
without n [] = []
without n (m ∷ ms) = let rest = without n ms in if nat_eq n m then rest else m ∷ rest

-- `clearTimeout` and `abort` on a reference: nothing happens to what is not there any more.
abbrev pub clear_timer : Option ℕ → List ℕ → List ℕ
clear_timer none ts = ts
clear_timer (some t) ts = without t ts

abbrev pub abort_effect : Option ℕ → List StreamEffect
abort_effect none = []
abort_effect (some c) = abort c ∷ []

abbrev pub still_live : Option ℕ → List ℕ → List ℕ
still_live none live = live
still_live (some c) live = without c live

abbrev pub now_aborted : Option ℕ → List ℕ → List ℕ → List ℕ
now_aborted none live aborted = aborted
now_aborted (some c) live aborted = if contains c live then c ∷ aborted else aborted

abbrev pub connect_effects : Option ℕ → ℕ → List StreamEffect
connect_effects none n = connect n ∷ []
connect_effects (some c) n = abort c ∷ connect n ∷ []

-- `subscribe`, up to the first wait for an event.
unfoldable pub subscribe : Streams → Streams × List StreamEffect
unfolding without contains
subscribe s = (
  record {
    controller = some s.next;
    reconnect_timer = none;
    attempt = 0;
    is_connected = true;
    live = s.next ∷ still_live s.controller s.live;
    aborted = now_aborted s.controller s.live s.aborted;
    timers = clear_timer s.reconnect_timer s.timers;
    next = s.next + 1;
    mounted = s.mounted;
  },
  connect_effects s.controller s.next,
)

-- The delay of scheduleReconnect.
abbrev pub delay : ℕ → ℕ
delay n = if leb (1000 * 2 ^ n) 30000 then 1000 * 2 ^ n else 30000

-- `scheduleReconnect`.
unfoldable pub schedule_reconnect : Streams → Streams × List StreamEffect
schedule_reconnect s = (
  record s {
    attempt = s.attempt + 1;
    reconnect_timer = some s.next;
    timers = s.next ∷ s.timers;
    next = s.next + 1;
  },
  reconnect_in (delay s.attempt) ∷ [],
)

-- The `catch` of subscribe.
unfoldable pub on_error : String → String → Streams → Streams × List StreamEffect
unfolding schedule_reconnect includes units
on_error name message s =
    if str_eq name "AbortError"
    then (record s { is_connected = false }, [])
    else if includes (units message) (units "unauthenticated")
        || includes (units message) (units "authentication required")
    then (record s { is_connected = false }, [])
    else schedule_reconnect (record s { is_connected = false })

module _ (abort_name abort_message : String) where
  unfoldable pub step : Streams → StreamEvent → Streams × List StreamEffect
  unfolding subscribe schedule_reconnect on_error handle_event without contains
  step s mount = if s.mounted then (s, []) else subscribe (record s { mounted = true })
  step s unmount =
      if s.mounted
      then (
        record s {
          live = still_live s.controller s.live;
          aborted = now_aborted s.controller s.live s.aborted;
          timers = clear_timer s.reconnect_timer s.timers;
          mounted = false;
        },
        abort_effect s.controller,
      )
      else (s, [])
  step s (received n e) = if contains n s.live then (s, handle_event e) else (s, [])
  step s (ended n) =
      if contains n s.live
      then schedule_reconnect (record s { is_connected = false; live = without n s.live })
      else (s, [])
  step s (threw n name message) =
      if contains n s.live
      then on_error name message (record s { live = without n s.live })
      else (s, [])
  step s (aborts n) =
      if contains n s.aborted
      then on_error abort_name abort_message (record s { aborted = without n s.aborted })
      else (s, [])
  step s (fires n) =
      if contains n s.timers then subscribe (record s { timers = without n s.timers }) else (s, [])
