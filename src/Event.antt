-- ===== src/Event.antt =====
-- event.h and event.cpp: the events and their types. The types have the numbers of the enumeration in
-- the order in which it names them, and `ptr` is the address that the event carries.
pub mod Naming
use drumlin.Prelude.{ℕ, ◌&&◌, Bool, List, [], ◌∷◌, ◌++◌, leb, Bytes, codes, nat_eq, bytes_eq}
use drumlin.Metatypes.{Names, enum}
use drumlin.Metatypes as Metatypes

pub data EventType : Type 0 where
  event_none event_first thread_first thread_work thread_notify thread_warning : EventType
  thread_shutdown thread_remove thread_last : EventType
  application_close application_threads_gone application_shutdown : EventType
  application_restart event_last : EventType

-- The number of a type.
to_number : EventType → ℕ
to_number event_none = 0
to_number event_first = 1
to_number thread_first = 2
to_number thread_work = 3
to_number thread_notify = 4
to_number thread_warning = 5
to_number thread_shutdown = 6
to_number thread_remove = 7
to_number thread_last = 8
to_number application_close = 9
to_number application_threads_gone = 10
to_number application_shutdown = 11
to_number application_restart = 12
to_number event_last = 13

pub record Event : Type 0 where
  pub event_type : EventType
  pub name : Bytes
  pub ptr : ℕ

-- The test that opens Application::event and stands in Thread::event.
unfoldable pub in_range : EventType → Bool
unfolding to_number
in_range t = leb (to_number event_first) (to_number t) && leb (to_number t) (to_number event_last)

-- make_event
unfoldable pub make_event : EventType → Bytes → ℕ → Event
make_event t name that = record { event_type = t; name = name; ptr = that }

-- Event::Event()
unfoldable default_event : Event
default_event = record { event_type = event_first; name = codes "none"; ptr = 0 }

-- Event::Event(Type)
unfoldable of_type : EventType → Event
of_type t = record { event_type = t; name = []; ptr = 0 }

-- Event::Event(Type,string)
unfoldable of_name : EventType → Bytes → Event
of_name t name = record { event_type = t; name = name; ptr = 0 }

-- Event::Event(Event const&)
unfoldable copy : Event → Event
copy rhs = record { event_type = rhs.event_type; name = rhs.name; ptr = rhs.ptr }

-- Event::Event(Event &&): the new event, and the other, whose string is then any text.
unfoldable move : Bytes → Event → Event × Event
move left rhs = (
  record { event_type = rhs.event_type; name = rhs.name; ptr = rhs.ptr },
  record rhs { name = left },
)

-- DrumlinEventTypes, as ENUM makes them.
unfoldable type_names : Names
unfolding enum
type_names = enum (
    codes "DrumlinEventNone"
    ∷ codes "DrumlinEventEvent_first"
    ∷ codes "DrumlinEventThread_first"
    ∷ codes "DrumlinEventThreadWork"
    ∷ codes "DrumlinEventThreadNotify"
    ∷ codes "DrumlinEventThreadWarning"
    ∷ codes "DrumlinEventThreadShutdown"
    ∷ codes "DrumlinEventThreadRemove"
    ∷ codes "DrumlinEventThread_last"
    ∷ codes "DrumlinEventApplicationClose"
    ∷ codes "DrumlinEventApplicationThreadsGone"
    ∷ codes "DrumlinEventApplicationShutdown"
    ∷ codes "DrumlinEventApplicationRestart"
    ∷ codes "DrumlinEventEvent_last"
    ∷ [])

-- The stream operator; `print_pointer` is how a stream prints an address.
unfoldable to_text : (ℕ → Bytes) → Event → Bytes
unfolding type_names to_number
to_text print_pointer event =
    codes "{Event:"
    ++ (event.name
        ++ (codes ":"
            ++ (Metatypes.to_string type_names (to_number event.event_type)
                ++ (codes ":" ++ (print_pointer event.ptr ++ codes "}")))))
