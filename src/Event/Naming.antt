-- ===== src/Event/Naming.antt =====
-- event.h: the numbers of the event types against the names that ENUM gives them.
use drumlin.Prelude.{◌≡◌, refl, true, nat_eq, bytes_eq}
use drumlin.Metatypes.{to_string, to_enum, enum, enum_from}
use drumlin.Event.{
  EventType, event_none, event_first, thread_first, thread_work, thread_notify, thread_warning,
  thread_shutdown, thread_remove, thread_last, application_close, application_threads_gone,
  application_shutdown, application_restart, event_last, to_number, type_names,
}

-- The name of each type is read back as its number.
to_enum-to_number :
    (t : EventType) → to_enum type_names (to_string type_names (to_number t)) ≡ (to_number t, true)
unfolding to_enum to_string type_names to_number enum enum_from
to_enum-to_number event_none = refl
to_enum-to_number event_first = refl
to_enum-to_number thread_first = refl
to_enum-to_number thread_work = refl
to_enum-to_number thread_notify = refl
to_enum-to_number thread_warning = refl
to_enum-to_number thread_shutdown = refl
to_enum-to_number thread_remove = refl
to_enum-to_number thread_last = refl
to_enum-to_number application_close = refl
to_enum-to_number application_threads_gone = refl
to_enum-to_number application_shutdown = refl
to_enum-to_number application_restart = refl
to_enum-to_number event_last = refl
