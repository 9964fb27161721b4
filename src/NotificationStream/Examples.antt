-- ===== src/NotificationStream/Examples.antt =====
-- Runs of the notification stream.
use mirai_app.Prelude.{String, ◌≡◌, refl, ◌+◌, true, false, some, none, List, [], ◌∷◌, All}
use mirai_app.Prelude.Js.{includes, units}
use mirai_app.Shared.Machine.{run}
use mirai_app.NotificationStream.{
  Streams, StreamEvent, StreamEffect, text, number, invalidate_list, invalidate_count, mount,
  unmount, received, threw, aborts, fires, initial, contains, handle_event, reconnect_in, connect,
  step,
}
use mirai_app.NotificationStream.Tidy.{Stays, IsGone, IsTidy, run-IsTidy, abandoned}

-- The error of an aborted stream.
abbrev canceled : String
canceled = "ConnectError"

abbrev canceled_message : String
canceled_message = "[canceled] This operation was aborted"

-- The connection is lost again and again.
abbrev failing : List StreamEvent
failing =
    mount
    ∷ threw 0 "ConnectError" "unavailable"
    ∷ fires 1
    ∷ threw 2 "ConnectError" "unavailable"
    ∷ fires 3
    ∷ received 4 (text "NOTIFICATION_EVENT_TYPE_READ")
    ∷ []

effects :
    (run (step canceled canceled_message) initial failing).1
    ≡ connect 0
      ∷ reconnect_in 1000
      ∷ StreamEffect.abort 0
      ∷ connect 2
      ∷ reconnect_in 1000
      ∷ StreamEffect.abort 2
      ∷ connect 4
      ∷ invalidate_list
      ∷ invalidate_count
      ∷ []
unfolding run step handle_event
effects = refl

reads_numbers : handle_event (number 4) ≡ []
unfolding handle_event
reads_numbers = refl

failing-Stays : All Stays failing
failing-Stays = (tt, (tt, (tt, (tt, (tt, (tt, tt))))))

run-IsTidy_example :
    IsTidy (run (step canceled canceled_message) initial failing).0
    × IsGone
        (step canceled canceled_message
          (run (step canceled canceled_message) initial failing).0
          unmount).0
run-IsTidy_example = run-IsTidy canceled canceled_message failing failing-Stays

abbrev streaming : Streams
streaming = record {
  controller = some 0;
  reconnect_timer = none;
  attempt = 0;
  is_connected = true;
  live = 0 ∷ [];
  aborted = [];
  timers = [];
  next = 1;
  mounted = true;
}

abandoned_example :
    (contains
        (1 + 1)
        (run (step canceled canceled_message) streaming (unmount ∷ aborts 0 ∷ fires 1 ∷ [])).0.live
      ≡ true)
    × ((run
          (step canceled canceled_message)
          streaming
          (unmount ∷ aborts 0 ∷ fires 1 ∷ [])).0.mounted
        ≡ false)
unfolding includes units
abandoned_example = abandoned canceled canceled_message streaming 0 refl refl refl refl refl refl
