-- ===== src/NotificationStream/Tidy.antt =====
-- How many streams and timers there are, and what is left after the hook is gone.
use mirai_app.Prelude.{
  ◌≡◌, ◌≢◌, ◌⊎◌, inl, inr, refl, ℕ, ◌+◌, String, true, false, Option, none, some, List, [], ◌∷◌,
  All, arith, str_eq,
}
use mirai_app.Prelude.Js.{includes, units}
use mirai_app.Shared.Machine.{run, run_inv_on}
use mirai_app.NotificationStream.{
  Streams, StreamEvent, StreamEffect, mount, still_live, now_aborted, clear_timer, unmount,
  received, ended, threw, aborts, fires, reconnect_in, initial, contains, without, subscribe,
  schedule_reconnect, on_error, step,
}

-- Nothing, or what the reference points to.
abbrev pub AtMost : List ℕ → Option ℕ → Type 0
AtMost [] r = Unit
AtMost (x ∷ []) r = r ≡ some x
AtMost (x ∷ y ∷ zs) r = ⊥

abbrev pub IsEmpty : List ℕ → Type 0
IsEmpty xs = xs ≡ []

-- At most one stream runs, the one of the controller, and at most one timer is set, the one of the
-- reference; not both; a running stream stands at the first attempt; no stream was aborted; without
-- the component there is none.
pub record IsTidy (s : Streams) : Type 0 where
  pub one_stream : AtMost s.live s.controller
  pub one_timer : AtMost s.timers s.reconnect_timer
  pub not_both : s.live ≡ [] ⊎ s.timers ≡ []
  pub first_attempt : s.live ≡ [] ⊎ s.attempt ≡ 0
  pub none_aborted : s.aborted ≡ []
  pub gone : s.mounted ≡ false → (s.live ≡ []) × (s.timers ≡ [])

-- Taking out the one element, or the one that is there, leaves nothing.
still_live-AtMost : (r : Option ℕ) (xs : List ℕ) → AtMost xs r → still_live r xs ≡ []
unfolding without
still_live-AtMost none [] h = refl
still_live-AtMost (some c) [] h = refl
still_live-AtMost r (x ∷ []) h = ground (arith, h)
still_live-AtMost r (x ∷ (y ∷ zs)) h = elim h [ ]

without-AtMost :
    (r : Option ℕ) (n : ℕ) (xs : List ℕ) → AtMost xs r → contains n xs ≡ true → without n xs ≡ []
unfolding without contains
without-AtMost r n [] h k = refl
without-AtMost r n (x ∷ []) h k = ground arith
without-AtMost r n (x ∷ (y ∷ zs)) h k = elim h [ ]

contains_nil : (n : ℕ) (xs : List ℕ) → xs ≡ [] → contains n xs ≡ false
unfolding contains
contains_nil n xs h = ground (arith, h)

-- A new subscription, from at most one stream and one timer.
subscribe-IsTidy :
    (s : Streams)
    → s.mounted ≡ true
    → still_live s.controller s.live ≡ []
    → clear_timer s.reconnect_timer s.timers ≡ []
    → now_aborted s.controller s.live s.aborted ≡ []
    → IsTidy (subscribe s).0
unfolding subscribe
subscribe-IsTidy s m l t a = ground (arith, l, t, a)

-- Where no stream runs, none is aborted.
nothing_aborted :
    (c : Option ℕ) (live aborted : List ℕ)
    → live ≡ []
    → aborted ≡ []
    → now_aborted c live aborted ≡ []
unfolding contains
nothing_aborted none live aborted l a = a
nothing_aborted (some c) live aborted l a = ground (arith, contains_nil c live l, a)

schedule-IsTidy :
    (s : Streams)
    → s.mounted ≡ true
    → s.live ≡ []
    → s.timers ≡ []
    → s.aborted ≡ []
    → IsTidy (schedule_reconnect s).0
unfolding schedule_reconnect
schedule-IsTidy s m l t a = ground (arith, l, t, a)

-- A timer that is set, or a stream that runs, has its component.
is_mounted : (s : Streams) → IsTidy s → s.live ≢ [] ⊎ s.timers ≢ [] → s.mounted ≡ true
is_mounted s i h = ground arith

nonempty : (n : ℕ) (xs : List ℕ) → contains n xs ≡ true → xs ≢ []
unfolding contains
nonempty n [] h e = cc
nonempty n (x ∷ xs) h e = cc

mounts :
    (s : Streams)
    → IsTidy s
    → s.mounted ≡ false
    → IsTidy (subscribe (record s { mounted = true })).0
mounts s i m =
    subscribe-IsTidy (record s { mounted = true }) refl
      (still_live-AtMost s.controller s.live i.one_stream)
      (still_live-AtMost s.reconnect_timer s.timers i.one_timer)
      (nothing_aborted s.controller s.live s.aborted (i.gone m).0 i.none_aborted)

ends :
    (s : Streams) (n : ℕ)
    → IsTidy s
    → contains n s.live ≡ true
    → IsTidy (schedule_reconnect (record s { is_connected = false; live = without n s.live })).0
ends s n i h =
    schedule-IsTidy (record s { is_connected = false; live = without n s.live })
      (is_mounted s i (inl (nonempty n s.live h)))
      (without-AtMost s.controller n s.live i.one_stream h)
      (ground (arith, nonempty n s.live h, i.not_both)) i.none_aborted

times_out :
    (s : Streams) (n : ℕ)
    → IsTidy s
    → contains n s.timers ≡ true
    → IsTidy (subscribe (record s { timers = without n s.timers })).0
times_out s n i h =
    subscribe-IsTidy (record s { timers = without n s.timers })
      (is_mounted s i (inr (nonempty n s.timers h)))
      (still_live-AtMost s.controller s.live i.one_stream)
      (still_live-AtMost s.reconnect_timer (without n s.timers)
        (rw (without-AtMost s.reconnect_timer n s.timers i.one_timer h) tt))
      (nothing_aborted s.controller s.live s.aborted
        (ground (arith, nonempty n s.timers h, i.not_both)) i.none_aborted)

-- A stream that is over, without a new timer.
stops :
    (s : Streams) (n : ℕ)
    → IsTidy s
    → contains n s.live ≡ true
    → IsTidy (record s { is_connected = false; live = without n s.live })
stops s n i h =
    ground (arith, without-AtMost s.controller n s.live i.one_stream h, nonempty n s.live h)

IsTidy-initial : IsTidy initial
IsTidy-initial = record {
  one_stream = tt;
  one_timer = tt;
  not_both = inl refl;
  first_attempt = inl refl;
  none_aborted = refl;
  gone = λ h. (refl, refl);
}

-- The component stays.
abbrev pub Stays : StreamEvent → Type 0
Stays unmount = ⊥
Stays _ = Unit

-- No aborted stream can throw.
aborts_nothing :
    (abort_name abort_message : String) (s : Streams) (n : ℕ)
    → IsTidy s
    → step abort_name abort_message s (aborts n) ≡ (s, [])
unfolding step
aborts_nothing abort_name abort_message s n i =
    ground (arith, contains_nil n s.aborted i.none_aborted)

-- The cleanup leaves neither a stream nor a timer.
pub record IsGone (s : Streams) : Type 0 where
  pub no_stream : s.live ≡ []
  pub no_timer : s.timers ≡ []

module _ (abort_name abort_message : String) where
  step-IsTidy :
      (s : Streams) (e : StreamEvent)
      → Stays e
      → IsTidy s
      → IsTidy (step abort_name abort_message s e).0
  unfolding step on_error
  step-IsTidy s mount m i = ground (arith, mounts s i)
  step-IsTidy s unmount m i = elim m [ ]
  step-IsTidy s (received n e) m i = ground arith
  step-IsTidy s (ended n) m i = ground (arith, ends s n i)
  step-IsTidy s (threw n name message) m i = ground (arith, ends s n i, stops s n i)
  step-IsTidy s (aborts n) m i = rw (aborts_nothing abort_name abort_message s n i) i
  step-IsTidy s (fires n) m i = ground (arith, times_out s n i)

  unmount-IsGone : (s : Streams) → IsTidy s → IsGone (step abort_name abort_message s unmount).0
  unfolding step
  unmount-IsGone s i = ground (
    arith,
    still_live-AtMost s.controller s.live i.one_stream,
    still_live-AtMost s.reconnect_timer s.timers i.one_timer,
    i.gone,
  )

  -- Whatever error the RPC client throws out of an aborted stream, in every run without an unmount
  -- at most one stream and at most one timer are there, those of the references, and not both; and
  -- an unmount after it leaves neither a running stream nor a timer.
  pub run-IsTidy :
      (es : List StreamEvent)
      → All Stays es
      → IsTidy (run (step abort_name abort_message) initial es).0
        × IsGone
            (step abort_name abort_message
              (run (step abort_name abort_message) initial es).0
              unmount).0
  run-IsTidy es m =
      let tidy =
        run_inv_on (step abort_name abort_message) Stays IsTidy step-IsTidy initial es m
          IsTidy-initial in
      (tidy, unmount-IsGone (run (step abort_name abort_message) initial es).0 tidy)

-- Not a delay, or a second.
abbrev pub IsSecond : StreamEffect → Type 0
IsSecond (reconnect_in t) = t ≡ 1000
IsSecond _ = Unit

-- A hook whose component goes while its stream runs: if an aborted stream throws an error with
-- another name, and one that does not speak of authentication, then a timer is set, and when it
-- fires a new stream is opened for the component that is gone.
pub abandoned :
    (abort_name abort_message : String) (s : Streams) (n : ℕ)
    → str_eq abort_name "AbortError" ≡ false
    → includes (units abort_message) (units "unauthenticated") ≡ false
    → includes (units abort_message) (units "authentication required") ≡ false
    → s.mounted ≡ true
    → s.controller ≡ some n
    → s.live ≡ n ∷ []
    → (contains
          (s.next + 1)
          (run (step abort_name abort_message) s (unmount ∷ aborts n ∷ fires s.next ∷ [])).0.live
        ≡ true)
      × ((run (step abort_name abort_message) s (unmount ∷ aborts n ∷ fires s.next ∷ [])).0.mounted
          ≡ false)
unfolding run step contains without on_error subscribe schedule_reconnect
abandoned abort_name abort_message s n a b c m k l = ground (arith, a, b, c, m, k, l)
