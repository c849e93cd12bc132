-- ===== src/App/Poller/Refreshed.antt =====
-- src/nuki_app.c and src/nuki_uart_proto.c: a poll of a lock that is in reach, and the STATE requests after it.
use nuki_nrf52_bridge.Base.{
  ℕ, ◌+◌, ◌-◌, ◌/◌, ◌%◌, ◌^◌, ◌<◌, ◌≡◌, refl, sym, ap, subst, ◌∙◌, List, [], ◌∷◌, ◌++◌, drop, none,
  some, true, false, if◌then◌else◌, All, Result, ok, arith,
}
use nuki_nrf52_bridge.Zephyr.{ByteOrder}
use nuki_nrf52_bridge.Crypto.Psa.{Psa}
use nuki_nrf52_bridge.Protocol.Commands.{cmd_request_data, cmd_keyturner_states}
use nuki_nrf52_bridge.Protocol.State.{KeyturnerState}
use nuki_nrf52_bridge.Transport.{Event}
use nuki_nrf52_bridge.Link.Exchange.{IsIdle, Incoming, exchange}
use nuki_nrf52_bridge.Command.Message.{IsMessage}
use nuki_nrf52_bridge.Command.Reported.{Reports, get_state-Reports}
use nuki_nrf52_bridge.Storage.{Saved, get_pairing}
use nuki_nrf52_bridge.Uart.Rx.{RxFrame}
use nuki_nrf52_bridge.Uart.Tx.{rc_of, send_state, handle_state, dispatch_frame}
use nuki_nrf52_bridge.Uart.Tx.Effects.{at_state}
use nuki_nrf52_bridge.App.{App}
use nuki_nrf52_bridge.App.Connect.{Moment, Callback, time_passes, callback}
use nuki_nrf52_bridge.App.Operations.{
  World, is_paired, is_some, disconnect, connect, next_answer, next_wire, start_link, on_usdio_link,
  get_state, read_state, when_paired, when_connected, put_cache, get_cached_state,
}
use nuki_nrf52_bridge.App.Operations.Reached.{
  Visit, visit, IsOther, reached, connect-Reached, subscribed-IsTransport,
}
use nuki_nrf52_bridge.App.Operations.Cache.{SameCache, callback-SameCache}
use nuki_nrf52_bridge.App.Bridge.{bridge_api}
use nuki_nrf52_bridge.App.Poller.{poll, on_polled, set_retries}

-- The callbacks that come one after another, and the milliseconds that they bring.
abbrev pub afterwards : List Callback → App → App
afterwards [] a = a
afterwards (e ∷ es) a = afterwards es (callback e a)

abbrev pub milliseconds : Callback → ℕ
milliseconds (time_passes ms) = ms
milliseconds e = 0

abbrev pub elapsed : List Callback → ℕ
elapsed [] = 0
elapsed (e ∷ es) = milliseconds e + elapsed es

afterwards-SameCache :
    (a : App) (es : List Callback) (b : App) → SameCache a b → SameCache a (afterwards es b)
afterwards-SameCache a [] b h = h
afterwards-SameCache a (e ∷ es) b h =
    afterwards-SameCache a es (callback e b) (callback-SameCache a e b h)

callback-uptime_ms :
    (e : Callback) (a : App) → (callback e a).uptime_ms ≡ a.uptime_ms + milliseconds e
unfolding callback
callback-uptime_ms e a = ground arith

afterwards-uptime_ms :
    (es : List Callback) (a : App) → (afterwards es a).uptime_ms ≡ a.uptime_ms + elapsed es
afterwards-uptime_ms [] a = omega arith
afterwards-uptime_ms (e ∷ es) a =
    omega (arith, callback-uptime_ms e a, afterwards-uptime_ms es (callback e a))

-- What the cache answers behind some callbacks, filled when the time was `t`.
aged :
    (s : KeyturnerState) (t ms : ℕ) (a : App)
    → (a.cached_state ≡ s) × (a.cache_valid ≡ true) × (a.cache_uptime_ms ≡ t)
    → a.uptime_ms ≡ t + ms
    → get_cached_state a ≡ ok (s, ms / 1000 % 2 ^ 32)
unfolding get_cached_state
aged s t ms a (state, valid, filled) now =
    rw (valid, state, filled, now) (ap (λ d. ok (s, d / 1000 % 2 ^ 32)) (difference t ms))
  where
    difference : (t ms : ℕ) → t + ms - t ≡ ms
    difference t ms = omega arith

abbrev pub later : List Callback → World → World
later es w = record w { app = afterwards es w.app }

module _ (bo : ByteOrder) where
  open bo use {put_le16}

  -- The lock is in reach, and answers a request for its state by a report, sealed under the stored key.
  pub record Present (p : Saved) (w : World) (s : KeyturnerState) : Type 0 where
    pub scanning : next_answer w.scans ≡ ok tt
    pub meeting : Visit
    pub others : All (IsOther (some p)) (meeting.strangers)
    pub later : List Moment
    pub there : w.moments ≡ visit meeting p.addr later
    pub report : Incoming
    pub reports : Reports bo p.data'.shared_key p.data'.auth_id s report
    pub rest : List Event
    pub accepting : (next_wire w.wires).accepts ≡ []
    pub coming : (next_wire w.wires).events ≡ exchange report rest

  -- The poll succeeds with the lock's report.
  record Told (p : Saved) (w : World) (s : KeyturnerState) (out : Result KeyturnerState × World)
      : Type 0 where
    success : out.0 ≡ ok s
    question : List ℕ
    sent : out.1.sent ≡ w.sent ++ question ∷ []
    request :
        IsMessage bo p.data'.shared_key p.data'.auth_id cmd_request_data
          (put_le16 cmd_keyturner_states)
          question

  read_state-Told :
      (p : Saved) (w w1 : World) (s : KeyturnerState) (c : Present p w s)
      → p.data'.auth_id < 4294967296
      → IsIdle (start_link w1 w1.app.usdio)
      → w1.wires ≡ w.wires
      → w1.sent ≡ w.sent
      → Told p w s (read_state bo p w1)
  unfolding read_state on_usdio_link disconnect
  read_state-Told p w w1 s c bound idle wires before =
      let (question, t, request, done, after) =
        get_state-Reports bo p.data'.shared_key p.data'.auth_id s c.report c.rest
          (start_link w1 w1.app.usdio) bound idle c.reports
          (ap (λ ws. (next_wire ws).events) wires ∙ c.coming) in
      record {
        success = ap (λ q. q.0) done;
        question = question;
        sent = ap (λ q. w1.sent ++ q.1.sent) done ∙ ap (λ b. b ++ question ∷ []) before;
        request = request;
      }

  get_state-Told :
      (p : Saved) (w : World) (s : KeyturnerState)
      → get_pairing w.app.storage ≡ some p
      → p.data'.auth_id < 4294967296
      → w.app.conn ≡ none
      → (c : Present p w s) → Told p w s (get_state bo w)
  unfolding get_state
  get_state-Told p w s paired bound free c =
      let w1 : World = record w {
        app = reached c.meeting p.addr w.app;
        moments = c.later;
        scans = drop 1 w.scans;
      } in
      let connected =
        connect-Reached c.meeting p c.later w free paired c.scanning c.others c.there in
      let idle : IsIdle (start_link w1 w1.app.usdio) = record {
        kept = subscribed-IsTransport c.meeting;
        empty = refl;
        accepting = c.accepting;
      } in
      let told = read_state-Told p w w1 s c bound idle refl refl in
      subst
        (λ o.
          Told p w s (when_paired o w (λ q. when_connected (connect false w) (read_state bo q))))
        (sym paired)
        (subst (λ r. Told p w s (when_connected r (read_state bo p))) (sym connected) told)

  -- The round of the poller behind the answer of `nuki_app_get_state`.
  abbrev finished : Result KeyturnerState × World → ℕ × World
  finished (r, w') = let (next, a) = on_polled r w'.app in (next, record w' { app = a })

  module _ (psa : Psa) where
    -- The poll sent one message, and behind any callbacks, without another operation, a STATE request is answered
    -- from the cache by the lock's report at the age of the time that they brought.
    pub record Refreshed (f : RxFrame) (es : List Callback) (p : Saved) (w : World)
        (s : KeyturnerState) (out : ℕ × World) : Type 0 where
      pub next : out.0 ≡ 900
      pub retries : out.1.app.state_poll_retries ≡ 0
      pub question : List ℕ
      pub sent : out.1.sent ≡ w.sent ++ question ∷ []
      pub request :
          IsMessage bo p.data'.shared_key p.data'.auth_id cmd_request_data
            (put_le16 cmd_keyturner_states)
            question
      pub served :
          dispatch_frame (bridge_api bo psa) f (later es out.1)
          ≡ (send_state 3 0 (ok (s, elapsed es / 1000 % 2 ^ 32)), later es out.1)

    served_aged :
        (s : KeyturnerState) (w' : World) (f : RxFrame) (es : List Callback)
        → f.cmd ≡ 3
        → let w2 : World = later es (record w' { app = set_retries 0 (put_cache s w'.app) }) in
          dispatch_frame (bridge_api bo psa) f w2
          ≡ (send_state 3 0 (ok (s, elapsed es / 1000 % 2 ^ 32)), w2)
    unfolding handle_state rc_of
    served_aged s w' f es e =
        let a = set_retries 0 (put_cache s w'.app) in
        let w2 : World = later es (record w' { app = a }) in
        at_state (bridge_api bo psa) f w2 e
        ∙ ap (λ r. (send_state 3 (rc_of r) r, w2))
            (aged s w'.app.uptime_ms (elapsed es) w2.app
              (afterwards-SameCache a es a (refl, refl, refl)) (afterwards-uptime_ms es a))

    finished-Refreshed :
        (f : RxFrame) (es : List Callback) (p : Saved) (w : World) (s : KeyturnerState)
        (out : Result KeyturnerState × World)
        → f.cmd ≡ 3
        → Told p w s out
        → Refreshed f es p w s (finished out)
    unfolding on_polled
    finished-Refreshed f es p w s (r, w') e t =
        subst (λ x. Refreshed f es p w s (finished (x, w'))) (sym t.success)
          (record {
            next = refl;
            retries = refl;
            question = t.question;
            sent = t.sent;
            request = t.request;
            served = served_aged s w' f es e;
          })

    -- The polling thread refreshes the cache while the lock is in reach. The bridge is paired, with an
    -- authorization id of 32 bits, and not connected; the stack refuses nothing; after other devices the paired
    -- lock advertises, accepts the connection and offers the characteristic, and answers by a report of its
    -- state, sealed under the stored key. Then one round sends the lock one message, a request for its state
    -- under that key, and asks to sleep 900 seconds with no retry counted. If then any callbacks of the stack and
    -- of the clock come, but no other poll and no operation, a STATE request on the serial line is answered by
    -- the code 0, the lock's report, and as its age the whole seconds that the clock brought meanwhile, modulo
    -- 2^32, and changes nothing.
    pub poll-Refreshed :
        (f : RxFrame) (es : List Callback) (p : Saved) (w : World) (s : KeyturnerState)
        → f.cmd ≡ 3
        → get_pairing w.app.storage ≡ some p
        → p.data'.auth_id < 4294967296
        → w.app.conn ≡ none
        → Present p w s
        → Refreshed f es p w s (poll bo w)
    unfolding poll is_paired
    poll-Refreshed f es p w s e paired bound free c =
        subst
          (λ o. Refreshed f es p w s (if is_some o then finished (get_state bo w) else (900, w)))
          (sym paired)
          (finished-Refreshed f es p w s (get_state bo w) e
            (get_state-Told p w s paired bound free c))
