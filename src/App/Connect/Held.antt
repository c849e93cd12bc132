-- ===== src/App/Connect/Held.antt =====
-- src/nuki_app.c: attempts and farewells while a connection is held.
use nuki_nrf52_bridge.Base.{
  ℕ, ◌≡◌, refl, sym, ap, ◌∙◌, Bool, true, false, none, some, List, [], ◌∷◌, ◌++◌, All, Result, ok,
  err, etimedout, arith, ==_refl, subst,
}
use mathlib.Core.Bool.{true≢false}
use nuki_nrf52_bridge.App.{App, scan_start, scan_stop, disconnect, ask}
use nuki_nrf52_bridge.App.Connect.{
  Callback, device_found, scan_timeout, disconnected, time_passes, callback, Moment, happens, turn,
  expired, await_ready, await_disconnected, connect_to_lock, disconnect_from_lock, on_awaited,
  hang_up,
}

-- Advertisements, the clock, and turns of the thread.
abbrev pub is_idle : Moment → Bool
is_idle (happens (device_found addr ad stopped created)) = true
is_idle (happens (time_passes ms)) = true
is_idle turn = true
is_idle _ = false

abbrev pub IsIdle : Moment → Type 0
IsIdle m = is_idle m ≡ true

-- What idle moments leave alone.
record Same (a b : App) : Type 0 where
  conn : b.conn ≡ a.conn
  requests : b.requests ≡ a.requests
  connecting : b.connecting ≡ a.connecting
  ready_sem : b.ready_sem ≡ a.ready_sem
  disconnected_sem : b.disconnected_sem ≡ a.disconnected_sem

idle_callback :
    (e : Callback) (c : ℕ) (a : App) → IsIdle (happens e) → a.conn ≡ some c → Same a (callback e a)
unfolding callback
idle_callback e c a i h = ground arith

-- A wait that nothing has ended yet goes on through idle moments.
record Waits {ℓ} {X : Type ℓ} (wait : List Moment → App → X) (ms : List Moment) (a : App) (out : X)
    : Type ℓ where
  b : App
  same : Same a b
  there : wait ms b ≡ out

later_wait :
    {X : Type 0} (wait : List Moment → App → X) (ms : List Moment) (a a' : App) (out : X)
    → Same a a'
    → Waits wait ms a' out
    → Waits wait ms a out
later_wait wait ms a a' out s w = record {
  b = w.b;
  same = record {
    conn = w.same.conn ∙ s.conn;
    requests = w.same.requests ∙ s.requests;
    connecting = w.same.connecting ∙ s.connecting;
    ready_sem = w.same.ready_sem ∙ s.ready_sem;
    disconnected_sem = w.same.disconnected_sem ∙ s.disconnected_sem;
  };
  there = w.there;
}

Same-refl : (a : App) → Same a a
Same-refl a = record {
  conn = refl;
  requests = refl;
  connecting = refl;
  ready_sem = refl;
  disconnected_sem = refl;
}

await_ready-Waits :
    (before ms : List Moment) (c : ℕ) (a : App)
    → All IsIdle before
    → a.conn ≡ some c
    → a.ready_sem ≡ false
    → Waits await_ready ms a (await_ready (before ++ ms) a)
unfolding await_ready
await_ready-Waits [] ms c a i h r = record { b = a; same = Same-refl a; there = refl }
await_ready-Waits (happens e ∷ before) ms c a i h r =
    let s = idle_callback e c a i.0 h in
    later_wait await_ready ms a (callback e a) _ s
      (await_ready-Waits before ms c (callback e a) i.1 (s.conn ∙ h) (s.ready_sem ∙ r))
await_ready-Waits (turn ∷ before) ms c a i h r = simp r (await_ready-Waits before ms c a i.1 h r)
await_ready-Waits (expired ∷ before) ms c a i h r = absurd (true≢false (sym i.0))

await_disconnected-Waits :
    (before ms : List Moment) (c : ℕ) (a : App)
    → All IsIdle before
    → a.conn ≡ some c
    → a.disconnected_sem ≡ false
    → Waits await_disconnected ms a (await_disconnected (before ++ ms) a)
unfolding await_disconnected
await_disconnected-Waits [] ms c a i h r = record { b = a; same = Same-refl a; there = refl }
await_disconnected-Waits (happens e ∷ before) ms c a i h r =
    let s = idle_callback e c a i.0 h in
    later_wait await_disconnected ms a (callback e a) _ s (
      await_disconnected-Waits before ms c (callback e a) i.1 (s.conn ∙ h) (s.disconnected_sem ∙ r))
await_disconnected-Waits (turn ∷ before) ms c a i h r =
    simp r (await_disconnected-Waits before ms c a i.1 h r)
await_disconnected-Waits (expired ∷ before) ms c a i h r = absurd (true≢false (sym i.0))

-- The end of an attempt under a connection that is held.
pub record Held (c : ℕ) (a : App) (rest : List Moment) (out : Result (Unit {0}) × App × List Moment)
    : Type 0 where
  pub answer : out.0 ≡ err etimedout
  pub conn : out.1.conn ≡ some c
  pub requests : out.1.requests ≡ a.requests ++ scan_start ∷ [] ++ scan_stop ∷ []
  pub rest_of : out.2 ≡ rest

timed_out :
    (c : ℕ) (rest : List Moment) (b : App)
    → b.conn ≡ some c
    → b.connecting ≡ true
    → ((on_awaited (await_ready (happens scan_timeout ∷ turn ∷ rest) b)).0 ≡ err etimedout)
      × ((on_awaited (await_ready (happens scan_timeout ∷ turn ∷ rest) b)).1.conn ≡ some c)
      × ((on_awaited (await_ready (happens scan_timeout ∷ turn ∷ rest) b)).1.requests
          ≡ b.requests ++ scan_stop ∷ [])
      × ((on_awaited (await_ready (happens scan_timeout ∷ turn ∷ rest) b)).2 ≡ rest)
unfolding await_ready callback
timed_out c rest b h p = rw p (refl, h, refl, refl)

-- While a connection is held, an attempt to connect ends with ETIMEDOUT when the scan's time is over: no
-- advertisement is looked at, whichever devices advertise, nothing is asked of the stack but to start and stop
-- the scan, so the connection is held afterwards, too.
pub connect_to_lock-Held :
    (need_gdio : Bool) (before rest : List Moment) (c : ℕ) (a : App)
    → a.conn ≡ some c
    → All IsIdle before
    → Held c a rest
        (connect_to_lock need_gdio (ok tt) (before ++ (happens scan_timeout ∷ turn ∷ rest)) a)
unfolding connect_to_lock
connect_to_lock-Held need_gdio before rest c a h i =
    let w = await_ready-Waits before (happens scan_timeout ∷ turn ∷ rest) c _ i h refl in
    let (answer, conn, requests, rest_of) =
      timed_out c rest w.b (w.same.conn ∙ h) w.same.connecting in
    let out = sym w.there in
    record {
      answer = ap (λ o. (on_awaited o).0) out ∙ answer;
      conn = ap (λ o. (on_awaited o).1.conn) out ∙ conn;
      requests =
          ap (λ o. (on_awaited o).1.requests) out
          ∙ requests
          ∙ ap (λ r. r ++ scan_stop ∷ []) w.same.requests;
      rest_of = ap (λ o. (on_awaited o).2) out ∙ rest_of;
    }

-- The end of a connection.
pub record Parted (c : ℕ) (a : App) (rest : List Moment) (out : App × List Moment) : Type 0 where
  pub conn : out.0.conn ≡ none
  pub ready : (out.0.gdio_ready ≡ false) × (out.0.usdio_ready ≡ false)
  pub asked : out.0.requests ≡ a.requests ++ disconnect c ∷ []
  pub rest_of : out.1 ≡ rest

parted :
    (c : ℕ) (rest : List Moment) (a b : App)
    → b.conn ≡ some c
    → b.requests ≡ a.requests ++ disconnect c ∷ []
    → Parted c a rest (await_disconnected (happens (disconnected c) ∷ turn ∷ rest) b)
unfolding await_disconnected callback
parted c rest a b h r = record {
  conn = grind (arith, ==_refl c);
  ready = (grind (arith, ==_refl c), grind (arith, ==_refl c));
  asked = grind (arith, ==_refl c);
  rest_of = grind (arith, ==_refl c);
}

-- Leaving the lock asks the stack once to disconnect, and when the stack has done so, with nothing but
-- advertisements and time before it, no connection is held and neither service counts as ready.
pub disconnect_from_lock-Parted :
    (before rest : List Moment) (c : ℕ) (a : App)
    → a.conn ≡ some c
    → All IsIdle before
    → Parted c a rest (disconnect_from_lock (before ++ (happens (disconnected c) ∷ turn ∷ rest)) a)
unfolding disconnect_from_lock
disconnect_from_lock-Parted before rest c a h i =
    let farewell = happens (disconnected c) ∷ turn ∷ rest in
    let a0 : App = ask (disconnect c) (record a { disconnected_sem = false }) in
    let w = await_disconnected-Waits before farewell c a0 i h refl in
    subst (λ o. Parted c a rest (hang_up o (before ++ farewell) a)) (sym h)
      (subst (Parted c a rest) w.there (parted c rest a w.b (w.same.conn ∙ h) w.same.requests))
