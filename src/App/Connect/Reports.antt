-- ===== src/App/Connect/Reports.antt =====
-- src/nuki_app.c: what an attempt to connect reports.
use nuki_nrf52_bridge.Base.{
  ◌≡◌, refl, sym, ap, subst, ◌∙◌, if_elim, ◌⊎◌, inl, inr, Bool, true, false, some, List, [], ◌∷◌,
  ◌++◌, Result, ok, err, etimedout, arith,
}
use nuki_nrf52_bridge.Transport as T
use nuki_nrf52_bridge.App.{App}
use mathlib.Core.Bool.{true≢false}
use nuki_nrf52_bridge.App.Connect.{
  Callback, usdio_discovered, callback, Moment, happens, turn, expired, await_ready, on_awaited,
  attempt, give_up, connect_to_lock,
}

-- Nothing of the report of an attempt is changed.
abbrev pub SameReport : App → App → Type 0
SameReport a b =
    (b.connecting ≡ a.connecting) × (b.ready_sem ≡ a.ready_sem) × (b.connect_err ≡ a.connect_err)

callback_settled : (e : Callback) (a : App) → a.connecting ≡ false → SameReport a (callback e a)
unfolding callback
callback_settled e a h = ground arith

-- The discovery that an attempt is for.
abbrev pub is_discovery : Callback → Bool
is_discovery (usdio_discovered c (some handle) (ok _)) = true
is_discovery _ = false

abbrev pub IsPending : App → Type 0
IsPending a = (a.connecting ≡ true) × (a.ready_sem ≡ false)

-- A callback leaves the attempt pending or reports it.
callback-IsPending :
    (e : Callback) (a : App)
    → IsPending a
    → IsPending (callback e a)
      ⊎ (((callback e a).connecting ≡ false) × ((callback e a).ready_sem ≡ true))
unfolding callback
callback-IsPending e a h = ground arith

-- It reports success only of the discovery.
pub callback_success :
    (e : Callback) (a : App)
    → a.connecting ≡ true
    → (callback e a).connecting ≡ false
    → (callback e a).connect_err ≡ ok tt
    → is_discovery e ≡ true
unfolding callback T.init
callback_success e a h r s = ground arith

-- The callbacks of a schedule.
unfoldable pub meanwhile : List Moment → App → App
meanwhile [] a = a
meanwhile (happens e ∷ ms) a = meanwhile ms (callback e a)
meanwhile (turn ∷ ms) a = meanwhile ms a
meanwhile (expired ∷ ms) a = meanwhile ms a

meanwhile_settled :
    (ms : List Moment) (a : App) → a.connecting ≡ false → SameReport a (meanwhile ms a)
unfolding meanwhile
meanwhile_settled [] a h = (refl, refl, refl)
meanwhile_settled (happens e ∷ ms) a h =
    let (c, r, x) = callback_settled e a h in
    let (c', r', x') = meanwhile_settled ms (callback e a) (c ∙ h) in (c' ∙ c, r' ∙ r, x' ∙ x)
meanwhile_settled (turn ∷ ms) a h = meanwhile_settled ms a h
meanwhile_settled (expired ∷ ms) a h = meanwhile_settled ms a h

-- One callback of a schedule reports: the attempt is pending before it, and its report is never replaced.
pub record Reported (ms : List Moment) (a : App) : Type 0 where
  pub before : List Moment
  pub reporter : Callback
  pub after : List Moment
  pub split : ms ≡ before ++ happens reporter ∷ after
  pub pending : IsPending (meanwhile before a)
  pub settled : (callback reporter (meanwhile before a)).connecting ≡ false
  pub given : (meanwhile ms a).ready_sem ≡ true
  pub same : (meanwhile ms a).connect_err ≡ (callback reporter (meanwhile before a)).connect_err

later_report :
    (m : Moment) (ms : List Moment) (a b : App)
    → ((ms : List Moment) → meanwhile (m ∷ ms) a ≡ meanwhile ms b)
    → Reported ms b
    → Reported (m ∷ ms) a
later_report m ms a b step r = record {
  before = m ∷ r.before;
  reporter = r.reporter;
  after = r.after;
  split = ap (λ l. m ∷ l) r.split;
  pending = subst IsPending (sym (step r.before)) r.pending;
  settled = ap (λ c. (callback r.reporter c).connecting) (step r.before) ∙ r.settled;
  given = ap (λ c. c.ready_sem) (step ms) ∙ r.given;
  same =
      ap (λ c. c.connect_err) (step ms)
      ∙ r.same
      ∙ ap (λ c. (callback r.reporter c).connect_err) (sym (step r.before));
}

-- The first report of a schedule, if there is one.
pub meanwhile-Reported :
    (ms : List Moment) (a : App) → IsPending a → IsPending (meanwhile ms a) ⊎ Reported ms a
unfolding meanwhile
meanwhile-Reported [] a h = inl h
meanwhile-Reported (happens e ∷ ms) a h = elim (callback-IsPending e a h) [
  | inl p ↦ elim (meanwhile-Reported ms (callback e a) p) [
    | inl q ↦ inl q
    | inr r ↦ inr (later_report (happens e) ms a (callback e a) (λ _. refl) r)
  ]
  | inr d ↦
      let (c, g, x) = meanwhile_settled ms (callback e a) d.0 in
      inr (record {
        before = [];
        reporter = e;
        after = ms;
        split = refl;
        pending = h;
        settled = d.0;
        given = g ∙ d.1;
        same = x;
      })
]
meanwhile-Reported (turn ∷ ms) a h = elim (meanwhile-Reported ms a h) [
  | inl q ↦ inl q
  | inr r ↦ inr (later_report turn ms a a (λ _. refl) r)
]
meanwhile-Reported (expired ∷ ms) a h = elim (meanwhile-Reported ms a h) [
  | inl q ↦ inl q
  | inr r ↦ inr (later_report expired ms a a (λ _. refl) r)
]

abbrev pub taken : App → App
taken a = record a { ready_sem = false }

-- The part of a schedule that a wait sees.
pub record Seen (ms : List Moment) (a : App) (out : Bool × App × List Moment) : Type 0 where
  pub seen : List Moment
  pub split : ms ≡ seen ++ out.2
  pub state : out.1 ≡ taken (meanwhile seen a)
  pub flag : out.0 ≡ (meanwhile seen a).ready_sem

see_one :
    (m : Moment) (ms : List Moment) (a b : App) (out : Bool × App × List Moment)
    → ((ms : List Moment) → meanwhile (m ∷ ms) a ≡ meanwhile ms b)
    → Seen ms b out
    → Seen (m ∷ ms) a out
see_one m ms a b out step s = record {
  seen = m ∷ s.seen;
  split = ap (λ l. m ∷ l) s.split;
  state = s.state ∙ ap taken (sym (step s.seen));
  flag = s.flag ∙ ap (λ c. c.ready_sem) (sym (step s.seen));
}

pub await_ready-Seen : (ms : List Moment) (a : App) → Seen ms a (await_ready ms a)
unfolding await_ready meanwhile
await_ready-Seen [] a = record { seen = []; split = refl; state = refl; flag = refl }
await_ready-Seen (happens e ∷ ms) a =
    see_one (happens e) ms a (callback e a) (await_ready ms (callback e a)) (λ _. refl)
      (await_ready-Seen ms (callback e a))
await_ready-Seen (turn ∷ ms) a =
    if_elim (Seen (turn ∷ ms) a) a.ready_sem (true, taken a, ms) (await_ready ms a)
      (λ y. record { seen = turn ∷ []; split = refl; state = refl; flag = sym y })
      (λ _. see_one turn ms a a (await_ready ms a) (λ _. refl) (await_ready-Seen ms a))
await_ready-Seen (expired ∷ ms) a = record {
  seen = expired ∷ [];
  split = refl;
  state = refl;
  flag = refl;
}

untaken : (a : App) → a.ready_sem ≡ false → taken a ≡ a
untaken a h = ground arith

-- The start of an attempt.
abbrev pub started : Bool → App → App
started need_gdio a = record (attempt need_gdio a) { scan_timer = true }

-- What an attempt comes to: either the time is over with nothing reported, and the application gives up, or
-- the answer is the report.
pub record Attempted (need_gdio : Bool) (ms : List Moment) (a : App)
    (out : Result (Unit {0}) × App × List Moment) : Type 0 where
  pub seen : List Moment
  pub split : ms ≡ seen ++ out.2
  pub outcome :
      (IsPending (meanwhile seen (started need_gdio a))
        × (out.0 ≡ err etimedout)
        × (out.1 ≡ give_up (meanwhile seen (started need_gdio a))))
      ⊎ ((r : Reported seen (started need_gdio a)) × (out.0
            ≡ (callback r.reporter (meanwhile r.before (started need_gdio a))).connect_err)
          × (out.1 ≡ taken (meanwhile seen (started need_gdio a))))

pub await-Attempted :
    (need_gdio : Bool) (ms : List Moment) (a : App) (out : Bool × App × List Moment)
    → Seen ms (started need_gdio a) out
    → Attempted need_gdio ms a (on_awaited out)
await-Attempted need_gdio ms a (true, b, rest) s = record {
  seen = s.seen;
  split = s.split;
  outcome = elim (meanwhile-Reported s.seen (started need_gdio a) (refl, refl)) [
    | inl p ↦ absurd (true≢false (s.flag ∙ p.1))
    | inr r ↦ inr (r, ap (λ c. c.connect_err) s.state ∙ r.same, s.state)
  ];
}
await-Attempted need_gdio ms a (false, b, rest) s = record {
  seen = s.seen;
  split = s.split;
  outcome = elim (meanwhile-Reported s.seen (started need_gdio a) (refl, refl)) [
    | inl p ↦
        inl (p, refl, ap give_up (s.state ∙ untaken (meanwhile s.seen (started need_gdio a)) p.1))
    | inr r ↦ absurd (true≢false (sym r.given ∙ sym s.flag))
  ];
}

-- Whatever the callbacks and the turns of the thread: an attempt to connect, once the scan has started, either
-- times out with no callback having reported anything, and then stops the scan and hangs up, or it answers
-- what the first callback to report said, whatever reports come after it.
pub connect_to_lock-Attempted :
    (need_gdio : Bool) (ms : List Moment) (a : App)
    → Attempted need_gdio ms a (connect_to_lock need_gdio (ok tt) ms a)
unfolding connect_to_lock
connect_to_lock-Attempted need_gdio ms a =
    await-Attempted need_gdio ms a (await_ready ms (started need_gdio a))
      (await_ready-Seen ms (started need_gdio a))
