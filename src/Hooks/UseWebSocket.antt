-- ===== src/Hooks/UseWebSocket.antt =====
-- apps/web/src/hooks/useWebSocket.ts: the socket and its timer as counts, and the events that the
-- browser delivers.
use Prim.Native.Nat.{ℕ, ◌+◌, ◌-◌, ◌≤◌, ◌<◌}
use Prim.Native.String.{String, ◌++◌}
use mathlib.Core.Path.{◌≡◌, refl, ◌∙◌}
use mathlib.Core.Bool.{Bool, true, false}
use mathlib.Core.Logic.{inl, inr}
use native.Mathlib.Omega.{arith}
use statora.Prelude.Tests.{leb, leb→le, if◌then◌else◌, Bool-cases}
use statora.Prelude.Equality.{◌==◌, String_eq}

unfoldable pub ws_url : String → String → String
ws_url protocol host = (if protocol == "https:" then "wss:" else "ws:") ++ "//" ++ host ++ "/ws"

-- `sockets` counts the sockets whose `onclose` has not been called, `timers` the timers that have
-- not run; `ref_open` and `ref_pending` say whether the socket and the timer that the two refs hold
-- are among them.
pub record Hook : Type 0 where
  pub sockets : ℕ
  pub timers : ℕ
  pub ref_open : Bool
  pub ref_pending : Bool
  pub mounted : Bool

abbrev pub unused : Hook
unused = record { sockets = 0; timers = 0; ref_open = false; ref_pending = false; mounted = false }

unfoldable pub connect : Hook → Hook
connect h = record h { sockets = h.sockets + 1; ref_open = true }

-- `onclose` of the socket in the ref, or of another one
unfoldable pub on_close : Bool → Hook → Hook
on_close is_ref h = record h {
  sockets = h.sockets - 1;
  timers = h.timers + 1;
  ref_open = if is_ref then false else h.ref_open;
  ref_pending = true;
}

-- the timer in the ref runs, or another one
unfoldable pub on_timer : Bool → Hook → Hook
unfolding connect
on_timer is_ref h =
    connect
      (record h { timers = h.timers - 1; ref_pending = if is_ref then false else h.ref_pending })

-- The function that the effect returns. A socket that is closed calls its `onclose` later.
unfoldable pub clean_up : Hook → Hook
clean_up h = record h {
  timers = if h.ref_pending then h.timers - 1 else h.timers;
  ref_pending = false;
}

abbrev pub held : Bool → ℕ
held true = 1
held false = 0

-- The socket in the ref, or another one, may call `onclose`; the timer in the ref, or another one,
-- may run.
abbrev pub CanClose : Bool → Hook → Type 0
CanClose true h = h.ref_open ≡ true
CanClose false h = held h.ref_open < h.sockets

abbrev pub CanFire : Bool → Hook → Type 0
CanFire true h = h.ref_pending ≡ true
CanFire false h = held h.ref_pending < h.timers

-- the first effect
unfoldable pub mount : Hook
unfolding connect
mount = record (connect unused) { mounted = true }

-- What the browser delivers, while the component is mounted or after that.
pub data Event : Hook → Hook → Type 0 where
  closed : (h : Hook) (is_ref : Bool) → CanClose is_ref h → Event h (on_close is_ref h)
  timed : (h : Hook) (is_ref : Bool) → CanFire is_ref h → Event h (on_timer is_ref h)

-- some events one after the other
pub data Events : Hook → Hook → Type 0 where
  no_event : (h : Hook) → Events h h
  then_event : {h next last : Hook} → Events h next → Event next last → Events h last

-- while it is mounted, the effect may also run again, for another `onMessage`
pub data Reachable : Hook → Type 0 where
  start : Reachable mount
  delivered : {h next : Hook} → Reachable h → Event h next → Reachable next
  rerun : {h : Hook} → Reachable h → Reachable (connect (clean_up h))

unfoldable pub unmount : Hook → Hook
unfolding clean_up
unmount h = record (clean_up h) { mounted = false }

abbrev pub total : Hook → ℕ
total h = h.sockets + h.timers

-- what the refs hold is counted
abbrev IsCounted : Hook → Type 0
IsCounted h = (held h.ref_open ≤ h.sockets) × (held h.ref_pending ≤ h.timers)

Event-total : {h next : Hook} → IsCounted h → Event h next → total next ≡ total h
unfolding on_close on_timer connect
Event-total c (closed h true can) = ground (arith, c.0)
Event-total c (closed h false can) = ground (arith, c.0)
Event-total c (timed h true can) = ground (arith, c.1)
Event-total c (timed h false can) = ground (arith, c.1)

Event-IsCounted : {h next : Hook} → IsCounted h → Event h next → IsCounted next
unfolding on_close on_timer connect
Event-IsCounted c (closed h true can) = (omega arith, omega arith)
Event-IsCounted c (closed h false can) = (ground arith, omega arith)
Event-IsCounted c (timed h true can) = (ground arith, omega arith)
Event-IsCounted c (timed h false can) = (ground arith, ground arith)

Events-total :
    {h last : Hook} → IsCounted h → Events h last → (total last ≡ total h) × IsCounted last
Events-total c (no_event h) = (refl, c)
Events-total c (then_event es e) =
    let before = Events-total c es in
    (Event-total before.1 e ∙ before.0, Event-IsCounted before.1 e)

reachable-IsLive : {h : Hook} → Reachable h → IsCounted h × (1 ≤ total h)
unfolding mount clean_up connect
reachable-IsLive start = ((omega arith, omega arith), omega arith)
reachable-IsLive (delivered r e) =
    let before = reachable-IsLive r in
    let same = Event-total before.0 e in (Event-IsCounted before.0 e, ground arith)
reachable-IsLive (rerun {h} r) =
    let before = reachable-IsLive r in ((ground (arith, before.0.0), omega arith), omega arith)

-- As long as the component is mounted, a socket or a timer is left: the hook never gives up.
pub reachable-tries : {h : Hook} → Reachable h → 1 ≤ total h
reachable-tries r = (reachable-IsLive r).1

-- a timer that is left makes a socket
fire : (h : Hook) → 1 ≤ h.timers → (next : Hook) × Event h next × (1 ≤ next.sockets)
unfolding on_timer connect
fire h t = elim (Bool-cases h.ref_pending) [
  | inl on ↦ (on_timer true h, timed h true on, omega arith)
  | inr off ↦ (on_timer false h, timed h false (ground arith), omega arith)
]

-- If the socket of the ref is open when the component is unmounted, the hook goes on for ever: after
-- any further events a socket or a timer is left, and a socket is open or will be opened anew.
pub unmount-goes_on :
    {h last : Hook}
    → Reachable h
    → h.ref_open ≡ true
    → Events (unmount h) last
    → (1 ≤ total last) × ((later : Hook) × Events last later × (1 ≤ later.sockets))
unfolding unmount clean_up
unmount-goes_on {h} {last} r opened es =
    let live = reachable-IsLive r in
    let counted : IsCounted (unmount h) = (live.0.0, omega arith) in
    let after = Events-total counted es in
    let left : 1 ≤ total last = ground (arith, live.0.0, after.0) in
    (
      left,
      elim (Bool-cases (leb 1 last.sockets)) [
        | inl has ↦ (last, no_event last, leb→le 1 last.sockets has)
        | inr lacks ↦
            let fired = fire last (ground arith) in
            (fired.0, then_event (no_event last) fired.1, fired.2)
      ],
    )

-- If no socket is left when the component is unmounted and the timer of the ref is the only one,
-- nothing happens any more.
pub unmount-stops :
    (h : Hook) {last : Hook}
    → h.sockets ≡ 0
    → h.timers ≡ 1
    → h.ref_pending ≡ true
    → h.ref_open ≡ false
    → Events (unmount h) last
    → total last ≡ 0
unfolding unmount clean_up
unmount-stops h none_open one pending closed_ref es =
    let counted : IsCounted (unmount h) = (ground arith, omega arith) in
    let after = Events-total counted es in ground (arith, after.0)
