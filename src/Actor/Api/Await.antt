-- ===== src/Actor/Api/Await.antt =====
-- How long a call waits for its reply (AwaitStageResult and forwardRequest of actor/api.go). Times
-- and durations are in nanoseconds; the floating-point minimum of two durations is exact below 2 ^ 53
-- nanoseconds, and the limit of one hour is far below. `timeout_ms` is TimeoutMs, an int32, with 0
-- for a negative one, which the code treats alike.
use completer.Prelude.{
  ℕ, ◌+◌, ◌-◌, ◌*◌, ◌^◌, ◌≤◌, ◌<◌, ◌≡◌, Option, none, some, leb, ltb, if◌then◌else◌, arith,
}

-- A signed duration.
pub data Duration : Type 0 where
  ahead overdue : ℕ → Duration

-- time.Until
unfoldable pub until : (deadline now : ℕ) → Duration
until deadline now = if leb now deadline then ahead (deadline - now) else overdue (now - deadline)

abbrev pub min : ℕ → ℕ → ℕ
min a b = if leb a b then a else b

unfoldable pub min_duration : Duration → Duration → Duration
min_duration (ahead a) (ahead b) = ahead (min a b)
min_duration (ahead a) (overdue b) = overdue b
min_duration (overdue a) (ahead b) = overdue a
min_duration (overdue a) (overdue b) = overdue (if leb a b then b else a)

abbrev pub after : ℕ → Duration → ℕ
after now (ahead a) = now + a
after now (overdue a) = now - a

-- context.WithTimeout: the deadline of the new context, which is never after the old one's.
unfoldable pub with_timeout : (now : ℕ) → Duration → (deadline : Option ℕ) → ℕ
with_timeout now t none = after now t
with_timeout now t (some d) = min d (after now t)

abbrev pub max_timeout_ever : ℕ
max_timeout_ever = 3600 * 10 ^ 9

abbrev pub default_request_timeout : ℕ
default_request_timeout = 5 * 10 ^ 9

unfoldable pub await_timeout : (now timeout_ms : ℕ) (deadline : Option ℕ) → Duration
unfolding until min_duration
await_timeout now timeout_ms none = ahead (min (timeout_ms * 10 ^ 6) max_timeout_ever)
await_timeout now timeout_ms (some d) =
    min_duration (until d now) (ahead (min (timeout_ms * 10 ^ 6) max_timeout_ever))

-- The deadline of the context that AwaitStageResult forwards its request with. `now` is the clock at
-- time.Until, and `later` at context.WithTimeout.
unfoldable pub await_deadline : (now later timeout_ms : ℕ) (deadline : Option ℕ) → Option ℕ
unfolding await_timeout with_timeout
await_deadline now later timeout_ms deadline =
    if ltb 0 timeout_ms
    then some (with_timeout later (await_timeout now timeout_ms deadline) deadline)
    else deadline

-- The time for which forwardRequest waits for the future.
unfoldable pub request_timeout : (now : ℕ) (deadline : Option ℕ) → Duration
unfolding until
request_timeout now none = ahead default_request_timeout
request_timeout now (some d) = until d now

-- The earlier of a deadline, if any, and a time.
abbrev pub earlier : Option ℕ → ℕ → ℕ
earlier none t = t
earlier (some d) t = min d t

-- A call that awaits a stage with a positive timeout gets as its deadline the earlier of the
-- caller's own, if there is one, and the end of the timeout, which is cut off at one hour, whatever
-- time passes between the readings of the clock.
pub await_deadline-earlier :
    (now later timeout_ms : ℕ) (deadline : Option ℕ)
    → now ≤ later
    → 0 < timeout_ms
    → await_deadline now later timeout_ms deadline
      ≡ some (earlier deadline (later + min (timeout_ms * 10 ^ 6) max_timeout_ever))
unfolding await_deadline await_timeout with_timeout min_duration until
await_deadline-earlier now later timeout_ms none h p = ground arith
await_deadline-earlier now later timeout_ms (some d) h p = ground arith

abbrev pub remaining : Duration → ℕ
remaining (ahead a) = a
remaining (overdue a) = 0

remaining-until : (deadline at : ℕ) → remaining (until deadline at) ≡ deadline - at
unfolding until
remaining-until deadline at = ground arith

earlier-le : (deadline : Option ℕ) (t : ℕ) → earlier deadline t ≤ t
earlier-le none t = omega arith
earlier-le (some d) t = ground arith

-- The request of such a call is given up after at most its timeout, cut off at one hour.
pub request_timeout-await_deadline :
    (now later at timeout_ms : ℕ) (deadline : Option ℕ)
    → now ≤ later
    → later ≤ at
    → 0 < timeout_ms
    → remaining (request_timeout at (await_deadline now later timeout_ms deadline))
      ≤ min (timeout_ms * 10 ^ 6) max_timeout_ever
unfolding request_timeout
request_timeout-await_deadline now later at timeout_ms deadline h l p =
    let cut = min (timeout_ms * 10 ^ 6) max_timeout_ever in
    rw
      (
        await_deadline-earlier now later timeout_ms deadline h p,
        remaining-until (earlier deadline (later + cut)) at,
      )
      omega (arith, l, earlier-le deadline (later + cut))
