-- ===== src/RateLimit/Window.antt =====
-- The requests of one key in a window.
use stair_platform.Prelude.{
  ℕ, suc, ◌+◌, ◌-◌, ◌≤◌, ◌<◌, String, ◌≡◌, refl, ap, inl, inr, Bool, true, false, ◌&&◌, List, [],
  ◌∷◌, ◌++◌, arith, str_eq, eq_iff, ltb, leb, if◌then◌else◌, Bool-cases, length, lookup,
  lookup-insert,
}
use stair_platform.RateLimit.{
  RateLimiter, new_rate_limiter, times_of, valid_requests, allow_with_info,
}

-- A call: its key and the clock's reading.
abbrev pub Call : Type 0
Call = String × ℕ

-- The calls of `key` that a limiter allows, in order, and the limiter that they leave.
unfoldable pub run : String → List Call → RateLimiter → List ℕ → RateLimiter × List ℕ
run key [] rl log = (rl, log)
run key ((k, now) ∷ calls) rl log =
    let (rl', info) = allow_with_info k now rl in
    run key calls rl' (if str_eq k key && info.allowed then log ++ now ∷ [] else log)

-- How many of `ts` lie in the window that ends at `now`.
unfoldable pub in_window : ℕ → ℕ → List ℕ → ℕ
in_window window now [] = 0
in_window window now (t ∷ ts) =
    if ltb now (t + window) then suc (in_window window now ts) else in_window window now ts

-- The clock does not go back.
abbrev pub Ordered : ℕ → List Call → Type 0
Ordered last [] = Unit
Ordered last ((k, now) ∷ calls) = (last ≤ now) × Ordered now calls

in_window-append :
    (w now : ℕ) (xs ys : List ℕ)
    → in_window w now (xs ++ ys) ≡ in_window w now xs + in_window w now ys
unfolding in_window
in_window-append w now [] ys = omega arith
in_window-append w now (x ∷ xs) ys = ground (arith, in_window-append w now xs ys)

length-valid_requests :
    (w now : ℕ) (ts : List ℕ) → length (valid_requests w now ts) ≡ in_window w now ts
unfolding in_window valid_requests
length-valid_requests w now [] = refl
length-valid_requests w now (t ∷ ts) = ground (arith, length-valid_requests w now ts)

-- What has left the window at `now` is in no later one.
in_window-valid_requests :
    (w now later : ℕ) (ts : List ℕ)
    → now ≤ later
    → in_window w later (valid_requests w now ts) ≡ in_window w later ts
unfolding in_window valid_requests
in_window-valid_requests w now later [] h = refl
in_window-valid_requests w now later (t ∷ ts) h =
    ground (arith, in_window-valid_requests w now later ts)

in_window_mono :
    (w now later : ℕ) (ts : List ℕ) → now ≤ later → in_window w later ts ≤ in_window w now ts
unfolding in_window
in_window_mono w now later [] h = omega arith
in_window_mono w now later (t ∷ ts) h = ground (arith, in_window_mono w now later ts)

-- The limiter remembers of `key` what counts in any window from `last` on, and no such window is
-- overfull.
record Inv (key : String) (limit window last : ℕ) (rl : RateLimiter) (log : List ℕ) : Type 0 where
  same_limit : rl.limit ≡ limit
  same_window : rl.window ≡ window
  remembers :
      (later : ℕ)
      → last ≤ later
      → in_window window later (times_of (lookup key rl.requests)) ≡ in_window window later log
  bounded : in_window window last log ≤ limit

leb-false : (a b : ℕ) → leb a b ≡ false → b < a
leb-false a b h = ground arith

in_window-one : (w later now : ℕ) → in_window w later (now ∷ []) ≤ 1
unfolding in_window
in_window-one w later now = ground arith

module _ (key : String) (limit window last : ℕ) (now : ℕ) (k : String) (rl : RateLimiter)
    (log : List ℕ) (v : Inv key limit window last rl log) (le : last ≤ now) where
  abbrev kept : List ℕ
  kept = valid_requests rl.window now (times_of (lookup k rl.requests))

  blocked_step :
      leb (rl.limit - length kept) 0 ≡ true
      → Inv key limit window now (allow_with_info k now rl).0 log
        × ((allow_with_info k now rl).1.allowed ≡ false)
  unfolding allow_with_info
  blocked_step h =
      rw (h, allow_with_info)
        (
          record {
            same_limit = v.same_limit;
            same_window = v.same_window;
            remembers = λ later m. v.remembers later (omega arith);
            bounded = omega (arith, in_window_mono window last now log le, v.bounded);
          },
          refl,
        )

  allowed_step_ne :
      leb (rl.limit - length kept) 0 ≡ false
      → str_eq k key ≡ false
      → Inv key limit window now (allow_with_info k now rl).0 log
  unfolding allow_with_info
  allowed_step_ne h ne =
      rw (h, allow_with_info)
        (record {
          same_limit = v.same_limit;
          same_window = v.same_window;
          remembers = λ later m. rw (lookup-insert, ne) (v.remembers later (omega arith));
          bounded = omega (arith, in_window_mono window last now log le, v.bounded);
        })

  kept_count :
      k ≡ key → (later : ℕ) → now ≤ later → in_window window later kept ≡ in_window window later log
  kept_count same later m =
      rw
        (
          v.same_window,
          same,
          in_window-valid_requests window now later (times_of (lookup key rl.requests)) m,
        )
        (v.remembers later (omega arith))

  kept_length : k ≡ key → length kept ≡ in_window window now log
  kept_length same =
      rw (v.same_window, same, length-valid_requests window now (times_of (lookup key rl.requests)))
        (v.remembers now le)

  allowed_step_eq :
      leb (rl.limit - length kept) 0 ≡ false
      → str_eq k key ≡ true
      → Inv key limit window now (allow_with_info k now rl).0 (log ++ now ∷ [])
  unfolding allow_with_info
  allowed_step_eq h e =
      let same : k ≡ key = (eq_iff k key).0 e in
      rw (h, allow_with_info)
        (record {
          same_limit = v.same_limit;
          same_window = v.same_window;
          remembers = λ later m.
              rw (lookup-insert, e, in_window-append, in_window-append)
                (ap (λ (t : ℕ). t + in_window window later (now ∷ [])) (kept_count same later m));
          bounded =
              rw in_window-append
                (omega (arith, in_window-one window now now, kept_length same, leb-false _ _ h));
        })

-- The reading of the clock at the last call.
abbrev pub last_reading : ℕ → List Call → ℕ
last_reading last [] = last
last_reading last ((k, now) ∷ calls) = last_reading now calls

abbrev logged : String → String → Bool → ℕ → List ℕ → List ℕ
logged k key allowed now log = if str_eq k key && allowed then log ++ now ∷ [] else log

logged_refused :
    (k key : String) (a : Bool) (now : ℕ) (log : List ℕ) → a ≡ false → logged k key a now log ≡ log
logged_refused k key a now log h = ground arith

logged_other :
    (k key : String) (a : Bool) (now : ℕ) (log : List ℕ)
    → str_eq k key ≡ false
    → logged k key a now log ≡ log
logged_other k key a now log h = ground arith

logged_same :
    (k key : String) (a : Bool) (now : ℕ) (log : List ℕ)
    → str_eq k key ≡ true
    → a ≡ true
    → logged k key a now log ≡ log ++ now ∷ []
logged_same k key a now log h e = ground arith

allowed_flag :
    (now : ℕ) (k : String) (rl : RateLimiter)
    → leb (rl.limit - length (valid_requests rl.window now (times_of (lookup k rl.requests)))) 0
      ≡ false
    → (allow_with_info k now rl).1.allowed ≡ true
unfolding allow_with_info
allowed_flag now k rl h = rw (h, allow_with_info)

allow-Inv :
    (key : String) (limit window last now : ℕ) (k : String) (rl : RateLimiter) (log : List ℕ)
    → Inv key limit window last rl log
    → last ≤ now
    → Inv key limit window now
        (allow_with_info k now rl).0
        (logged k key (allow_with_info k now rl).1.allowed now log)
allow-Inv key limit window last now k rl log v le =
    elim (Bool-cases (
      leb (rl.limit - length (valid_requests rl.window now (times_of (lookup k rl.requests)))) 0)) [
        | inl h ↦
            let b = blocked_step key limit window last now k rl log v le h in
            rw (logged_refused k key _ now log b.1) b.0
        | inr h ↦ elim (Bool-cases (str_eq k key)) [
          | inl e ↦
              rw (logged_same k key _ now log e (allowed_flag now k rl h))
                (allowed_step_eq key limit window last now k rl log v le h e)
          | inr n ↦
              rw (logged_other k key _ now log n)
                (allowed_step_ne key limit window last now k rl log v le h n)
        ]
      ]

calls-Inv :
    (key : String) (limit window last : ℕ) (calls : List Call) (rl : RateLimiter) (log : List ℕ)
    → Inv key limit window last rl log
    → Ordered last calls
    → let (rl', log') = run key calls rl log in
      Inv key limit window (last_reading last calls) rl' log'
unfolding run
calls-Inv key limit window last [] rl log v o = v
calls-Inv key limit window last ((k, now) ∷ calls) rl log v o =
    calls-Inv key limit window now calls (allow_with_info k now rl).0
      (logged k key (allow_with_info k now rl).1.allowed now log)
      (allow-Inv key limit window last now k rl log v o.0) o.1

-- Whatever keys call a new limiter, and as long as the clock does not go back, the requests of any
-- one key that it allowed in the window that ends at the last call, or later, are no more than the
-- limit. (For a window that ends at an earlier call, take the calls up to that one.)
pub allow_with_info-bounded :
    (key : String) (limit window : ℕ) (calls : List Call) (later : ℕ)
    → Ordered 0 calls
    → last_reading 0 calls ≤ later
    → in_window window later (run key calls (new_rate_limiter limit window) []).1 ≤ limit
unfolding new_rate_limiter lookup in_window
allow_with_info-bounded key limit window calls later o le =
    let start : Inv key limit window 0 (new_rate_limiter limit window) [] = record {
      same_limit = refl;
      same_window = refl;
      remembers = λ l m. refl;
      bounded = omega arith;
    } in
    omega (
      arith,
      in_window_mono window (last_reading 0 calls) later
          (run key calls (new_rate_limiter limit window) []).1 le,
      (calls-Inv key limit window 0 calls (new_rate_limiter limit window) [] start o).bounded,
    )
