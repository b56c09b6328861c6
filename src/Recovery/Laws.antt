-- ===== src/Recovery/Laws.antt =====
-- When the recovery thread reboots.
use zephyr_secure_supervisor.Base.{
  ℕ, ◌+◌, ◌-◌, ◌≡◌, ◌≢◌, ◌≤◌, ◌<◌, ◌↔◌, ◌⊎◌, inl, inr, refl, Bool, true, false, not, ltb, ◌==◌,
  none, some, bit_and, bit_or, ◌<<◌, arith, all_below, all_below_sound, ◌&&◌, ◌||◌, dec_lt,
}
use zephyr_secure_supervisor.Recovery.Thread.{
  Reason, health_fault, manual_trigger, safe_mode_timeout, watchdog_init_fail, Recovery, waits,
  reboots, recovery_request, schedule_safe_mode_reboot, until_deadline, begin_round, has_reason,
  handle_events, int32_max, bit_of, reason_number,
}

-- After a reboot is scheduled with a delay other than 0, a round reboots exactly from the deadline
-- on. Before it the round waits, for at least a millisecond, not past the deadline and no longer than
-- INT32_MAX.
pub begin_round-schedule :
    (set_at delay now : ℕ) (s : Recovery)
    → delay ≢ 0
    → let turn = begin_round now (schedule_safe_mode_reboot set_at delay s) in
      ((turn ≡ reboots) ↔ (set_at + delay ≤ now))
      × ((turn ≡ reboots)
          ⊎ ((w : ℕ) × (turn ≡ waits (some w))
              × (0 < w)
              × (now + w ≤ set_at + delay)
              × (w ≤ int32_max)))
unfolding begin_round schedule_safe_mode_reboot until_deadline
begin_round-schedule set_at delay now s pos = elim (dec_lt now (set_at + delay)) [
  | no late ↦ (ground arith, inl (ground arith))
  | yes early ↦ elim (dec_lt int32_max (set_at + delay - now)) [
    | yes long ↦
        (ground arith, inr (int32_max, ground arith, ground arith, ground arith, ground arith))
    | no short ↦ (
      ground arith,
      inr (set_at + delay - now, ground arith, ground arith, ground arith, ground arith),
    )
  ]
]

-- A delay of 0 cancels: the round waits for ever.
pub begin_round-cancel :
    (set_at now : ℕ) (s : Recovery)
    → begin_round now (schedule_safe_mode_reboot set_at 0 s) ≡ waits none
unfolding begin_round schedule_safe_mode_reboot until_deadline
begin_round-cancel set_at now s = ground arith

abbrev agree : Bool → Bool → Bool
agree true b = b
agree false b = not b

-- The four bits of the mask that the wait is for.
abbrev bits_agree : ℕ → Bool
bits_agree e =
    let b0 = bit_and e 1 == 0 in
    let b1 = bit_and e 2 == 0 in
    let b2 = bit_and e 4 == 0 in
    let b3 = bit_and e 8 == 0 in
    (bit_and e 0 == 0)
    && agree (bit_and e 3 == 0) (b0 && b1)
    && agree (bit_and e 7 == 0) (b0 && b1 && b2)
    && agree (e == 0) (b0 && b1 && b2 && b3)

bits_agree_table : all_below 16 bits_agree ≡ true
unfolding all_below
bits_agree_table = refl

-- Events within the mask that is waited for end the round in a reboot for a reason exactly when
-- its bit is the lowest of those set.
pub handle_events_iff :
    (reason : Reason) (events : ℕ)
    → events < 16
    → (handle_events events ≡ some reason)
      ↔ ((has_reason reason events ≡ true) × (bit_and events (bit_of reason - 1) ≡ 0))
unfolding handle_events
handle_events_iff health_fault e h =
    let table = all_below_sound 16 bits_agree e bits_agree_table h in ground (arith, table)
handle_events_iff manual_trigger e h =
    let table = all_below_sound 16 bits_agree e bits_agree_table h in ground (arith, table)
handle_events_iff safe_mode_timeout e h =
    let table = all_below_sound 16 bits_agree e bits_agree_table h in ground (arith, table)
handle_events_iff watchdog_init_fail e h =
    let table = all_below_sound 16 bits_agree e bits_agree_table h in ground (arith, table)

-- A round ends without a reboot exactly when the wait returns no event.
pub handle_events-none : (events : ℕ) → events < 16 → (handle_events events ≡ none) ↔ (events ≡ 0)
unfolding handle_events
handle_events-none e h =
    let table = all_below_sound 16 bits_agree e bits_agree_table h in ground (arith, table)

reason_below : (r : Reason) → reason_number r < 4
reason_below health_fault = omega arith
reason_below manual_trigger = omega arith
reason_below safe_mode_timeout = omega arith
reason_below watchdog_init_fail = omega arith

abbrev request_agrees : Reason → ℕ → ℕ → Bool
request_agrees other number e =
    let t = bit_or e (1 << number) in
    ltb t 16 && agree (has_reason other t) (has_reason other e || (number == reason_number other))

abbrev request_row : Reason → ℕ → Bool
request_row other number = all_below 16 (request_agrees other number)

request_table : (other : Reason) → all_below 4 (request_row other) ≡ true
unfolding all_below
request_table health_fault = refl
request_table manual_trigger = refl
request_table safe_mode_timeout = refl
request_table watchdog_init_fail = refl

-- Where only bits of valid reasons are posted, a request for a valid reason adds its bit and no
-- other, and any other request changes no bit. Neither touches the deadline.
pub recovery_request-bits :
    (number : ℕ) (other : Reason) (s : Recovery)
    → s.events < 16
    → let t = recovery_request number s in
      (t.events < 16)
      × (t.deadline ≡ s.deadline)
      × ((has_reason other t.events ≡ true)
          ↔ ((has_reason other s.events ≡ true) ⊎ (number ≡ reason_number other)))
unfolding recovery_request
recovery_request-bits number other s h = elim (dec_lt number 4) [
  | yes lt ↦
      let row = all_below_sound 4 (request_row other) number (request_table other) lt in
      let table = all_below_sound 16 (request_agrees other number) s.events row h in
      ground (arith, table)
  | no ge ↦ ground (arith, reason_below other)
]
