-- ===== src/Recovery/Round.antt =====
-- A whole round of `recovery_thread` of src/recovery.c and its loop. `k_event_wait` of Zephyr is an
-- argument, from the flag `reset`, the events posted before the call and those posted during it to
-- the events that it returns.
use zephyr_secure_supervisor.Base.{
  ℕ, ◌≡◌, refl, ◌∙◌, ap, Bool, true, List, [], ◌∷◌, map, Option, none, some,
}
use zephyr_secure_supervisor.Recovery.Thread.{
  Reason, safe_mode_timeout, Recovery, reboots, waits, until_deadline, begin_round, handle_events,
}

abbrev pub EventWait : Type 0
EventWait = Bool → ℕ → ℕ → ℕ

-- What Zephyr documents: with `reset` the events posted before are cleared, and a wait that times out
-- returns 0.
abbrev pub IsResetting : EventWait → Type 0
IsResetting wait =
    ((before during : ℕ) → wait true before during ≡ wait true 0 during) × (wait true 0 0 ≡ 0)

-- The branch for the end of the safe mode clears the deadline.
unfoldable pub settle_deadline : Option Reason → Recovery → Recovery
settle_deadline (some safe_mode_timeout) s = record s { deadline = none }
settle_deadline reason s = s

-- The body of the loop at the uptime `now`, with the events `during` posted in the wait: the reason
-- of the reboot, if it ends in one, and the state.
unfoldable pub recovery_round : EventWait → ℕ → ℕ → Recovery → Option Reason × Recovery
recovery_round wait now during s = elim (begin_round now s) [
  | reboots ↦ (some safe_mode_timeout, record s { deadline = none })
  | waits timeout ↦
      let reason = handle_events (wait true s.events during) in
      (reason, settle_deadline reason (record s { events = during }))
]

-- A reboot ends the loop.
unfoldable pub up_to_reboot : Option Reason → Option Reason → Option Reason
up_to_reboot none rest = rest
up_to_reboot (some reason) rest = some reason

-- The loop over the rounds with these uptimes and events, up to the first reboot.
unfoldable pub recovery_thread : EventWait → List (ℕ × ℕ) → Recovery → Option Reason
recovery_thread wait [] s = none
recovery_thread wait ((now, during) ∷ later) s =
    let (reason, t) = recovery_round wait now during s in
    up_to_reboot reason (recovery_thread wait later t)

-- Rounds in which nothing is posted.
abbrev pub silent : List ℕ → List (ℕ × ℕ)
silent times = map (λ (now : ℕ). (now, 0)) times

module _ (wait : EventWait) (resets : IsResetting wait) where
  silent_round :
      (now : ℕ) (s : Recovery)
      → s.deadline ≡ none
      → recovery_round wait now 0 s ≡ (none, record s { events = 0 })
  unfolding recovery_round settle_deadline begin_round until_deadline handle_events
  silent_round now s off = rw off (rw (resets.0 s.events 0 ∙ resets.1) refl)

  -- Without a deadline, what was posted before is lost.
  pub silent_rounds :
      (times : List ℕ) (s : Recovery)
      → s.deadline ≡ none
      → recovery_thread wait (silent times) s ≡ none
  unfolding recovery_thread up_to_reboot
  silent_rounds [] s off = refl
  silent_rounds (now ∷ times) s off =
      let ih = silent_rounds times (record s { events = 0 }) off in
      let after = λ (end : Option Reason × Recovery).
        up_to_reboot end.0 (recovery_thread wait (silent times) end.1) in
      ap after (silent_round now s off) ∙ ih
