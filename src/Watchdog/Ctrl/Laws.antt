-- ===== src/Watchdog/Ctrl/Laws.antt =====
-- What the watchdog's operations do to the device and the timeout.
use zephyr_secure_supervisor.Base.{
  ℕ, zero, suc, ◌+◌, ◌*◌, ◌^◌, ◌≡◌, dec_lt, ◌≢◌, ap, ◌∙◌, ◌≤◌, ◌<◌, ◌⊎◌, true, false, ltb, none,
  some, sub32, done, fail, eagain, ebusy, eoverflow, Bool-cases, arith, refl, inl, inr,
}
use zephyr_secure_supervisor.Watchdog.Compute.{compute}
use zephyr_secure_supervisor.Watchdog.Compute.Laws.{accepted_iff, ticks_of-short}
use zephyr_secure_supervisor.Watchdog.Ctrl.{
  Wdt, Ctrl, update_timeout_ms, feed, feed_installed, retune, retune_installed, retune_hw,
  wait_ready, finish_retune, get_timeout, is_feed_enabled,
}

module _ (wdt : Wdt) where
  open wdt use {Device}

  -- One round of the wait, by what the registers and the clock say.
  wait_round :
      (n k start : ℕ) (d : Device)
      → ((d' : Device)
          → (wait_ready wdt n start d').0 ≢ fail eoverflow
          → wait_ready wdt (n + k) start d' ≡ wait_ready wdt n start d')
      → (wait_ready wdt (suc n) start d).0 ≢ fail eoverflow
      → wait_ready wdt (suc (n + k)) start d ≡ wait_ready wdt (suc n) start d
  unfolding wait_ready
  wait_round n k start d more h =
      let (is_ready, d1) = wdt.registers_ready d in
      let (now, d2) = wdt.uptime_32 d1 in
      let end = ltb (update_timeout_ms wdt) (sub32 now start) in
      elim (Bool-cases is_ready) [
        | inl e ↦ rw (e) refl
        | inr e ↦ elim (Bool-cases end) [
          | inl e' ↦ rw (e, e') refl
          | inr e' ↦ rw (e, e') (more d2 (rw (e, e') at h))
        ]
      ]

  -- A wait that does not run out of fuel ends the same on more of it.
  wait_ready-more :
      (n k start : ℕ) (d : Device)
      → (wait_ready wdt n start d).0 ≢ fail eoverflow
      → wait_ready wdt (n + k) start d ≡ wait_ready wdt n start d
  unfolding wait_ready
  wait_ready-more zero k start d h = absurd (h refl)
  wait_ready-more (suc n) k start d h =
      ap (λ m. wait_ready wdt m start d) {y = suc (n + k)} (omega arith)
      ∙ wait_round n k start d (wait_ready-more n k start) h

  -- A feed without a channel or while feeding is disabled changes nothing, and the return code
  -- says which is the case; any other reaches the device on its channel.
  feed-cases :
      (s : Ctrl Device)
      → ((s.channel_id ≡ none) × (feed wdt s ≡ (fail eagain, s)))
        ⊎ ((is_feed_enabled wdt s ≡ false) × (feed wdt s ≡ (fail ebusy, s)))
        ⊎ ((id : ℕ) × (s.channel_id ≡ some id)
            × (is_feed_enabled wdt s ≡ true)
            × (feed wdt s ≡ (
              (wdt.feed_channel id s.device).0,
              record s { device = (wdt.feed_channel id s.device).1 },
            )))
  unfolding feed feed_installed is_feed_enabled
  feed-cases s = ground arith

  -- Where the ticks of an accepted timeout fit 32 bits, the hardware counts them.
  accepted-cases :
      (lsi timeout_ms : ℕ)
      → (compute lsi timeout_ms).0 ≡ done 0
      → ((4 * 1000 ≤ timeout_ms * lsi) × (timeout_ms * lsi < 256 * 4096 * 1000))
        ⊎ (1000 * 2 ^ 32 ≤ timeout_ms * lsi)
  accepted-cases lsi timeout_ms h =
      let short = ticks_of-short lsi timeout_ms in
      let bounds = (accepted_iff lsi timeout_ms).0.0 h in
      elim (dec_lt (timeout_ms * lsi) (1000 * 2 ^ 32)) [
        | yes less ↦ inl (omega (arith, short less, bounds.0, bounds.1))
        | no more ↦ inr (omega arith)
      ]

  -- A retune keeps the channel and the enable flag. One that returns 0 had a channel and a timeout
  -- other than 0, and leaves the timeout at that: one that was in force, or that fits the hardware, with
  -- at least 4 ticks of the clock and fewer than 256 * 4096, or that is so long that the 32 bits of the
  -- ticks overflow. Any other return leaves the timeout as it was.
  pub retune-outcome :
      (polls timeout_ms : ℕ) (s : Ctrl Device)
      → let (rc, t) = retune wdt polls timeout_ms s in
        (t.channel_id ≡ s.channel_id)
        × (t.feed_enabled ≡ s.feed_enabled)
        × (((rc ≡ done 0)
              × (get_timeout wdt t ≡ timeout_ms)
              × (timeout_ms ≢ 0)
              × (s.channel_id ≢ none)
              × ((timeout_ms ≡ get_timeout wdt s)
                  ⊎ ((4 * 1000 ≤ timeout_ms * wdt.lsi_value)
                      × (timeout_ms * wdt.lsi_value < 256 * 4096 * 1000))
                  ⊎ (1000 * 2 ^ 32 ≤ timeout_ms * wdt.lsi_value)))
            ⊎ ((rc ≢ done 0) × (get_timeout wdt t ≡ get_timeout wdt s)))
  unfolding retune retune_installed retune_hw finish_retune get_timeout
  retune-outcome polls timeout_ms s = ground (arith, accepted-cases wdt.lsi_value timeout_ms)
