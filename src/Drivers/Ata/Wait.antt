-- ===== src/Drivers/Ata/Wait.antt =====
-- The waits for BSY and for DRQ on a drive that is ready after a bounded number of polls.
use yotos.Base.{
  ℕ, zero, suc, ◌<◌, ◌≡◌, refl, sym, ◌∙◌, ◌≢◌, inl, inr, true, some, arith, ◌==◌, Bool-cases,
}
use yotos.Drivers.Ata.{Bus, ata_status, ata_wait_bsy, ata_wait_drq}
use yotos.Drivers.Ata.Drive.{Phase, idle, Drive}
use yotos.Drivers.Ata.Issue.{At, At-ready, poll_status, poll_ready}

module _ {S : Type 0} (bus : Bus S) (drive : Drive bus) where
  open drive use {phase, delay}

  -- The wait ends once the drive is ready, if the fuel is more than the polls that are left.
  pub wait_bsy-idle :
      (fuel n : ℕ) (t s : S) (f : ℕ → ℕ)
      → n < fuel
      → At bus drive t idle f n s
      → (u : S) × (ata_wait_bsy bus fuel t ≡ some u) × At bus drive u idle f 0 s
  unfolding ata_wait_bsy
  wait_bsy-idle zero n t s f lt h = absurd (omega (arith, lt))
  wait_bsy-idle (suc fuel) zero t s f lt h =
      let ready = At-ready bus drive h in
      let free = drive.not_busy t h.in_phase ready in
      ((bus.inb ata_status t).1, rw (ata_wait_bsy, free) refl, poll_ready bus drive ready h)
  wait_bsy-idle (suc fuel) (suc n) t s f lt h = elim (Bool-cases (delay t == 0)) [
    | inl done ↦
        let ready : delay t ≡ 0 = ground (arith, done) in
        let free = drive.not_busy t h.in_phase ready in
        ((bus.inb ata_status t).1, rw (ata_wait_bsy, free) refl, poll_ready bus drive ready h)
    | inr more ↦
        let left : 0 < delay t = ground (arith, more) in
        let busy = (drive.busy t left).0 in
        let (u, ends, there) =
          wait_bsy-idle fuel n (bus.inb ata_status t).1 s f (omega (arith, lt))
            (poll_status bus drive left h) in
        (u, rw (ata_wait_bsy, busy) ends, there)
  ]

  pub wait_drq-ready :
      (rounds n : ℕ) (t s : S) (p : Phase) (f : ℕ → ℕ)
      → n < rounds
      → p ≢ idle
      → At bus drive t p f n s
      → (u : S) × (ata_wait_drq bus rounds t ≡ (true, u)) × At bus drive u p f 0 s
  unfolding ata_wait_drq
  wait_drq-ready zero n t s p f lt moves h = absurd (omega (arith, lt))
  wait_drq-ready (suc rounds) zero t s p f lt moves h =
      let ready = At-ready bus drive h in
      let moving : phase t ≢ idle = λ e. moves (sym h.in_phase ∙ e) in
      (
        (bus.inb ata_status t).1,
        rw (ata_wait_drq, drive.no_error t moving, drive.data_ready t moving ready) refl,
        poll_ready bus drive ready h,
      )
  wait_drq-ready (suc rounds) (suc n) t s p f lt moves h =
      let moving : phase t ≢ idle = λ e. moves (sym h.in_phase ∙ e) in
      elim (Bool-cases (delay t == 0)) [
        | inl done ↦
            let ready : delay t ≡ 0 = ground (arith, done) in
            (
              (bus.inb ata_status t).1,
              rw (ata_wait_drq, drive.no_error t moving, drive.data_ready t moving ready) refl,
              poll_ready bus drive ready h,
            )
        | inr more ↦
            let left : 0 < delay t = ground (arith, more) in
            let (u, ends, there) =
              wait_drq-ready rounds n (bus.inb ata_status t).1 s p f (omega (arith, lt)) moves
                (poll_status bus drive left h) in
            (u, rw (ata_wait_drq, drive.no_error t moving, (drive.busy t left).1) ends, there)
      ]
