-- ===== src/Drivers/Ata/Issue.antt =====
-- The address and the command that reach a drive which follows the protocol.
use yotos.Base.{
  ℕ, suc, ◌+◌, ◌*◌, ◌/◌, ◌^◌, ◌≤◌, ◌<◌, ◌≡◌, refl, ap, ◌∙◌, inl, inr, [], arith, bit_and, bit_or,
  ◌==◌, if◌then◌else◌, update, Bool-cases, u8, bit_or-parts, bit_and-ones, bit_or-zero, zero-bit_or,
}
use yotos.Drivers.Ata.{
  Bus, ata_command, ata_status, ata_drive_head, ata_features, ata_sector_cnt, ata_lba_lo,
  ata_lba_mid, ata_lba_hi, ata_cmd_read_pio, ata_cmd_write_pio, ata_delay400ns, set_address, issue,
}
use yotos.Drivers.Ata.Drive.{Phase, idle, taking, after, drive_of, lba_of, Drive}

-- The registers once the address is set.
abbrev pub head_of : (current_drive lba : ℕ) → ℕ
head_of current_drive lba =
    bit_or (if current_drive == 0 then 0xE0 else 0xF0) (bit_and (lba / 2 ^ 24) 0x0F)

abbrev pub addressed : (current_drive lba : ℕ) → (ℕ → ℕ) → ℕ → ℕ
addressed d l reg =
    update
      (update
        (update
          (update (update (update reg ata_drive_head (head_of d l)) ata_features 0) ata_sector_cnt
            1)
          ata_lba_lo (u8 l))
        ata_lba_mid (u8 (l / 2 ^ 8)))
      ata_lba_hi (u8 (l / 2 ^ 16))

low_bits : (b x : ℕ) → x < 2 ^ 4 → bit_or (b * 2 ^ 4) x ≡ b * 2 ^ 4 + x
low_bits b x h =
    let high : b * 2 ^ 4 ≡ b * 2 ^ 4 + 0 = omega arith in
    let low : x ≡ 0 * 2 ^ 4 + x = omega arith in
    ap (λ y. bit_or y x) high
    ∙ ap (λ y. bit_or (b * 2 ^ 4 + 0) y) low
    ∙ bit_or-parts 4 0 b x 0 (omega arith) h
    ∙ omega (arith, bit_or-zero b b (omega arith), zero-bit_or x x (omega arith))

head_value : (d l : ℕ) → l < 2 ^ 28 → head_of d l ≡ (if d == 0 then 0xE0 else 0xF0) + l / 2 ^ 24
head_value d l h =
    let top : bit_and (l / 2 ^ 24) 0x0F ≡ l / 2 ^ 24 =
      bit_and-ones 4 (l / 2 ^ 24) (omega (arith, h)) in
    rw top (elim (Bool-cases (d == 0)) [
      | inl e ↦ rw e (low_bits 14 (l / 2 ^ 24) (omega (arith, h)))
      | inr e ↦ rw e (low_bits 15 (l / 2 ^ 24) (omega (arith, h)))
    ])

pub drive_of-addressed :
    (d l : ℕ) (reg : ℕ → ℕ) → d < 2 → l < 2 ^ 28 → drive_of (addressed d l reg) ≡ d
drive_of-addressed d l reg hd h = rw (head_value d l h) (ground (arith, h, hd))

pub lba_of-addressed : (d l : ℕ) (reg : ℕ → ℕ) → l < 2 ^ 28 → lba_of (addressed d l reg) ≡ l
lba_of-addressed d l reg h = rw (head_value d l h) (ground (arith, h))

module _ {S : Type 0} (bus : Bus S) (drive : Drive bus) where
  open drive use {phase, reg, sector, delay, patience}

  -- The drive is in a phase, with registers, is ready after `n` polls, and its sectors are those of
  -- an earlier state.
  pub record At (t : S) (p : Phase) (f : ℕ → ℕ) (n : ℕ) (s : S) : Type 0 where
    pub in_phase : phase t ≡ p
    pub in_reg : reg t ≡ f
    pub in_delay : delay t ≤ n
    pub in_sector : (d l : ℕ) → sector d l t ≡ sector d l s

  pub At-ready : {t s : S} {p : Phase} {f : ℕ → ℕ} → At t p f 0 s → delay t ≡ 0
  At-ready h = omega (arith, h.in_delay)

  pub poll :
      {t s : S} {p : Phase} {f : ℕ → ℕ} {n : ℕ} (port : ℕ)
      → At t p f n s
      → At (bus.inb port t).1 p f n s
  poll {t = t} port h = record {
    in_phase = drive.inb_phase port t ∙ h.in_phase;
    in_reg = drive.inb_reg port t ∙ h.in_reg;
    in_delay = omega (arith, drive.inb_delay port t, h.in_delay);
    in_sector = λ d l. drive.inb_sector port d l t ∙ h.in_sector d l;
  }

  -- A read of the status while the drive is busy.
  pub poll_status :
      {t s : S} {p : Phase} {f : ℕ → ℕ} {n : ℕ}
      → 0 < delay t
      → At t p f (suc n) s
      → At (bus.inb ata_status t).1 p f n s
  poll_status {t = t} k h = record {
    in_phase = drive.inb_phase ata_status t ∙ h.in_phase;
    in_reg = drive.inb_reg ata_status t ∙ h.in_reg;
    in_delay = omega (arith, drive.status_delay t k, h.in_delay);
    in_sector = λ d l. drive.inb_sector ata_status d l t ∙ h.in_sector d l;
  }

  -- A read of the status of a drive that is ready.
  pub poll_ready :
      {t s : S} {p : Phase} {f : ℕ → ℕ} {n : ℕ}
      → delay t ≡ 0
      → At t p f n s
      → At (bus.inb ata_status t).1 p f 0 s
  poll_ready {t = t} k h = record {
    in_phase = drive.inb_phase ata_status t ∙ h.in_phase;
    in_reg = drive.inb_reg ata_status t ∙ h.in_reg;
    in_delay = omega (arith, drive.inb_delay ata_status t, k);
    in_sector = λ d l. drive.inb_sector ata_status d l t ∙ h.in_sector d l;
  }

  write :
      {t s : S} {f : ℕ → ℕ} (port v : ℕ)
      → port < ata_command
      → At t idle f 0 s
      → At (bus.outb port v t) idle (update f port v) 0 s
  write {t = t} port v k h =
      let ready = At-ready h in
      let (stays, still) = drive.set_phase port v t k h.in_phase ready in
      record {
        in_phase = stays;
        in_reg = drive.set_reg port v t k h.in_phase ready ∙ ap (λ g. update g port v) h.in_reg;
        in_delay = omega (arith, still);
        in_sector = λ d l. drive.outb_sector port v d l t ∙ h.in_sector d l;
      }

  set_address-At :
      (d l : ℕ) {t s : S} {f : ℕ → ℕ}
      → At t idle f 0 s
      → At (set_address bus d l t) idle (addressed d l f) 0 s
  unfolding set_address
  set_address-At d l h = write ata_lba_hi _ (omega arith) (
      write ata_lba_mid _ (omega arith) (
        write ata_lba_lo _ (omega arith) (
          write ata_sector_cnt 1 (omega arith)
            (write ata_features 0 (omega arith) (write ata_drive_head _ (omega arith) h)))))

  delay-At :
      {t s : S} {p : Phase} {f : ℕ → ℕ} {n : ℕ} → At t p f n s → At (ata_delay400ns bus t) p f n s
  unfolding ata_delay400ns
  delay-At h = poll _ (poll _ (poll _ (poll _ h)))

  pub issue-read :
      (d l : ℕ) {t s : S} {f : ℕ → ℕ}
      → d < 2
      → l < 2 ^ 28
      → At t idle f 0 s
      → At (issue bus d l ata_cmd_read_pio t) (after (sector d l s)) (addressed d l f) patience s
  unfolding issue
  issue-read d l {t = t} {f = f} hd hl h =
      let set = set_address-At d l h in
      let u = set_address bus d l t in
      let target : sector (drive_of (reg u)) (lba_of (reg u)) u ≡ sector d l u =
        ap (λ r. sector (drive_of r) (lba_of r) u) set.in_reg
        ∙ ap (λ k. sector k (lba_of (addressed d l f)) u) (drive_of-addressed d l f hd hl)
        ∙ ap (λ k. sector d k u) (lba_of-addressed d l f hl) in
      delay-At (record {
        in_phase =
            drive.read_command u set.in_phase (At-ready set)
            ∙ ap after (target ∙ set.in_sector d l);
        in_reg = drive.command_reg _ u ∙ set.in_reg;
        in_delay = drive.command_delay _ u (At-ready set);
        in_sector = λ d' l'. drive.outb_sector _ _ d' l' u ∙ set.in_sector d' l';
      })

  pub issue-write :
      (d l : ℕ) {t s : S} {f : ℕ → ℕ}
      → At t idle f 0 s
      → At (issue bus d l ata_cmd_write_pio t) (taking []) (addressed d l f) patience s
  unfolding issue
  issue-write d l {t = t} h =
      let set = set_address-At d l h in
      let u = set_address bus d l t in
      delay-At (record {
        in_phase = drive.write_command u set.in_phase (At-ready set);
        in_reg = drive.command_reg _ u ∙ set.in_reg;
        in_delay = drive.command_delay _ u (At-ready set);
        in_sector = λ d' l'. drive.outb_sector _ _ d' l' u ∙ set.in_sector d' l';
      })

  pub start_At : (s : S) → phase s ≡ idle → delay s ≤ patience → At s idle (reg s) patience s
  start_At s h k = record { in_phase = h; in_reg = refl; in_delay = k; in_sector = λ d l. refl }
