-- ===== src/Drivers/Ata/Drive.antt =====
-- What the driver relies on of a drive that follows the ATA protocol for programmed input and output:
-- its registers, its sectors, and what it does with a command.
use yotos.Base.{
  ◌≤◌, ℕ, ◌+◌, ◌*◌, ◌/◌, ◌%◌, ◌^◌, ◌<◌, ◌≡◌, ◌≢◌, true, false, ◌&&◌, List, [], ◌∷◌, ◌++◌, bit_and,
  ◌==◌, if◌then◌else◌, update, length,
}
use yotos.Drivers.Ata.{
  Bus, ata_status, ata_command, ata_data, ata_drive_head, ata_lba_lo, ata_lba_mid, ata_lba_hi,
  ata_sr_bsy, ata_sr_drq, ata_sr_err, ata_cmd_read_pio, ata_cmd_write_pio,
}

-- A drive waits for a command, has words of a sector left to send, or has taken words of a sector.
pub data Phase : Type 0 where
  idle : Phase
  sending taking : List ℕ → Phase

abbrev pub after : List ℕ → Phase
after [] = idle
after (w ∷ ws) = sending (w ∷ ws)

-- The drive that the register selects, and the address of 28 bits that four registers hold.
abbrev pub drive_of : (ℕ → ℕ) → ℕ
drive_of reg = reg ata_drive_head / 2 ^ 4 % 2

abbrev pub lba_of : (ℕ → ℕ) → ℕ
lba_of reg =
    reg ata_lba_lo
    + reg ata_lba_mid * 2 ^ 8
    + reg ata_lba_hi * 2 ^ 16
    + reg ata_drive_head % 2 ^ 4 * 2 ^ 24

-- `sector d l s` are the words of sector `l` of drive `d`. After a command, after the last word of a
-- sector and before the first command the drive may be busy: `delay` is the number of reads of the
-- status after which it is ready, `patience` a bound of it. Until then BSY is set and DRQ is clear, and
-- registers and data are not to be touched. A drive of this kind reports no error.
pub record Drive {S : Type 0} (bus : Bus S) : Type 0 where
  pub phase : S → Phase
  pub reg : S → ℕ → ℕ
  pub sector : (d l : ℕ) → S → List ℕ
  pub delay : S → ℕ
  pub patience : ℕ
  pub inb_phase : (p : ℕ) (s : S) → phase (bus.inb p s).1 ≡ phase s
  pub inb_reg : (p : ℕ) (s : S) → reg (bus.inb p s).1 ≡ reg s
  pub inb_sector : (p d l : ℕ) (s : S) → sector d l (bus.inb p s).1 ≡ sector d l s
  pub inb_delay : (p : ℕ) (s : S) → delay (bus.inb p s).1 ≤ delay s
  pub status_delay : (s : S) → 0 < delay s → delay (bus.inb ata_status s).1 < delay s
  pub busy :
      (s : S)
      → 0 < delay s
      → ((bit_and (bus.inb ata_status s).0 ata_sr_bsy == 0) ≡ false)
        × ((bit_and (bus.inb ata_status s).0 ata_sr_drq == 0) ≡ true)
  pub not_busy :
      (s : S)
      → phase s ≡ idle
      → delay s ≡ 0
      → (bit_and (bus.inb ata_status s).0 ata_sr_bsy == 0) ≡ true
  pub no_error :
      (s : S) → phase s ≢ idle → (bit_and (bus.inb ata_status s).0 ata_sr_err == 0) ≡ true
  pub data_ready :
      (s : S)
      → phase s ≢ idle
      → delay s ≡ 0
      → (bit_and (bus.inb ata_status s).0 ata_sr_drq == 0) ≡ false
  pub set_phase :
      (p v : ℕ) (s : S)
      → p < ata_command
      → phase s ≡ idle
      → delay s ≡ 0
      → (phase (bus.outb p v s) ≡ idle) × (delay (bus.outb p v s) ≡ 0)
  pub set_reg :
      (p v : ℕ) (s : S)
      → p < ata_command
      → phase s ≡ idle
      → delay s ≡ 0
      → reg (bus.outb p v s) ≡ update (reg s) p v
  pub outb_sector : (p v d l : ℕ) (s : S) → sector d l (bus.outb p v s) ≡ sector d l s
  pub command_reg : (c : ℕ) (s : S) → reg (bus.outb ata_command c s) ≡ reg s
  pub command_delay : (c : ℕ) (s : S) → delay s ≡ 0 → delay (bus.outb ata_command c s) ≤ patience
  pub read_command :
      (s : S)
      → phase s ≡ idle
      → delay s ≡ 0
      → phase (bus.outb ata_command ata_cmd_read_pio s)
        ≡ after (sector (drive_of (reg s)) (lba_of (reg s)) s)
  pub write_command :
      (s : S)
      → phase s ≡ idle
      → delay s ≡ 0
      → phase (bus.outb ata_command ata_cmd_write_pio s) ≡ taking []
  pub sent :
      (w : ℕ) (ws : List ℕ) (s : S)
      → phase s ≡ sending (w ∷ ws)
      → delay s ≡ 0
      → ((bus.inw ata_data s).0 ≡ w) × (phase (bus.inw ata_data s).1 ≡ after ws)
  pub sent_delay :
      (w v : ℕ) (ws : List ℕ) (s : S)
      → phase s ≡ sending (w ∷ v ∷ ws)
      → delay s ≡ 0
      → delay (bus.inw ata_data s).1 ≡ 0
  pub end_delay :
      (w : ℕ) (s : S)
      → phase s ≡ sending (w ∷ [])
      → delay s ≡ 0
      → delay (bus.inw ata_data s).1 ≤ patience
  pub inw_sector : (d l : ℕ) (s : S) → sector d l (bus.inw ata_data s).1 ≡ sector d l s
  pub taken :
      (w : ℕ) (ws : List ℕ) (s : S)
      → phase s ≡ taking ws
      → delay s ≡ 0
      → length ws < 255
      → (phase (bus.outw ata_data w s) ≡ taking (ws ++ (w ∷ [])))
        × (delay (bus.outw ata_data w s) ≡ 0)
  pub taken_reg :
      (w : ℕ) (ws : List ℕ) (s : S)
      → phase s ≡ taking ws
      → delay s ≡ 0
      → reg (bus.outw ata_data w s) ≡ reg s
  pub taken_sector :
      (w : ℕ) (ws : List ℕ) (d l : ℕ) (s : S)
      → phase s ≡ taking ws
      → delay s ≡ 0
      → length ws < 255
      → sector d l (bus.outw ata_data w s) ≡ sector d l s
  pub stored :
      (w : ℕ) (ws : List ℕ) (s : S)
      → phase s ≡ taking ws
      → delay s ≡ 0
      → length ws ≡ 255
      → (phase (bus.outw ata_data w s) ≡ idle) × (delay (bus.outw ata_data w s) ≤ patience)
  pub stored_sector :
      (w : ℕ) (ws : List ℕ) (d l : ℕ) (s : S)
      → phase s ≡ taking ws
      → delay s ≡ 0
      → length ws ≡ 255
      → sector d l (bus.outw ata_data w s)
        ≡ (if d == drive_of (reg s) && l == lba_of (reg s) then ws ++ (w ∷ []) else sector d l s)
