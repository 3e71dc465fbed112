-- ===== src/Drivers/Ata/Tests.antt =====
-- A drive in memory that follows the protocol: it is busy for the polls that are left in `wait`, five
-- after a command and after a sector that it takes.
use yotos.Base.{
  ℕ, zero, suc, ◌+◌, ◌-◌, ◌*◌, ◌<◌, ◌≡◌, refl, ◌≢◌, inl, inr, true, false, ◌&&◌, some, List, [],
  ◌∷◌, ◌++◌, arith, bit_and, ltb, ◌==◌, if◌then◌else◌, update, Bool-cases, length, replicate, All,
  length-replicate,
}
use yotos.Drivers.Ata.{Bus, drq_rounds, words_of, ata_read_sector, ata_write_sector}
use yotos.Drivers.Ata.Drive.{Phase, idle, sending, taking, after, drive_of, lba_of, Drive}
use yotos.Drivers.Ata.Sectors.{ata_read_sector-ata_write_sector}

record Machine : Type 0 where
  pub phase : Phase
  pub wait : ℕ
  pub regs : ℕ → ℕ
  pub disk : (d l : ℕ) → List ℕ

abbrev status_of : Phase → ℕ
status_of idle = 0x50
status_of (sending ws) = 0x58
status_of (taking ws) = 0x58

abbrev command : ℕ → Machine → Machine
command c s =
    if c == 0x20
    then record s { phase = after (s.disk (drive_of s.regs) (lba_of s.regs)); wait = 5 }
    else if c == 0x30
    then record s { phase = taking []; wait = 5 }
    else s

abbrev send : Phase → Machine → ℕ × Machine
send (sending (w ∷ [])) s = (w, record s { phase = idle; wait = 1 })
send (sending (w ∷ v ∷ ws)) s = (w, record s { phase = sending (v ∷ ws) })
send _ s = (0, s)

abbrev store : Phase → ℕ → Machine → Machine
store (taking ws) w s =
    if ltb (length ws) 255 then record s { phase = taking (ws ++ (w ∷ [])) } else record s {
      phase = idle;
      wait = 5;
      disk =
          λ d l. if d == drive_of s.regs && l == lba_of s.regs then ws ++ (w ∷ []) else s.disk d l;
    }
store _ w s = s

abbrev memory_bus : Bus Machine
memory_bus = record {
  inb = λ p s. (
    if s.wait == 0 then status_of s.phase else 0x80,
    if p == 0x1F7 then record s { wait = s.wait - 1 } else s,
  );
  outb = λ p v s. if p == 0x1F7 then command v s else record s { regs = update s.regs p v };
  inw = λ p s. send s.phase s;
  outw = λ p w s. store s.phase w s;
}

asks_for_data : (p : Phase) → p ≢ idle → (bit_and (status_of p) 8 == 0) ≡ false
asks_for_data idle n = absurd (n refl)
asks_for_data (sending ws) n = refl
asks_for_data (taking ws) n = refl

has_no_error : (p : Phase) → (bit_and (status_of p) 1 == 0) ≡ true
has_no_error idle = refl
has_no_error (sending ws) = refl
has_no_error (taking ws) = refl

send-disk : (d l : ℕ) (p : Phase) (s : Machine) → (send p s).1.disk d l ≡ s.disk d l
send-disk d l idle s = refl
send-disk d l (sending []) s = refl
send-disk d l (sending (w ∷ [])) s = refl
send-disk d l (sending (w ∷ v ∷ ws)) s = refl
send-disk d l (taking ws) s = refl

command-regs : (c : ℕ) (s : Machine) → (command c s).regs ≡ s.regs
command-regs c s = ground arith

command-disk : (c d l : ℕ) (s : Machine) → (command c s).disk d l ≡ s.disk d l
command-disk c d l s = ground arith

outb-disk : (p v d l : ℕ) (s : Machine) → (memory_bus.outb p v s).disk d l ≡ s.disk d l
outb-disk p v d l s = elim (Bool-cases (p == 0x1F7)) [
  | inl e ↦ rw e (command-disk v d l s)
  | inr e ↦ rw e refl
]

inb-disk : (p d l : ℕ) (s : Machine) → (memory_bus.inb p s).1.disk d l ≡ s.disk d l
inb-disk p d l s = ground arith

inb-phase : (p : ℕ) (s : Machine) → (memory_bus.inb p s).1.phase ≡ s.phase
inb-phase p s = ground arith

inb-regs : (p : ℕ) (s : Machine) → (memory_bus.inb p s).1.regs ≡ s.regs
inb-regs p s = ground arith

-- What a poll shows of a drive that is ready, and of one that is not.
ready_status : (s : Machine) → s.wait ≡ 0 → (memory_bus.inb 0x1F7 s).0 ≡ status_of s.phase
ready_status s k = ground (arith, k)

busy_status : (s : Machine) → 0 < s.wait → (memory_bus.inb 0x1F7 s).0 ≡ 0x80
busy_status s k = ground (arith, k)

clean_status : (s : Machine) → (bit_and (memory_bus.inb 0x1F7 s).0 1 == 0) ≡ true
clean_status s = elim (Bool-cases (s.wait == 0)) [
  | inl e ↦ rw e (has_no_error s.phase)
  | inr e ↦ rw e refl
]

memory_drive : Drive memory_bus
memory_drive = record {
  phase = λ s. s.phase;
  reg = λ s. s.regs;
  sector = λ d l s. s.disk d l;
  delay = λ s. s.wait;
  patience = 5;
  inb_phase = inb-phase;
  inb_reg = inb-regs;
  inb_sector = inb-disk;
  inb_delay = λ p s. ground arith;
  status_delay = λ s k. ground (arith, k);
  busy = λ s k. rw (busy_status s k) (refl, refl);
  not_busy = λ s h k. rw (ready_status s k, h) refl;
  no_error = λ s n. clean_status s;
  data_ready = λ s n k. rw (ready_status s k) (asks_for_data s.phase n);
  set_phase = λ p v s k h e. (ground (arith, k, h), ground (arith, k, e));
  set_reg = λ p v s k h e. ground (arith, k);
  outb_sector = outb-disk;
  command_reg = command-regs;
  command_delay = λ c s e. ground (arith, e);
  read_command = λ s h e. refl;
  write_command = λ s h e. refl;
  sent = send-first;
  sent_delay = λ w v ws s h e. rw h e;
  end_delay = λ w s h e. rw h (omega arith);
  inw_sector = λ d l s. send-disk d l s.phase s;
  taken = λ w ws s h e k. rw h (ground (arith, k), ground (arith, k, e));
  taken_reg = λ w ws s h e. rw h (ground arith);
  taken_sector = λ w ws d l s h e k. rw h (ground (arith, k));
  stored = λ w ws s h e k. rw h (ground (arith, k), ground (arith, k));
  stored_sector = λ w ws d l s h e k. rw h (ground (arith, k));
}
  where
    send-first :
        (w : ℕ) (ws : List ℕ) (s : Machine)
        → s.phase ≡ sending (w ∷ ws)
        → s.wait ≡ 0
        → ((send s.phase s).0 ≡ w) × ((send s.phase s).1.phase ≡ after ws)
    send-first w [] s h e = rw h (refl, refl)
    send-first w (v ∷ ws) s h e = rw h (refl, refl)

-- Every sector is filled with a word that tells its drive and its address; the drive is still busy.
abbrev start : Machine
start = record { phase = idle; wait = 3; regs = λ p. 0; disk = λ d l. replicate 256 (d * 16 + l) }

abbrev page : List ℕ
page = replicate 512 7

page-bytes : (n : ℕ) → All (λ b. b < 256) (replicate n 7)
page-bytes zero = tt
page-bytes (suc n) = (omega arith, page-bytes n)

ata_read_sector-ata_write_sector_example :
    (t u : Machine) × (ata_write_sector memory_bus 6 1 3 page start ≡ some t)
    × (ata_read_sector memory_bus 6 1 3 t ≡ some (page, u))
    × ((d l : ℕ) → u.disk d l ≡ (if d == 1 && l == 3 then words_of page else start.disk d l))
unfolding memory_drive drq_rounds
ata_read_sector-ata_write_sector_example =
    ata_read_sector-ata_write_sector memory_bus memory_drive 6 1 3 page start refl (omega arith)
      (omega arith) (omega arith) (omega arith) (omega arith) (length-replicate {A = ℕ} 512 7)
      (page-bytes 512)
