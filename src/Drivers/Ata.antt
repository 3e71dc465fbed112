-- ===== src/Drivers/Ata.antt =====
-- drivers/ata.c: reading and writing a sector through the ports of the primary bus. A sector is the
-- list of its bytes, a word has its low byte first. The wait for a drive that is busy has no bound in
-- C, so it takes fuel, and `none` says that it ran out.
pub mod Drive
mod Issue
mod Wait
mod Words
pub mod Sectors
mod Tests
use yotos.Base.{
  ℕ, zero, suc, ◌+◌, ◌-◌, ◌*◌, ◌/◌, ◌%◌, ◌^◌, ◌≤◌, ◌<◌, ◌≡◌, refl, sym, ap, ◌∙◌, fun_ext, ◌≢◌, ◌↔◌,
  ◌⊎◌, inl, inr, Bool, true, false, not, ◌&&◌, ◌||◌, Option, none, some, List, [], ◌∷◌, ◌++◌, map,
  arith, bit_and, bit_or, bit_xor, ltb, leb, ◌==◌, if◌then◌else◌, update, min, max, bit, bit-lt,
  bit-bit_or, bit-bit_and, bit-pow, bit_and-pow_iff, bit-complement, bit_or-lt, bit-ones, pow-lt,
  bit_and-le, all_ones, Bool-cases, Option-cases, length, get_or, take, drop, for_loop,
  for_loop-zero, for_loop-suc, replicate, All, length-append, length-take, length-drop,
  length-replicate, u8, u16, u32, sub32, ==_iff, ltb→lt, lt→ltb, le→ltb, leb→le, append_nil,
  append_assoc, take_all, take-append, drop-append, take_full, get_or-append, get_or-behind,
  get_or-replicate, drop-drop, take-drop, map-append, drop_taken,
}
use yotos.Klibc.{printf}

-- The instructions for ports, over states of a type.
pub record Bus (S : Type 0) : Type 0 where
  pub inb : ℕ → S → ℕ × S
  pub outb : ℕ → ℕ → S → S
  pub inw : ℕ → S → ℕ × S
  pub outw : ℕ → ℕ → S → S

abbrev pub ata_data : ℕ
ata_data = 0x1F0

abbrev pub ata_features : ℕ
ata_features = 0x1F1

abbrev pub ata_sector_cnt : ℕ
ata_sector_cnt = 0x1F2

abbrev pub ata_lba_lo : ℕ
ata_lba_lo = 0x1F3

abbrev pub ata_lba_mid : ℕ
ata_lba_mid = 0x1F4

abbrev pub ata_lba_hi : ℕ
ata_lba_hi = 0x1F5

abbrev pub ata_drive_head : ℕ
ata_drive_head = 0x1F6

-- The status when it is read, the command when it is written.
abbrev pub ata_status : ℕ
ata_status = 0x1F7

abbrev pub ata_command : ℕ
ata_command = 0x1F7

abbrev pub ata_alt_status : ℕ
ata_alt_status = 0x3F6

abbrev pub ata_sr_bsy : ℕ
ata_sr_bsy = 0x80

abbrev pub ata_sr_drq : ℕ
ata_sr_drq = 0x08

abbrev pub ata_sr_err : ℕ
ata_sr_err = 0x01

abbrev pub ata_cmd_read_pio : ℕ
ata_cmd_read_pio = 0x20

abbrev pub ata_cmd_write_pio : ℕ
ata_cmd_write_pio = 0x30

-- The rounds of the loop of `ata_wait_drq`, but one.
pub drq_rounds : ℕ
drq_rounds = 999999

-- The bytes of words in memory, and the words that bytes in memory are.
unfoldable pub bytes_of : List ℕ → List ℕ
bytes_of [] = []
bytes_of (w ∷ ws) = u8 w ∷ u8 (w / 2 ^ 8) ∷ bytes_of ws

unfoldable pub words_of : List ℕ → List ℕ
words_of (lo ∷ hi ∷ buf) = (lo + hi * 2 ^ 8) ∷ words_of buf
words_of _ = []

-- `buf[510] == 0x55 && buf[511] == 0xAA`
unfoldable pub is_boot_sector : List ℕ → Bool
is_boot_sector buf = get_or buf 510 0 == 0x55 && get_or buf 511 0 == 0xAA

abbrev pub found_slave : List ℕ
found_slave =
    b'[' ∷ b'A' ∷ b'T' ∷ b'A' ∷ b']' ∷ b' ' ∷ b'D' ∷ b'i' ∷ b's' ∷ b'k' ∷ b' ' ∷ b'f' ∷ b'o' ∷ b'u'
    ∷ b'n' ∷ b'd' ∷ b' ' ∷ b'o' ∷ b'n' ∷ b' ' ∷ b'p' ∷ b'r' ∷ b'i' ∷ b'm' ∷ b'a' ∷ b'r' ∷ b'y'
    ∷ b' ' ∷ b's' ∷ b'l' ∷ b'a' ∷ b'v' ∷ b'e' ∷ 10 ∷ []

abbrev pub found_master : List ℕ
found_master =
    b'[' ∷ b'A' ∷ b'T' ∷ b'A' ∷ b']' ∷ b' ' ∷ b'D' ∷ b'i' ∷ b's' ∷ b'k' ∷ b' ' ∷ b'f' ∷ b'o' ∷ b'u'
    ∷ b'n' ∷ b'd' ∷ b' ' ∷ b'o' ∷ b'n' ∷ b' ' ∷ b'p' ∷ b'r' ∷ b'i' ∷ b'm' ∷ b'a' ∷ b'r' ∷ b'y'
    ∷ b' ' ∷ b'm' ∷ b'a' ∷ b's' ∷ b't' ∷ b'e' ∷ b'r' ∷ 10 ∷ []

abbrev pub found_none : List ℕ
found_none =
    b'[' ∷ b'A' ∷ b'T' ∷ b'A' ∷ b']' ∷ b' ' ∷ b'N' ∷ b'o' ∷ b' ' ∷ b'd' ∷ b'i' ∷ b's' ∷ b'k' ∷ b' '
    ∷ b'f' ∷ b'o' ∷ b'u' ∷ b'n' ∷ b'd' ∷ b' ' ∷ b'(' ∷ b'c' ∷ b'h' ∷ b'e' ∷ b'c' ∷ b'k' ∷ b'e'
    ∷ b'd' ∷ b' ' ∷ b's' ∷ b'l' ∷ b'a' ∷ b'v' ∷ b'e' ∷ b' ' ∷ b'+' ∷ b' ' ∷ b'm' ∷ b'a' ∷ b's'
    ∷ b't' ∷ b'e' ∷ b'r' ∷ b')' ∷ 10 ∷ []

module _ {S : Type 0} (bus : Bus S) where
  unfoldable pub ata_delay400ns : S → S
  ata_delay400ns s =
      let s1 = (bus.inb ata_alt_status s).1 in
      let s2 = (bus.inb ata_alt_status s1).1 in
      let s3 = (bus.inb ata_alt_status s2).1 in (bus.inb ata_alt_status s3).1

  unfoldable pub ata_wait_bsy : (fuel : ℕ) → S → Option S
  ata_wait_bsy zero s = none
  ata_wait_bsy (suc fuel) s =
      let (status, s1) = bus.inb ata_status s in
      let rest = ata_wait_bsy fuel s1 in if bit_and status ata_sr_bsy == 0 then some s1 else rest

  -- Whether data can be moved; after `rounds` rounds the loop gives up.
  unfoldable pub ata_wait_drq : (rounds : ℕ) → S → Bool × S
  ata_wait_drq zero s = (false, s)
  ata_wait_drq (suc rounds) s =
      let (status, s1) = bus.inb ata_status s in
      let rest = ata_wait_drq rounds s1 in
      if not (bit_and status ata_sr_err == 0)
      then (false, s1)
      else if not (bit_and status ata_sr_drq == 0)
      then (true, s1)
      else rest

  -- The drive and the address of the sector, as both functions write them.
  unfoldable pub set_address : (current_drive lba : ℕ) → S → S
  set_address current_drive lba s =
      let head = if current_drive == 0 then 0xE0 else 0xF0 in
      let s1 = bus.outb ata_drive_head (bit_or head (bit_and (lba / 2 ^ 24) 0x0F)) s in
      let s2 = bus.outb ata_features 0 s1 in
      let s3 = bus.outb ata_sector_cnt 1 s2 in
      let s4 = bus.outb ata_lba_lo (u8 lba) s3 in
      let s5 = bus.outb ata_lba_mid (u8 (lba / 2 ^ 8)) s4 in
      bus.outb ata_lba_hi (u8 (lba / 2 ^ 16)) s5

  -- The command, and the wait for the drive to take it.
  unfoldable pub issue : (current_drive lba command : ℕ) → S → S
  issue current_drive lba command s =
      ata_delay400ns (bus.outb ata_command command (set_address current_drive lba s))

  unfoldable pub read_words : ℕ → S → List ℕ × S
  read_words zero s = ([], s)
  read_words (suc n) s =
      let (w, s1) = bus.inw ata_data s in let (ws, s2) = read_words n s1 in (w ∷ ws, s2)

  unfoldable pub write_words : List ℕ → S → S
  write_words [] s = s
  write_words (w ∷ ws) s = write_words ws (bus.outw ata_data w s)

  -- What `buf` holds, and the state. An error or a timeout leaves zeros.
  unfoldable pub ata_read_sector : (fuel current_drive lba : ℕ) → S → Option (List ℕ × S)
  ata_read_sector fuel current_drive lba s = elim (ata_wait_bsy fuel s) [
    | none ↦ none
    | some s1 ↦
        let s2 = issue current_drive lba ata_cmd_read_pio s1 in
        let (ready, s3) = ata_wait_drq (suc drq_rounds) s2 in
        let (words, s4) = read_words 256 s3 in
        some (if ready then (bytes_of words, s4) else (replicate 512 0, s3))
  ]

  unfoldable pub ata_write_sector : (fuel current_drive lba : ℕ) → List ℕ → S → Option S
  ata_write_sector fuel current_drive lba buf s = elim (ata_wait_bsy fuel s) [
    | none ↦ none
    | some s1 ↦
        let s2 = issue current_drive lba ata_cmd_write_pio s1 in
        let (ready, s3) = ata_wait_drq (suc drq_rounds) s2 in
        let written = ata_wait_bsy fuel (write_words (words_of buf) s3) in
        if ready then written else some s3
  ]

  -- The drive that is chosen, what is printed, and the state.
  unfoldable pub ata_init : (fuel : ℕ) → S → Option (ℕ × List ℕ × S)
  ata_init fuel s = elim (ata_read_sector fuel 1 0 s) [
    | none ↦ none
    | some (slave, s1) ↦
        let fall_back : Option (ℕ × List ℕ × S) = elim (ata_read_sector fuel 0 0 s1) [
          | none ↦ none
          | some (master, s2) ↦
              some (0, printf (if is_boot_sector master then found_master else found_none) [], s2)
        ] in
        if is_boot_sector slave then some (1, printf found_slave [], s1) else fall_back
  ]
