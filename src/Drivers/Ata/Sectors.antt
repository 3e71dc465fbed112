-- ===== src/Drivers/Ata/Sectors.antt =====
-- Sectors that are read and written on a drive that follows the protocol.
use yotos.Base.{
  ℕ, suc, ◌+◌, ◌^◌, ◌≤◌, ◌<◌, ◌≡◌, refl, ap, ◌∙◌, ◌≢◌, ◌&&◌, some, List, [], ◌∷◌, ◌++◌, arith, ◌==◌,
  if◌then◌else◌, length, All, length-append, append_assoc,
}
use mathlib.Core.Path.{subst}
use yotos.Drivers.Ata.{
  Bus, ata_data, ata_cmd_read_pio, ata_cmd_write_pio, issue, read_words, write_words, bytes_of,
  words_of, ata_read_sector, ata_write_sector, drq_rounds,
}
use yotos.Drivers.Ata.Drive.{idle, taking, after, drive_of, lba_of, Drive}
use yotos.Drivers.Ata.Issue.{
  At-ready, start_At, issue-read, issue-write, drive_of-addressed, lba_of-addressed, addressed,
}
use yotos.Drivers.Ata.Wait.{wait_bsy-idle, wait_drq-ready}
use yotos.Drivers.Ata.Words.{length-words_of, bytes_of-words_of}

after_busy : (ws : List ℕ) → 0 < length ws → after ws ≢ idle
after_busy [] h = absurd (omega (arith, h))
after_busy (w ∷ ws) h = λ e. cc e

taking_busy : {ws : List ℕ} → taking ws ≢ idle
taking_busy = λ e. cc e

same_sector : (d l : ℕ) (x y : List ℕ) → (if d == d && l == l then x else y) ≡ x
same_sector d l x y = ground arith

module _ {S : Type 0} (bus : Bus S) (drive : Drive bus) where
  open drive use {phase, reg, sector, delay, patience}

  read_words-sent :
      (ws : List ℕ) (t : S)
      → phase t ≡ after ws
      → delay t ≡ 0
      → ((read_words bus (length ws) t).0 ≡ ws)
        × (phase (read_words bus (length ws) t).1 ≡ idle)
        × (delay (read_words bus (length ws) t).1 ≤ patience)
        × ((d l : ℕ) → sector d l (read_words bus (length ws) t).1 ≡ sector d l t)
  unfolding read_words
  read_words-sent [] t h k = (refl, h, omega (arith, k), λ d l. refl)
  read_words-sent (w ∷ []) t h k =
      let (word, ends) = drive.sent w [] t h k in
      (ap (λ v. v ∷ []) word, ends, drive.end_delay w t h k, λ d l. drive.inw_sector d l t)
  read_words-sent (w ∷ v ∷ ws) t h k =
      let u = (bus.inw ata_data t).1 in
      let (word, goes_on) = drive.sent w (v ∷ ws) t h k in
      let (words, ends, rest, kept) =
        read_words-sent (v ∷ ws) u goes_on (drive.sent_delay w v ws t h k) in
      (
        ap (λ x. x ∷ (read_words bus (length (v ∷ ws)) u).0) word ∙ ap (λ vs. w ∷ vs) words,
        ends,
        rest,
        λ d l. kept d l ∙ drive.inw_sector d l t,
      )

  -- Reading a sector of 256 words gives its 512 bytes and leaves every sector as it was.
  pub ata_read_sector-sector :
      (fuel d l : ℕ) (s : S)
      → phase s ≡ idle
      → delay s ≤ patience
      → patience < fuel
      → patience ≤ drq_rounds
      → d < 2
      → l < 2 ^ 28
      → length (sector d l s) ≡ 256
      → (t : S) × (ata_read_sector bus fuel d l s ≡ some (bytes_of (sector d l s), t))
        × (phase t ≡ idle)
        × (delay t ≤ patience)
        × ((d' l' : ℕ) → sector d' l' t ≡ sector d' l' s)
  unfolding ata_read_sector
  ata_read_sector-sector fuel d l s h soon enough rounds hd hl size =
      let words = sector d l s in
      let (s1, waited, free) =
        wait_bsy-idle bus drive fuel patience s s (reg s) enough (start_At bus drive s h soon) in
      let asked = issue-read bus drive d l hd hl free in
      let s2 = issue bus d l ata_cmd_read_pio s1 in
      let moves : after words ≢ idle = after_busy words (omega (arith, size)) in
      let (s3, drq, ready) =
        wait_drq-ready bus drive (suc drq_rounds) patience s2 s (after words)
          (addressed d l (reg s)) (omega (arith, rounds)) moves asked in
      let (all, ends, rest, kept) =
        subst
          (λ n.
            ((read_words bus n s3).0 ≡ words)
            × (phase (read_words bus n s3).1 ≡ idle)
            × (delay (read_words bus n s3).1 ≤ patience)
            × ((d' l' : ℕ) → sector d' l' (read_words bus n s3).1 ≡ sector d' l' s3))
          size (read_words-sent words s3 ready.in_phase (At-ready bus drive ready)) in
      (
        (read_words bus 256 s3).1,
        rw (ata_read_sector, waited, drq)
            (ap (λ ws. some (bytes_of ws, (read_words bus 256 s3).1)) all),
        ends,
        rest,
        λ d' l'. kept d' l' ∙ ready.in_sector d' l',
      )

  write_words-taken :
      (w : ℕ) (ws taken : List ℕ) (t : S)
      → phase t ≡ taking taken
      → delay t ≡ 0
      → length taken + length ws ≡ 255
      → (phase (write_words bus (w ∷ ws) t) ≡ idle)
        × (delay (write_words bus (w ∷ ws) t) ≤ patience)
        × ((d l : ℕ)
            → sector d l (write_words bus (w ∷ ws) t) ≡ (
                if d == drive_of (reg t) && l == lba_of (reg t)
                then taken ++ (w ∷ ws)
                else sector d l t))
  unfolding write_words
  write_words-taken w [] taken t h k size =
      let full : length taken ≡ 255 = omega (arith, size) in
      let (ends, rest) = drive.stored w taken t h k full in
      (ends, rest, λ d l. drive.stored_sector w taken d l t h k full)
  write_words-taken w (v ∷ ws) taken t h k size =
      let room : length taken < 255 = omega (arith, size) in
      let u = bus.outw ata_data w t in
      let (grown, still) = drive.taken w taken t h k room in
      let (ends, rest, stored) =
        write_words-taken v ws (taken ++ (w ∷ [])) u grown still
          (omega (arith, size, length-append taken (w ∷ []))) in
      (
        ends,
        rest,
        λ d l.
            stored d l
            ∙ ap
                (λ r.
                  if d == drive_of r && l == lba_of r
                  then (taken ++ (w ∷ [])) ++ (v ∷ ws)
                  else sector d l u)
                (drive.taken_reg w taken t h k)
            ∙ ap (λ ws'. if d == drive_of (reg t) && l == lba_of (reg t) then ws' else sector d l u)
                (append_assoc taken (w ∷ []) (v ∷ ws))
            ∙ ap
                (λ ws'.
                  if d == drive_of (reg t) && l == lba_of (reg t)
                  then taken ++ (w ∷ v ∷ ws)
                  else ws')
                (drive.taken_sector w taken d l t h k room),
      )

  write_words-all :
      (ws : List ℕ) (t : S)
      → phase t ≡ taking []
      → delay t ≡ 0
      → length ws ≡ 256
      → (phase (write_words bus ws t) ≡ idle)
        × (delay (write_words bus ws t) ≤ patience)
        × ((d l : ℕ)
            → sector d l (write_words bus ws t)
              ≡ (if d == drive_of (reg t) && l == lba_of (reg t) then ws else sector d l t))
  write_words-all [] t h k size = absurd (omega (arith, size))
  write_words-all (w ∷ ws) t h k size = write_words-taken w ws [] t h k (omega (arith, size))

  ata_write_sector-sector :
      (fuel d l : ℕ) (buf : List ℕ) (s : S)
      → phase s ≡ idle
      → delay s ≤ patience
      → patience < fuel
      → patience ≤ drq_rounds
      → d < 2
      → l < 2 ^ 28
      → length (words_of buf) ≡ 256
      → (t : S) × (ata_write_sector bus fuel d l buf s ≡ some t)
        × (phase t ≡ idle)
        × (delay t ≤ patience)
        × ((d' l' : ℕ)
            → sector d' l' t ≡ (if d' == d && l' == l then words_of buf else sector d' l' s))
  unfolding ata_write_sector
  ata_write_sector-sector fuel d l buf s h soon enough rounds hd hl size =
      let (s1, waited, free) =
        wait_bsy-idle bus drive fuel patience s s (reg s) enough (start_At bus drive s h soon) in
      let asked = issue-write bus drive d l free in
      let s2 = issue bus d l ata_cmd_write_pio s1 in
      let (s3, drq, ready) =
        wait_drq-ready bus drive (suc drq_rounds) patience s2 s (taking []) (addressed d l (reg s))
          (omega (arith, rounds)) taking_busy asked in
      let s4 = write_words bus (words_of buf) s3 in
      let (ends, rest, stored) =
        write_words-all (words_of buf) s3 ready.in_phase (At-ready bus drive ready) size in
      let (s5, flushed, over) =
        wait_bsy-idle bus drive fuel patience s4 s4 (reg s4) enough
          (start_At bus drive s4 ends rest) in
      let target : (d' l' : ℕ)
          → (d' == drive_of (reg s3) && l' == lba_of (reg s3)) ≡ (d' == d && l' == l) =
        λ d' l'.
          ap (λ r. d' == drive_of r && l' == lba_of r) ready.in_reg
          ∙ ap (λ k. d' == k && l' == lba_of (addressed d l (reg s)))
              (drive_of-addressed d l (reg s) hd hl)
          ∙ ap (λ k. d' == d && l' == k) (lba_of-addressed d l (reg s) hl) in
      (
        s5,
        rw (ata_write_sector, waited, drq, flushed) refl,
        over.in_phase,
        omega (arith, over.in_delay),
        λ d' l'.
            over.in_sector d' l'
            ∙ stored d' l'
            ∙ ap (λ b. if b then words_of buf else sector d' l' s3) (target d' l')
            ∙ ap (λ ws. if d' == d && l' == l then words_of buf else ws) (ready.in_sector d' l'),
      )

  -- On a drive that reports no error and, once busy, is ready within a bounded number of polls, below
  -- the fuel of the wait for BSY and at most the 999999 of the wait for DRQ: a sector of 512 bytes
  -- that is written while no transfer is under way is what is read back from the same drive and
  -- address, and every other sector stays as it was.
  pub ata_read_sector-ata_write_sector :
      (fuel d l : ℕ) (buf : List ℕ) (s : S)
      → phase s ≡ idle
      → delay s ≤ patience
      → patience < fuel
      → patience ≤ drq_rounds
      → d < 2
      → l < 2 ^ 28
      → length buf ≡ 512
      → All (λ b. b < 256) buf
      → (t u : S) × (ata_write_sector bus fuel d l buf s ≡ some t)
        × (ata_read_sector bus fuel d l t ≡ some (buf, u))
        × ((d' l' : ℕ)
            → sector d' l' u ≡ (if d' == d && l' == l then words_of buf else sector d' l' s))
  ata_read_sector-ata_write_sector fuel d l buf s h soon enough rounds hd hl size bytes =
      let words = length-words_of 256 buf (size ∙ omega arith) in
      let (t, written, ends, rest, stored) =
        ata_write_sector-sector fuel d l buf s h soon enough rounds hd hl words in
      let here : sector d l t ≡ words_of buf =
        stored d l ∙ same_sector d l (words_of buf) (sector d l s) in
      let (u, got, _, _, kept) =
        ata_read_sector-sector fuel d l t ends rest enough rounds hd hl (ap length here ∙ words) in
      (
        t,
        u,
        written,
        got
            ∙ ap (λ ws. some (bytes_of ws, u)) here
            ∙ ap (λ b. some (b, u)) (bytes_of-words_of 256 buf (size ∙ omega arith) bytes),
        λ d' l'. kept d' l' ∙ stored d' l',
      )
