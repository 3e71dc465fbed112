-- ===== src/Shell/Builtins/Listing/Content.antt =====
-- What cat prints.
use yotos.Base.{
  ℕ, zero, suc, ◌+◌, ◌-◌, ◌^◌, ◌≤◌, ◌<◌, ◌≡◌, refl, sym, ap, ◌∙◌, true, false, Option, some, List,
  [], ◌∷◌, ◌++◌, map, arith, ◌==◌, length, take, drop, length-take, length-drop, u32, append_nil,
  append_assoc, drop-drop, take-drop, map-append, drop_taken,
}
use mathlib.Core.Path.{subst}
use yotos.Klibc.{printf}
use yotos.Vfs.{vfs_file}
use yotos.Shell.Paths.{path_resolve}
use yotos.Shell.Builtins.{System, Shown, byte, has, put, print}
use yotos.Shell.Builtins.Listing.{cat_loop, cmd_cat}

-- In the states of a predicate, the file holds the bytes, and reading it, printing and closing it
-- do to what is on the terminal what they should.
pub record IsReadable {S : Type 0} (sys : System S) (file : ℕ) (content : List ℕ)
    (Good : S → Type 0) (out : S → List Shown) : Type 0 where
  pub reads :
      (offset size : ℕ) (s : S)
      → Good s
      → (sys.vfs_read file offset size s).0 ≡ some (take size (drop offset content))
  pub read_good : (offset size : ℕ) (s : S) → Good s → Good (sys.vfs_read file offset size s).1
  pub read_silent : (offset size : ℕ) (s : S) → out (sys.vfs_read file offset size s).1 ≡ out s
  pub show_good : (x : Shown) (s : S) → Good s → Good (sys.show x s)
  pub shows : (x : Shown) (s : S) → out (sys.show x s) ≡ out s ++ (x ∷ [])
  pub close_silent : (s : S) → out (sys.vfs_close file s) ≡ out s

module _ {S : Type 0} (sys : System S) (file : ℕ) (content : List ℕ) (Good : S → Type 0)
    (out : S → List Shown) (laws : IsReadable sys file content Good out) where
  put-good : (bytes : List ℕ) (s : S) → Good s → Good (put sys bytes s)
  put-good [] s g = g
  put-good (c ∷ bytes) s g = put-good bytes (sys.show (byte c) s) (laws.show_good (byte c) s g)

  put-out : (bytes : List ℕ) (s : S) → out (put sys bytes s) ≡ out s ++ map byte bytes
  put-out [] s = sym (append_nil (out s))
  put-out (c ∷ bytes) s =
      put-out bytes (sys.show (byte c) s)
      ∙ ap (λ o. o ++ map byte bytes) (laws.shows (byte c) s)
      ∙ append_assoc (out s) (byte c ∷ []) (map byte bytes)

  cat_loop-some :
      (fuel offset c : ℕ) (buf : List ℕ) (s : S)
      → (sys.vfs_read file offset 512 s).0 ≡ some (c ∷ buf)
      → offset + length (c ∷ buf) < 2 ^ 32
      → cat_loop sys (suc fuel) file offset s
        ≡ cat_loop sys fuel file
            (offset + length (c ∷ buf))
            (put sys (c ∷ buf) (sys.vfs_read file offset 512 s).1)
  unfolding cat_loop
  cat_loop-some fuel offset c buf s read h =
      let small : u32 (offset + suc (length buf)) ≡ offset + suc (length buf) = omega (arith, h) in
      rw (cat_loop, read, small) refl

  cat_loop-end :
      (fuel offset : ℕ) (s : S)
      → (sys.vfs_read file offset 512 s).0 ≡ some []
      → cat_loop sys (suc fuel) file offset s ≡ some (sys.vfs_read file offset 512 s).1
  unfolding cat_loop
  cat_loop-end fuel offset s read = rw (cat_loop, read) refl

  -- The loop comes to an end, and until then the bytes are printed.
  unfoldable pub Prints : Option S → S → List ℕ → Type 0
  Prints o s bytes = (t : S) × (o ≡ some t) × (out t ≡ out s ++ map byte bytes)

  more-Prints :
      (o o' : Option S) (s s' : S) (bytes rest : List ℕ)
      → o ≡ o'
      → out s' ≡ out s ++ map byte bytes
      → Prints o' s' rest
      → Prints o s (bytes ++ rest)
  unfolding Prints
  more-Prints o o' s s' bytes rest e k (t, ends, shown) = (
    t,
    e ∙ ends,
    shown
        ∙ ap (λ b. b ++ map byte rest) k
        ∙ append_assoc (out s) (map byte bytes) (map byte rest)
        ∙ ap (λ b. out s ++ b) (sym (map-append byte bytes rest)),
  )

  -- Enough fuel is more than the bytes that are left.
  cat_loop-Prints :
      (fuel offset : ℕ) (rest : List ℕ) (s : S)
      → Good s
      → drop offset content ≡ rest
      → length content < 2 ^ 32
      → offset ≤ length content
      → length rest < fuel
      → Prints (cat_loop sys fuel file offset s) s rest
  unfolding Prints
  cat_loop-Prints zero offset rest s g e hc ho hf = absurd (omega (arith, hf))
  cat_loop-Prints (suc fuel) offset [] s g e hc ho hf = (
    (sys.vfs_read file offset 512 s).1,
    cat_loop-end fuel offset s (laws.reads offset 512 s g ∙ ap (λ r. some (take 512 r)) e),
    laws.read_silent offset 512 s ∙ sym (append_nil (out s)),
  )
  cat_loop-Prints (suc fuel) offset (c ∷ rest) s g e hc ho hf =
      let buf = take 511 rest in
      let t = (sys.vfs_read file offset 512 s).1 in
      let read = laws.reads offset 512 s g ∙ ap (λ r. some (take 512 r)) e in
      let left : length content - offset ≡ length (c ∷ rest) =
        sym (length-drop offset content) ∙ ap length e in
      let n = length (c ∷ buf) in
      let in_file : offset + n ≤ length content = omega (arith, left, ho, length-take 511 rest) in
      let behind : drop (offset + n) content ≡ drop 511 rest =
        sym (drop-drop n offset content) ∙ ap (drop n) e ∙ drop_taken 511 rest in
      subst (Prints (cat_loop sys (suc fuel) file offset s) s) (take-drop 512 (c ∷ rest)) (
        more-Prints _ _ s (put sys (c ∷ buf) t) (c ∷ buf) (drop 511 rest)
          (cat_loop-some fuel offset c buf s read (omega (arith, in_file, hc)))
          (put-out (c ∷ buf) t ∙ ap (λ b. b ++ map byte (c ∷ buf)) (laws.read_silent offset 512 s))
          (cat_loop-Prints fuel (offset + n) (drop 511 rest) (put sys (c ∷ buf) t)
            (put-good (c ∷ buf) t (laws.read_good offset 512 s g)) behind hc in_file
            (omega (arith, hf, length-drop 511 rest))))

  print_newline :
      (s : S) → out (sys.vfs_close file (print sys (10 ∷ []) [] s)) ≡ out s ++ (byte 10 ∷ [])
  unfolding print printf
  print_newline s = laws.close_silent _ ∙ laws.shows (byte 10) s

  -- cat with the name of a file below 4 GiB ends when its fuel is more than the length of the file,
  -- and has printed exactly the bytes of the file and a newline.
  pub cmd_cat-Prints :
      (fuel : ℕ) (path arg : List ℕ) (s s0 s1 : S) (flags : ℕ)
      → 0 < length arg
      → sys.vfs_open (path_resolve path arg 256) s ≡ (file, s0)
      → 0 < file
      → sys.flags file s0 ≡ (flags, s1)
      → has vfs_file flags ≡ true
      → Good s1
      → length content < 2 ^ 32
      → length content < fuel
      → Prints (cmd_cat sys fuel path arg s) s1 (content ++ (10 ∷ []))
  unfolding cmd_cat Prints
  cmd_cat-Prints fuel path [] s s0 s1 flags ha opened hf seen flag g hc hb =
      absurd (omega (arith, ha))
  cmd_cat-Prints fuel path (c ∷ arg) s s0 s1 flags ha opened hf seen flag g hc hb =
      let there : (file == 0) ≡ false = ground (arith, hf) in
      let (t, ends, shown) = cat_loop-Prints fuel 0 content s1 g refl hc (omega arith) hb in
      (
        sys.vfs_close file (print sys (10 ∷ []) [] t),
        rw (opened, there, seen, flag, ends) refl,
        print_newline t
            ∙ ap (λ b. b ++ (byte 10 ∷ [])) shown
            ∙ append_assoc (out s1) (map byte content) (byte 10 ∷ [])
            ∙ ap (λ b. out s1 ++ b) (sym (map-append byte content (10 ∷ []))),
      )
