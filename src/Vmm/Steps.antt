-- ===== src/Vmm/Steps.antt =====
-- Two of the three writes that a mapping is made of, the flags of a directory entry and an entry of a
-- table; the third, a new table, stands in NewTable. Each keeps the page tables in
-- order, and its effect on the addresses below the window is known.
use yotos.Base.{
  ℕ, ◌+◌, ◌*◌, ◌/◌, ◌%◌, ◌^◌, ◌<◌, ◌≡◌, refl, sym, ap, ◌∙◌, inl, inr, Bool, true, ◌&&◌, Option,
  none, some, arith, ◌==◌, if◌then◌else◌, update, Bool-cases,
}
use native.Mathlib.Decide.{ℕ_discrete}
use yotos.Vmm.{Vmm, walk}
use yotos.Vmm.Window.{IsPaged, pde, walk-entries}

-- A walk sees of an entry its frame and its present flag.
walk-same :
    (m m' : ℕ → ℕ) (dir virt : ℕ)
    → ((w : ℕ) → (m' w / 4096 ≡ m w / 4096) × (m' w % 2 ≡ m w % 2))
    → walk m' dir virt ≡ walk m dir virt
unfolding walk
walk-same m m' dir virt same =
    let at = dir / 4096 * 1024 + virt / 2 ^ 22 in
    let one = same at in
    let two = same (m at / 4096 * 1024 + virt / 4096 % 1024) in rw (one.0, one.1, two.0, two.1) refl

-- What a walk gives for the entries that it met.
abbrev pub through : (pde pte off : ℕ) → Option ℕ
through pde pte off =
    if pde % 2 == 0 then none else if pte % 2 == 0 then none else some (pte / 4096 * 4096 + off)

pub through-hit :
    (q t t' e off : ℕ) (hit : Bool)
    → (q % 2 ≡ 1 → t' ≡ (if hit then e else t))
    → (hit ≡ true → q % 2 ≡ 1)
    → through q t' off ≡ (
        if hit
        then (if e % 2 == 0 then none else some (e / 4096 * 4096 + off))
        else through q t off)
through-hit q t t' e off hit word on = elim (Bool-cases (q % 2 == 0)) [
  | inl gone ↦ ground (arith, on)
  | inr there ↦
      let new : t' ≡ (if hit then e else t) = word (ground arith) in
      ground (arith, ap (λ (x : ℕ). x / 4096) new, new)
]

first_hit : (x i y j : ℕ) → (x == i) && (y == j) ≡ true → x ≡ i
first_hit x i y j b = ground arith

module _ {s : Vmm} (p : IsPaged s) where
  -- New flags of an entry of the directory: every walk is the same.
  pub flags-IsPaged :
      (i e : ℕ)
      → i < 1023
      → e < 2 ^ 32
      → e / 4096 ≡ pde s i / 4096
      → e % 2 ≡ pde s i % 2
      → let s' = record s { memory = update s.memory (s.cr3 / 4096 * 1024 + i) e } in
        IsPaged s' × ((a : ℕ) → walk s'.memory s.cr3 a ≡ walk s.memory s.cr3 a)
  flags-IsPaged i e h small frame on =
      let s' = record s { memory = update s.memory (s.cr3 / 4096 * 1024 + i) e } in
      let same : (w : ℕ)
          → (s'.memory w / 4096 ≡ s.memory w / 4096) × (s'.memory w % 2 ≡ s.memory w % 2) =
        λ w. (ground (arith, frame), ground (arith, on)) in
      (
        record {
          frames = p.frames;
          aligned = p.aligned;
          words = λ w. ground (arith, p.words w);
          itself = (same _).0 ∙ p.itself;
          present = (same _).1 ∙ p.present;
          in_use = p.in_use;
          tables_in_use = λ k lt on'. rw (same _).0 (p.tables_in_use k lt (sym (same _).1 ∙ on'));
          tables_apart = λ k lt on'. rw (same _).0 (p.tables_apart k lt (sym (same _).1 ∙ on'));
          tables_differ = λ k l lt lt' ne x y.
              rw ((same (s.cr3 / 4096 * 1024 + k)).0, (same (s.cr3 / 4096 * 1024 + l)).0)
                (p.tables_differ k l lt lt' ne (sym (same _).1 ∙ x) (sym (same _).1 ∙ y));
        },
        λ a. walk-same s.memory s'.memory s.cr3 a same,
      )

  -- An entry of the table that entry `i` of the directory points to.
  pub entry-IsPaged :
      (i j e : ℕ)
      → i < 1023
      → j < 1024
      → pde s i % 2 ≡ 1
      → e < 2 ^ 32
      → let s' = record s { memory = update s.memory (pde s i / 4096 * 1024 + j) e } in
        IsPaged s'
        × ((a : ℕ)
            → a / 2 ^ 22 < 1023
            → walk s'.memory s.cr3 a ≡ (
                if (a / 2 ^ 22 == i) && (a / 4096 % 1024 == j)
                then (if e % 2 == 0 then none else some (e / 4096 * 4096 + a % 4096))
                else walk s.memory s.cr3 a))
  entry-IsPaged i j e h k on small =
      let s' = record s { memory = update s.memory (pde s i / 4096 * 1024 + j) e } in
      let same : (l : ℕ) → l < 1024 → pde s' l ≡ pde s l =
        λ l lt. ground (arith, p.tables_apart i h on) in
      (
        record {
          frames = p.frames;
          aligned = p.aligned;
          words = λ w. ground (arith, p.words w);
          itself = ap (λ (x : ℕ). x / 4096) (same 1023 (omega arith)) ∙ p.itself;
          present = ap (λ (x : ℕ). x % 2) (same 1023 (omega arith)) ∙ p.present;
          in_use = p.in_use;
          tables_in_use = λ l lt. rw (same l (omega arith)) (p.tables_in_use l lt);
          tables_apart = λ l lt. rw (same l (omega arith)) (p.tables_apart l lt);
          tables_differ = λ l l' lt lt'.
              rw (same l (omega arith), same l' (omega arith)) (p.tables_differ l l' lt lt');
        },
        λ a low.
            let x = a / 2 ^ 22 in
            let y = a / 4096 % 1024 in
            let x_same = same x (omega arith) in
            let before = walk-entries s.memory s.cr3 a x y (a % 4096) refl refl refl in
            let after = walk-entries s'.memory s.cr3 a x y (a % 4096) refl refl refl in
            let word : pde s x % 2 ≡ 1
                → s'.memory (pde s x / 4096 * 1024 + y)
                  ≡ (if (x == i) && (y == j) then e else s.memory (pde s x / 4096 * 1024 + y)) =
              λ on'. elim (ℕ_discrete x i) [
                | yes same_x ↦ ground (arith, ap (pde s) same_x)
                | no ne ↦ ground (arith, p.tables_differ x i low h ne on' on)
              ] in
            let hit : (x == i) && (y == j) ≡ true → pde s x % 2 ≡ 1 =
              λ b. ap (λ (z : ℕ). pde s z % 2) (first_hit x i y j b) ∙ on in
            after
            ∙ ap (λ (q : ℕ). through q (s'.memory (q / 4096 * 1024 + y)) (a % 4096)) x_same
            ∙ through-hit (pde s x) (s.memory (pde s x / 4096 * 1024 + y))
                (s'.memory (pde s x / 4096 * 1024 + y)) e (a % 4096) ((x == i) && (y == j)) word hit
            ∙ ap
                (λ (r : Option ℕ).
                  if (x == i) && (y == j)
                  then (if e % 2 == 0 then none else some (e / 4096 * 4096 + a % 4096))
                  else r)
                (sym before),
      )
