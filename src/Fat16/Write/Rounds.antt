-- ===== src/Fat16/Write/Rounds.antt =====
-- The loop of `fat16_vfs_write` inside a chain that is long enough puts the buffer into the clusters
-- of the chain.
use yotos.Base.{
  ℕ, zero, suc, ◌+◌, ◌-◌, ◌*◌, ◌/◌, ◌%◌, ◌^◌, ◌≤◌, ◌<◌, ◌≡◌, refl, sym, ap, ◌∙◌, inl, inr, true,
  ◌&&◌, Option, some, List, [], ◌∷◌, arith, ltb, leb, if◌then◌else◌, Bool-cases, length, drop, u32,
  ltb→lt, lt→ltb,
}
use native.Mathlib.Nat.{mod-lt, div-add-mod', div-lt_iff_lt-mul}
use yotos.Fat16.{Bytes, Volume}
use yotos.Fat16.File.{cluster_bytes, read_cluster}
use yotos.Fat16.File.Clusters.{chain_byte, read_cluster-cluster_byte, chain_byte-drop}
use yotos.Fat16.Table.{is_data_cluster, fat_entry}
use yotos.Fat16.Table.Chain.{IsChain, mem-ne}
use yotos.Fat16.Write.{seek_loop, write_cluster, patch, write_round, write_loop}
use yotos.Fat16.Write.Clusters.{
  HasLayout, write_cluster-layout, fat_entry-write_cluster, cluster_byte-write_cluster,
  other_sector,
}
use yotos.Fat16.Write.Content.{
  Written, Written-HasLayout, Written-IsChain, Written-compose, mem-drop, chain_byte-write_cluster,
}

-- Steps inside a chain take no new cluster.
pub seek_loop-IsChain :
    (n c : ℕ) (v : Volume) (cs : List ℕ)
    → IsChain v c cs
    → n < length cs
    → (d : ℕ) × (rest : List ℕ) × (seek_loop n c v ≡ (some d, v))
      × (drop n cs ≡ d ∷ rest)
      × (is_data_cluster d ≡ true)
unfolding seek_loop
seek_loop-IsChain n c v [] k h = absurd (omega arith)
seek_loop-IsChain zero c v (x ∷ cs) k h = (x, cs, rw k.0, refl, k.1)
seek_loop-IsChain (suc n) c v (x ∷ []) k h = absurd (omega arith)
seek_loop-IsChain (suc n) c v (x ∷ y ∷ cs) k h =
    let (d, rest, e, at, on) = seek_loop-IsChain n (fat_entry x v) v (y ∷ cs) k.4 (omega arith) in
    let next : is_data_cluster (fat_entry x v) ≡ true = rw k.4.0 k.4.1 in
    (d, rest, rw (k.0, next) e, at, on)

-- A patched buffer, seen from the places of the file.
patched :
    (k base cb inner copy offset done old : ℕ) (buf cbuf : Bytes)
    → offset + done ≡ base + inner
    → inner + copy ≤ cb
    → (base ≤ k → k < base + cb → cbuf (k - base) ≡ old)
    → (if leb base k && ltb k (base + cb) then patch inner copy done buf cbuf (k - base) else old)
      ≡ (if leb (offset + done) k && ltb k (offset + (done + copy)) then buf (k - offset) else old)
unfolding patch
patched k base cb inner copy offset done old buf cbuf place fits held =
    elim (Bool-cases (leb (offset + done) k && ltb k (offset + (done + copy)))) [
      | inl new ↦
          let index : done + (k - base - inner) ≡ k - offset = ground arith in
          ground (arith, ap buf index)
      | inr kept ↦ elim (Bool-cases (leb base k && ltb k (base + cb))) [
        | inl here ↦ ground (arith, held)
        | inr away ↦ ground arith
      ]
    ]

-- One round of the loop.
round-Written :
    (v : Volume)
    → HasLayout v
    → (c n inner copy offset done d : ℕ) (buf cbuf : Bytes) (cs rest : List ℕ) → IsChain v c cs
    → drop n cs ≡ d ∷ rest
    → n ≤ length cs
    → is_data_cluster d ≡ true
    → offset + done ≡ n * cluster_bytes v + inner
    → inner + copy ≤ cluster_bytes v
    → Written v cs
        (offset + done)
        (offset + (done + copy))
        (λ k. buf (k - offset))
        (write_cluster d (patch inner copy done buf (read_cluster d v cbuf)) v)
unfolding chain_byte
round-Written v lay c n inner copy offset done d buf cbuf cs rest ch at inside on place fits =
    let full = patch inner copy done buf (read_cluster d v cbuf) in
    let cb = cluster_bytes v in
    record {
      layout = write_cluster-layout lay d full on;
      entries = λ e has. fat_entry-write_cluster lay d e full on has;
      others = λ e k on' out lt.
          cluster_byte-write_cluster lay d e k full on on' lt
          ∙ ground (arith, mem-ne e d cs out (mem-drop n d cs rest at));
      bytes = λ k lt.
          chain_byte-write_cluster n v lay d k c full cs rest on ch at lt
          ∙ patched k (n * cluster_bytes v) (cluster_bytes v) inner copy offset done
              (chain_byte v cs k) buf (read_cluster d v cbuf) place fits (held k);
      elsewhere =
          λ l out j. other_sector lay d full l j on (λ k. out d k (mem-drop n d cs rest at));
    }
  where
    held :
        (k : ℕ)
        → n * cluster_bytes v ≤ k
        → k < n * cluster_bytes v + cluster_bytes v
        → read_cluster d v cbuf (k - n * cluster_bytes v) ≡ chain_byte v cs k
    held k low high =
        let j = k - n * cluster_bytes v in
        let split : chain_byte v cs k ≡ chain_byte v (drop n cs) j =
          ap (chain_byte v cs) (omega arith) ∙ chain_byte-drop n j v cs inside in
        let first : ltb j (cluster_bytes v) ≡ true = lt→ltb j (cluster_bytes v) (omega arith) in
        read_cluster-cluster_byte d v cbuf j (omega arith) ∙ sym (split ∙ rw at (rw first refl))

-- The steps of a round whose cluster is found.
write_round-seek_loop :
    (cur size done c d : ℕ) (buf cbuf : Bytes) (v : Volume)
    → seek_loop (cur / cluster_bytes v) c v ≡ (some d, v)
    → let inner = cur % cluster_bytes v in
      let avail = cluster_bytes v - inner in
      let copy = if ltb avail (size - done) then avail else size - done in
      let full = patch inner copy done buf (read_cluster d v cbuf) in
      write_round cur size done c buf cbuf v ≡ (some (copy, full), write_cluster d full v)
unfolding write_round
write_round-seek_loop cur size done c d buf cbuf v e =
    let reached = ap (λ (r : Option ℕ × Volume). r.0) e in
    let left = ap (λ (r : Option ℕ × Volume). r.1) e in rw (write_round, reached, left) refl

write_loop-write_round :
    (fuel offset size done c copy : ℕ) (buf cbuf full : Bytes) (v v1 : Volume)
    → ltb done size ≡ true
    → u32 (offset + done) ≡ offset + done
    → write_round (offset + done) size done c buf cbuf v ≡ (some (copy, full), v1)
    → write_loop (suc fuel) offset size done c buf cbuf v
      ≡ write_loop fuel offset size (done + copy) c buf full v1
unfolding write_loop
write_loop-write_round fuel offset size done c copy buf cbuf full v v1 going exact e =
    let whole = ap (λ (cur : ℕ). write_round cur size done c buf cbuf v) exact ∙ e in
    let round = ap (λ (r : Option (ℕ × Bytes) × Volume). r.0) whole in
    let left = ap (λ (r : Option (ℕ × Bytes) × Volume). r.1) whole in rw (going, round, left) refl

-- Where one more step along the chain is, a write begins in the chain.
pub write_loop-Written :
    (fuel offset size done c : ℕ) (buf cbuf : Bytes) (v : Volume) (cs : List ℕ)
    → HasLayout v
    → IsChain v c cs
    → done ≤ size
    → offset + size ≤ length cs * cluster_bytes v
    → offset + size < 2 ^ 32
    → size - done < fuel
    → (w : Volume) × (write_loop fuel offset size done c buf cbuf v ≡ some (size, w))
      × Written v cs (offset + done) (offset + size) (λ k. buf (k - offset)) w
unfolding write_loop
write_loop-Written zero offset size done c buf cbuf v cs lay ch le room small enough =
    absurd (omega arith)
write_loop-Written (suc fuel) offset size done c buf cbuf v cs lay ch le room small enough =
    elim (Bool-cases (ltb done size)) [
      | inr finished ↦
          let all : done ≡ size = ground arith in (v, rw (finished, all) refl, nothing all)
      | inl going ↦
          let cb = cluster_bytes v in
          let exact : u32 (offset + done) ≡ offset + done = ground arith in
          let positive : ltb 0 cb ≡ true = ground arith in
          let n = (offset + done) / cb in
          let inner = (offset + done) % cb in
          let avail = cb - inner in
          let copy = if ltb avail (size - done) then avail else size - done in
          let fits : inner + copy ≤ cb =
            ground (arith, mod-lt (offset + done) (ltb→lt 0 cb positive)) in
          let more_done : 0 < copy =
            ground (arith, mod-lt (offset + done) (ltb→lt 0 cb positive)) in
          let bounded : copy ≤ size - done = ground arith in
          let inside : n < length cs = (div-lt_iff_lt-mul (omega arith)).1 (omega arith) in
          let (d, rest, e, at, on) = seek_loop-IsChain n c v cs ch inside in
          let full = patch inner copy done buf (read_cluster d v cbuf) in
          let one =
            round-Written v lay c n inner copy offset done d buf cbuf cs rest ch at (omega arith) on
              (sym (div-add-mod' (offset + done) cb)) fits in
          let v1 = write_cluster d full v in
          let size_kept : cluster_bytes v1 ≡ cb = ap cluster_bytes one.layout in
          let (w, eq, more) =
            write_loop-Written fuel offset size (done + copy) c buf full v1 cs
              (Written-HasLayout v v1 cs (offset + done) (offset + (done + copy))
                (λ k. buf (k - offset)) one lay)
              (Written-IsChain v v1 c cs (offset + done) (offset + (done + copy))
                (λ k. buf (k - offset)) one ch)
              (omega arith) (rw size_kept room) small (omega arith) in
          (
            w,
            write_loop-write_round fuel offset size done c copy buf cbuf full v v1 going exact
                  (write_round-seek_loop (offset + done) size done c d buf cbuf v e)
                ∙ eq,
            Written-compose v v1 w cs (offset + done) (offset + (done + copy)) (offset + size)
                (λ k. buf (k - offset)) (omega arith) (omega arith) one more,
          )
    ]
  where
    nothing : done ≡ size → Written v cs (offset + done) (offset + size) (λ k. buf (k - offset)) v
    nothing all = record {
      layout = refl;
      entries = λ e has. refl;
      others = λ d k on out lt. refl;
      bytes = λ k lt. ground arith;
      elsewhere = λ l out j. refl;
    }
