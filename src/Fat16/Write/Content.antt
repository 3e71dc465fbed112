-- ===== src/Fat16/Write/Content.antt =====
-- What a written part of a chain is: its bytes change, and nothing else of the volume.
use yotos.Base.{
  ℕ, zero, suc, ◌+◌, ◌-◌, ◌*◌, ◌/◌, ◌≤◌, ◌<◌, ◌≡◌, ◌≢◌, u32, refl, ap, ◌∙◌, inl, inr, true, false,
  ◌&&◌, List, [], ◌∷◌, arith, ltb, leb, ◌==◌, if◌then◌else◌, Bool-cases, length, get_or, drop,
  ltb→lt,
}
use mathlib.Core.Path.{subst}
use native.Mathlib.Nat.{suc-mul}
use yotos.Fat16.{Bytes, Volume}
use yotos.Fat16.File.{cluster_bytes, cluster_lba}
use yotos.Fat16.File.Clusters.{cluster_byte, chain_byte}
use yotos.Fat16.Table.{is_data_cluster, fat_entry}
use yotos.Fat16.Table.Chain.{IsChain, IsChain-frame, mem, mem-ne}
use yotos.Fat16.Table.Entry.{HasEntry}
use yotos.Fat16.Write.{write_cluster}
use yotos.Fat16.Write.Clusters.{HasLayout, write_cluster-layout, cluster_byte-write_cluster}

-- The volume `w` is the volume `v` after the places `first` to `last` of the chain `cs` are written
-- with `content`, a function of the place.
pub record Written (v : Volume) (cs : List ℕ) (first last : ℕ) (content : Bytes) (w : Volume)
    : Type 0 where
  pub layout : w ≡ record v { disk = w.disk }
  pub entries : (e : ℕ) → HasEntry v e → fat_entry e w ≡ fat_entry e v
  pub others :
      (d k : ℕ)
      → is_data_cluster d ≡ true
      → mem d cs ≡ false
      → k < cluster_bytes v
      → cluster_byte w d k ≡ cluster_byte v d k
  pub bytes :
      (k : ℕ)
      → k < length cs * cluster_bytes v
      → chain_byte w cs k ≡ (if leb first k && ltb k last then content k else chain_byte v cs k)
  pub elsewhere :
      (l : ℕ)
      → ((c k : ℕ) → mem c cs ≡ true → k < cluster_bytes v → u32 (cluster_lba c v + k / 512) ≢ l)
      → (j : ℕ) → w.disk l j ≡ v.disk l j

-- Layout and chain are kept.
pub Written-HasLayout :
    (v w : Volume) (cs : List ℕ) (first last : ℕ) (content : Bytes)
    → Written v cs first last content w
    → HasLayout v
    → HasLayout w
Written-HasLayout v w cs first last content r lay = rw r.layout (record {
  some_sectors = lay.some_sectors;
  byte = lay.byte;
  behind = lay.behind;
  ends = lay.ends;
})

pub Written-IsChain :
    (v w : Volume) (c : ℕ) (cs : List ℕ) (first last : ℕ) (content : Bytes)
    → Written v cs first last content w
    → IsChain v c cs
    → IsChain w c cs
Written-IsChain v w c cs first last content r k =
    IsChain-frame v w c cs (ap (λ (x : Volume). x.bpb) r.layout) (λ d h m. r.entries d h) k

-- One write behind another.
pub Written-compose :
    (v v1 w : Volume) (cs : List ℕ) (first middle last : ℕ) (content : Bytes)
    → first ≤ middle
    → middle ≤ last
    → Written v cs first middle content v1
    → Written v1 cs middle last content w
    → Written v cs first last content w
Written-compose v v1 w cs first middle last content h h' a b =
    let size : cluster_bytes v1 ≡ cluster_bytes v = ap cluster_bytes a.layout in
    let fats : v1.bpb ≡ v.bpb = ap (λ (x : Volume). x.bpb) a.layout in
    let lba : (c : ℕ) → cluster_lba c v1 ≡ cluster_lba c v = λ c. ap (cluster_lba c) a.layout in
    record {
      layout = b.layout ∙ ap (λ (x : Volume). record x { disk = w.disk }) a.layout;
      entries = λ e has. b.entries e (rw fats has) ∙ a.entries e has;
      others = λ d k on out lt. b.others d k on out (rw size lt) ∙ a.others d k on out lt;
      bytes = λ k lt.
          let one = a.bytes k lt in let two = b.bytes k (rw size lt) in ground (arith, one, two);
      elsewhere = λ l out j.
          b.elsewhere l (λ c k m lt. rw (lba c) (out c k m (subst (λ n. k < n) size lt))) j
          ∙ a.elsewhere l out j;
    }

pub mem-drop : (n d : ℕ) (cs rest : List ℕ) → drop n cs ≡ d ∷ rest → mem d cs ≡ true
mem-drop zero d [] rest e = absurd (omega (arith, ap length e))
mem-drop (suc n) d [] rest e = absurd (omega (arith, ap length e))
mem-drop zero d (x ∷ cs) rest e =
    let head : x ≡ d = ap (λ (l : List ℕ). get_or l 0 0) e in ground (arith, head)
mem-drop (suc n) d (x ∷ cs) rest e = ground (arith, mem-drop n d cs rest e)

-- A chain without the written cluster.
pub chain_byte-outside :
    (v : Volume)
    → HasLayout v
    → (d k c : ℕ) (buf : Bytes) (cs : List ℕ) → is_data_cluster d ≡ true
    → IsChain v c cs
    → mem d cs ≡ false
    → k < length cs * cluster_bytes v
    → chain_byte (write_cluster d buf v) cs k ≡ chain_byte v cs k
unfolding chain_byte
chain_byte-outside v lay d k c buf [] on ch out lt = refl
chain_byte-outside v lay d k c buf (x ∷ cs) on ch out lt =
    let size : cluster_bytes (write_cluster d buf v) ≡ cluster_bytes v =
      ap cluster_bytes (write_cluster-layout lay d buf on) in
    let differs : (d == x) ≡ false = ground arith in
    elim (Bool-cases (ltb k (cluster_bytes v))) [
      | inl here ↦
          rw (size, here)
            (cluster_byte-write_cluster lay d x k buf on ch.1 (ltb→lt k (cluster_bytes v) here)
              ∙ rw differs refl)
      | inr there ↦
          rw (size, there)
            (chain_byte-outside v lay d (k - cluster_bytes v) (fat_entry x v) buf cs on ch.4
              (ground arith) (ground (arith, suc-mul (length cs) (cluster_bytes v))))
    ]

-- A chain whose cluster number `n` is written.
pub chain_byte-write_cluster :
    (n : ℕ) (v : Volume)
    → HasLayout v
    → (d k c : ℕ) (buf : Bytes) (cs rest : List ℕ) → is_data_cluster d ≡ true
    → IsChain v c cs
    → drop n cs ≡ d ∷ rest
    → k < length cs * cluster_bytes v
    → chain_byte (write_cluster d buf v) cs k ≡ (
        if leb (n * cluster_bytes v) k && ltb k (n * cluster_bytes v + cluster_bytes v)
        then buf (k - n * cluster_bytes v)
        else chain_byte v cs k)
unfolding chain_byte
chain_byte-write_cluster n v lay d k c buf [] rest on ch at lt = absurd (omega arith)
chain_byte-write_cluster zero v lay d k c buf (x ∷ cs) rest on ch at lt =
    let size : cluster_bytes (write_cluster d buf v) ≡ cluster_bytes v =
      ap cluster_bytes (write_cluster-layout lay d buf on) in
    let head : x ≡ d = ap (λ (l : List ℕ). get_or l 0 0) at in
    let same : (d == x) ≡ true = ground arith in
    elim (Bool-cases (ltb k (cluster_bytes v))) [
      | inl here ↦
          rw (size, here)
            (cluster_byte-write_cluster lay d x k buf on ch.1 (ltb→lt k (cluster_bytes v) here)
              ∙ ground (arith, same))
      | inr there ↦
          rw (size, there)
            (chain_byte-outside v lay d (k - cluster_bytes v) (fat_entry x v) buf cs on ch.4
                (ground arith) (ground (arith, suc-mul (length cs) (cluster_bytes v)))
              ∙ ground arith)
    ]
chain_byte-write_cluster (suc n) v lay d k c buf (x ∷ cs) rest on ch at lt =
    let size : cluster_bytes (write_cluster d buf v) ≡ cluster_bytes v =
      ap cluster_bytes (write_cluster-layout lay d buf on) in
    let inside = mem-drop n d cs rest at in
    let differs : (d == x) ≡ false = ground (arith, mem-ne x d cs ch.3 inside) in
    elim (Bool-cases (ltb k (cluster_bytes v))) [
      | inl here ↦
          rw (size, here)
            (cluster_byte-write_cluster lay d x k buf on ch.1 (ltb→lt k (cluster_bytes v) here)
              ∙ ground (arith, differs, suc-mul n (cluster_bytes v)))
      | inr there ↦
          let ih =
            chain_byte-write_cluster n v lay d (k - cluster_bytes v) (fat_entry x v) buf cs rest on
              ch.4 at (ground (arith, suc-mul (length cs) (cluster_bytes v))) in
          rw (size, there) (ih ∙ ground (arith, suc-mul n (cluster_bytes v)))
    ]
