-- ===== src/Fat16/FileTests.antt =====
-- A file of 600 bytes in the clusters 2 and 3 of the small volume, read and written with a new heap.
use yotos.Base.{
  ℕ, ◌+◌, ◌-◌, ◌*◌, ◌/◌, ◌<◌, ◌≡◌, refl, ◌≢◌, true, some, List, [], ◌∷◌, arith, min, length, get_or,
  u32,
}
use yotos.Fat16.{Bytes, Volume}
use yotos.Fat16.File.{cluster_bytes, vfs_read}
use yotos.Fat16.File.Read.{Content, vfs_read-Content}
use yotos.Fat16.Table.Chain.{mem}
use yotos.Fat16.Tests.{volume, volume-IsChain}
use yotos.Fat16.Write.{grow, vfs_write}
use yotos.Base.Int.{pos}
use yotos.Fat16.Write.Entry.{IsEntered}
use yotos.Fat16.Write.Clusters.{HasLayout}
use yotos.Fat16.Write.RoundTrip.{Apart, Rewritten, vfs_write-Rewritten, vfs_read-vfs_write}
use yotos.Kheap.{Store}
use yotos.Kheap.Blocks.{Block, first_fit, live, IsCoalesced}
use yotos.Kheap.Chain.{IsHeap}
use yotos.Kheap.Tests.{start, fresh, one_block, fresh-IsHeap, one_block-IsCoalesced}
use yotos.Vfs.{VfsNode, VfsOps}

abbrev clusters : List ℕ
clusters = 2 ∷ 3 ∷ []

abbrev file : VfsNode
file = record {
  name = [];
  flags = 1;
  size = 600;
  inode = 2;
  ops = VfsOps.file_ops;
  dir_lba = 3;
  dir_index = 0;
}

abbrev zero_bytes : Bytes
zero_bytes _ = 0

room_run : (first_fit 512 start one_block).0 ≡ start + 16
unfolding first_fit
room_run = refl

room : (first_fit (cluster_bytes volume) start one_block).0 ≢ 0
room e = absurd (omega (arith, e, room_run))

vfs_read-Content_example :
    (l : List ℕ) × (m' : Store) × (bs' : List Block) × (vfs_read start file 500 200 zero_bytes
        volume fresh
      ≡ some (some l, m'))
    × (length l ≡ min 200 (600 - 500))
    × Content volume clusters 500 l
    × IsHeap start m' bs'
    × IsCoalesced bs'
    × (live start bs' ≡ live start one_block)
vfs_read-Content_example =
    vfs_read-Content start 500 200 file zero_bytes volume clusters fresh one_block refl
      (omega arith, omega arith) volume-IsChain (omega arith) (omega arith) (omega arith)
      fresh-IsHeap one_block-IsCoalesced room

volume-HasLayout : HasLayout volume
volume-HasLayout = record {
  some_sectors = omega arith;
  byte = omega arith;
  behind = omega arith;
  ends = omega arith;
}

root-Apart : Apart volume clusters 3
root-Apart = record { clusters = apart_data; table = λ e h same. absurd (omega arith) }
  where
    apart_data :
        (c k : ℕ) → mem c clusters ≡ true → k < 512 → u32 (u32 (4 + (c - 2) * 1) + k / 512) ≢ 3
    apart_data c k inside lt same = absurd (ground (arith, inside, same))

vfs_write-Rewritten_example :
    (w : Volume) × (m' : Store) × (bs' : List Block) × (vfs_write start file 500 20
        (λ j. j)
        zero_bytes
        volume
        fresh
      ≡ some (pos 20, grow 520 file, w, m'))
    × Rewritten volume 2 clusters 500 20 (λ j. j) w
    × IsEntered (grow 520 file) volume w
    × IsHeap start m' bs'
    × IsCoalesced bs'
    × (live start bs' ≡ live start one_block)
vfs_write-Rewritten_example =
    vfs_write-Rewritten start 500 20 file (λ j. j) zero_bytes volume clusters fresh one_block refl
      volume-HasLayout volume-IsChain (omega arith) (omega arith) (omega arith) (omega arith)
      root-Apart fresh-IsHeap one_block-IsCoalesced room

vfs_read-vfs_write_example :
    (node' : VfsNode) × (w : Volume) × (m' : Store) × (l : List ℕ) × (m3 : Store) × (vfs_write start
        file 500 20
        (λ j. j)
        zero_bytes
        volume
        fresh
      ≡ some (pos 20, node', w, m'))
    × (vfs_read start node' 500 20 zero_bytes w fresh ≡ some (some l, m3))
    × (length l ≡ 20)
    × ((i : ℕ) → i < 20 → get_or l i 0 ≡ i)
vfs_read-vfs_write_example =
    vfs_read-vfs_write start 500 20 file (λ j. j) zero_bytes zero_bytes volume clusters fresh fresh
      one_block one_block refl volume-HasLayout volume-IsChain (omega arith) (omega arith)
      (omega arith) (omega arith) (omega arith) root-Apart fresh-IsHeap one_block-IsCoalesced room
      fresh-IsHeap one_block-IsCoalesced room
