-- ===== src/SndUList/Locations.antt =====
-- Each node in the heap knows its place.
use swift_srt.Base.{ℕ, ◌<◌, ◌≡◌, some}
use swift_srt.SndUList.{SndUList}

pub record IsPlaced (l : SndUList) : Type 0 where
  pub placed : (i : ℕ) → i < l.count → l.heap_loc (l.heap i) ≡ some i
  pub present : (n i : ℕ) → l.heap_loc n ≡ some i → (i < l.count) × (l.heap i ≡ n)
