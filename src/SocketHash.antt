-- ===== src/SocketHash.antt =====
-- `CHash` of Sources/CSRT/queue.cpp, the table of sockets by their ID. An ID is not negative, and the size
-- of a table that is used is not 0.
pub mod Stacks
mod Tests
use swift_srt.Base.{ℕ, zero, suc, ◌%◌, Option, none, some, List, [], ◌∷◌, if◌then◌else◌, ◌==◌, set}

-- `CBucket`: an ID and its socket; the chain of `m_pNext` is the list.
pub record Bucket (U : Type 0) : Type 0 where
  pub id : ℕ
  pub udt : U

pub record SocketHash (U : Type 0) : Type 0 where
  pub bucket : ℕ → List (Bucket U)
  pub hash_size : ℕ

-- `init`
unfoldable pub init : (U : Type 0) → ℕ → SocketHash U
init U size = record { bucket = λ i. []; hash_size = size }

-- The loop of `lookup`; `none` is NULL.
unfoldable pub lookup_from : {U : Type 0} → ℕ → List (Bucket U) → Option U
lookup_from id [] = none
lookup_from id (b ∷ bs) = let rest = lookup_from id bs in if id == b.id then some b.udt else rest

-- `lookup`
unfoldable pub lookup : {U : Type 0} → ℕ → SocketHash U → Option U
unfolding lookup_from
lookup id h = lookup_from id (h.bucket (id % h.hash_size))

-- `insert`
unfoldable pub insert : {U : Type 0} → ℕ → U → SocketHash U → SocketHash U
insert id u h =
    let place = id % h.hash_size in
    record h { bucket = set h.bucket place (record { id = id; udt = u } ∷ h.bucket place) }

-- The loop of `remove`.
unfoldable pub remove_from : {U : Type 0} → ℕ → List (Bucket U) → List (Bucket U)
remove_from id [] = []
remove_from id (b ∷ bs) = let rest = remove_from id bs in if id == b.id then bs else b ∷ rest

-- `remove`
unfoldable pub remove : {U : Type 0} → ℕ → SocketHash U → SocketHash U
unfolding remove_from
remove id h =
    let place = id % h.hash_size in
    record h { bucket = set h.bucket place (remove_from id (h.bucket place)) }
