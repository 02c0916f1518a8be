-- ===== src/SocketHash/Tests.antt =====
-- A table of two places.
use swift_srt.Base.{ℕ, ◌≡◌, some, List, [], ◌∷◌, arith}
use swift_srt.SocketHash.{lookup}
use swift_srt.SocketHash.Stacks.{Operation, table, lookup-stacks}

-- The sockets 7 and 8 for the ID 1 and 9 for the ID 3, which has the same place; then 8 is removed.
abbrev some_sockets : List (Operation ℕ)
some_sockets =
    Operation.removed 1
    ∷ Operation.inserted 3 9
    ∷ Operation.inserted 1 8
    ∷ Operation.inserted 1 7
    ∷ []

lookup-stacks_example : lookup 1 (table 2 some_sockets) ≡ some 7
lookup-stacks_example = lookup-stacks 2 some_sockets 1 (omega arith)
