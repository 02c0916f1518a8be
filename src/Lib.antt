-- ===== src/Lib.antt =====
-- Verification of the SRT protocol library that the Swift package wraps (Sources/CSRT).
--
-- Conventions. An `int32_t` or `int` is an integer `ℤ` whose operations are exact;
-- `cookie_contest` and `seqlen`, which can go past an `int32_t`, wrap. A `size_t`, an index or a
-- byte is a natural number. A C++ array is a function of the index (`Base.set` writes it). Locks,
-- logging and memory allocation are left out; the clock is an argument of the operation that reads
-- it.
--
-- Files.
--
-- - `Base` and its children: the shared tests, lists, arrays and integers.
-- - `SeqNo`: `CSeqNo` and `CAckNo` of Sources/CSRT/include/common.h, one function for each static
--   method. `SeqNo.Unwrapped` and `SeqNo.Compare` relate them to the numbers of a stream that
--   never wraps, `SeqNo.Range` has their ranges.
-- - `FreshLoss`: `CRcvFreshLoss` of Sources/CSRT/list.cpp. `revoke` and `revoke_range` are its
--   two `revoke` methods; `FreshLoss.Laws` says what is left of a record.
-- - `AckWindow`: `ACKWindowTools` and `CACKWindow` of Sources/CSRT/window.cpp and
--   include/window.h. `AckWindow.Contents` is the window as a list, `AckWindow.Refine` the
--   refinement. The loops recur on the rounds that are left, so no fuel can run out.
-- - `SndUList`: `CSndUList` of Sources/CSRT/queue.cpp, a binary heap of sockets. The array is not
--   bounded here: that there is room for one more node is a hypothesis where it matters. The
--   loops take the index or the distance to the end as fuel, and the theorems on the heap order
--   show that this suffices. What `packData` returns is an argument of `pop`. `SndUList.Order`
--   and `SndUList.Locations` are the two invariants, `SndUList.Insert`, `SndUList.Remove` and
--   `SndUList.Pop` the operations.
-- - `RcvLossList`: `CRcvLossList` of Sources/CSRT/list.cpp, ranges of lost packets in a doubly
--   linked list in a circular array. `insert_first`, `extend_tail` and `append_node` are the
--   parts of `insert`; `remove_start` (with `unlink_head`, `unlink` and `shift_node`) and
--   `remove_inside` (with `split_node`) are those of `remove`. `RcvLossList.Ranges` is the
--   abstract list of ranges and `RcvLossList.Layout` says when an array holds it. The walks along
--   the list take the size of the array as fuel, which no valid list exceeds since its ranges
--   have different places. An access through a pointer that is -1 goes to place 0 here.
--   `remove_range` has no result where the loop of the code does not end.
-- - `SndLossList`: `CSndLossList` of Sources/CSRT/list.cpp, the same ranges in a singly linked
--   list. `insert` tries its cases (`insert_before`, `insert_at`, `insert_behind`, `insert_head`)
--   and then runs `coalesce`; `remove` uses `remove_head`, or `cut_start` or `cut_inside` and
--   then `clear_until`; `pop_lost_seq` is `popLostSeq`. The fuel of the walks is the size of the
--   array, as above.
-- - `LossReport`: the UMSG_LOSSREPORT case of `CUDT::processCtrl` in Sources/CSRT/core.cpp, as
--   the calls of `CSndLossList::insert` that it makes and the exit for a wrong number. The
--   statistics and the congestion controller's call are left out. `LossReport.Delivers` joins it
--   with the words of `CRcvLossList::getLossArray`.
-- - `HandShake`: `CHandShake` and `SrtHSRequest` of Sources/CSRT/handshake.cpp and
--   include/handshake.h. A buffer is a function from the index of a 32-bit word to its value.
--   `HandShake.RoundTrip` joins writing and reading.
-- - `SndBuffer`: `CSndBuffer` of Sources/CSRT/buffer.cpp. `add_buffer` is `addBuffer` with its
--   loops `ensure_room`, whose fuel is one more than the packets wanted since every round adds a
--   block, and `fill`; `ack_data` and `drop_late_data` are `ackData` and `dropLateData` with the
--   loops `pass` and `late_from`. The flags and the number of a message are fields instead of
--   bits of one word. `SndBuffer.Ack` has the invariant, `SndBuffer.Late` the packets that are
--   too old.
-- - `Rendezvous`: the rendezvous connection in Sources/CSRT/core.cpp, `cookieContest`,
--   `rendezvousSwitchState` and `processRendezvous`, each a function. A handshake is its request
--   type and whether it has extension flags. The making and reading of the extensions,
--   `prepareConnectionObjects` and `postConnect` are answers given to `process_rendezvous`
--   (`Checks`). `Rendezvous.Peers` has two sockets and the handshakes on the way between them, as
--   a step relation: a handshake may come late, in another order, several times or not at all,
--   but none is lost in the sense that it can no longer come, and all that the peers do besides
--   succeeds. `Rendezvous.Tables` has tests that go through all states, `Rendezvous.Checked` what
--   a peer does where something fails, and `Rendezvous.Safe` and `Rendezvous.Connects` are about
--   the states that the two reach.
-- - `TxKeys`: the keys of a sender, Sources/CSRT/hcrypt_ctx_tx.c and what hcrypt.c and
--   hcrypt_tx.c do with them. Each function hcryptCtx_Tx_... and HaiCrypt_Tx_... has one here
--   (`switch` for hcryptCtx_Tx_Switch). A key is a number; random numbers and failures of the
--   crypto provider are arguments. `TxKeys.Valid` has the invariant of the two contexts,
--   `TxKeys.Steps` the life of a session, `TxKeys.Sent` the messages sent in it, `TxKeys.Changes`
--   the change of the key in use.
-- - `PlayTime`: the times of delivery, getTsbPdTimeBase, getPktTsbPdTime, setRcvTsbPdMode and
--   addRcvTsbPdDriftSample of `CRcvBuffer` in Sources/CSRT/buffer.cpp, and `DriftTracer` of
--   include/utilities.h. `PlayTime.Unwrapped` has runs of packets and drift samples, and the
--   clock that never wraps to compare them with, `PlayTime.Drift` the averages.
-- - `UnitQueue`: `CUnitQueue` of Sources/CSRT/queue.cpp, the units for packets that come in. A
--   unit is the number of its entry and its place there. Whether an allocation succeeds is an
--   argument. The loop of getNextAvailUnit has the number of entries as fuel, since it visits
--   every entry at most once. `UnitQueue.Find` and `UnitQueue.Next` are about that function,
--   `UnitQueue.Count`, `UnitQueue.Valid` and `UnitQueue.Steps` about the count.
-- - `SocketHash`: `CHash` of Sources/CSRT/queue.cpp, the table of sockets by ID, with lists for
--   its chains. `SocketHash.Stacks` compares it with a stack of sockets for every ID.
-- - `Fec`: the packet filter `FECFilterBuiltin` of Sources/CSRT/fec.cpp and include/fec.h. `Fec`
--   is the sender, with rows and columns (`feed_source` for feedSource, `pack_control_packet` for
--   packControlPacket); `Fec.Receiver` and `Fec.Receive` are `receive` with HangHorizontal,
--   RcvRebuild, CollectIrrecoverRow and CheckLargeDrop for a filter with rows only. The contents
--   of a control packet are fields instead of bytes. `Base.Xor`, `Fec.Clips` and `Fec.Sums` are
--   the algebra of the clips, `Fec.Sends` a row of the sender, `Fec.Hang`, `Fec.Arrivals`,
--   `Fec.Rows` and `Fec.Rebuild` the receiver while a row comes in, `Fec.Recovers` joins the two,
--   and `Fec.GivenUp` is about the losses reported.
-- - `RcvBuffer`: `CRcvBuffer` of Sources/CSRT/buffer.cpp, units on a circular array, with the
--   flags and the count that the unit queue of queue.cpp keeps. `add_data`, `ack_data`,
--   `skip_data` and `read_buffer` are addData, ackData, skipData and readBuffer; the loop of
--   readBuffer has as many turns as there are acknowledged places, of which every turn but the
--   last uses one up. `RcvBuffer.Contents` is the buffer as a list of units, `RcvBuffer.Turns`
--   and `RcvBuffer.Advance` are the loop, `RcvBuffer.Read`, `RcvBuffer.Fill` and
--   `RcvBuffer.Stream` the operations and their sequences. `RcvBuffer.Ready` is getRcvReadyMsg
--   and readMsg with delivery times, `RcvBuffer.Ring`, `RcvBuffer.Search` and `RcvBuffer.Due`
--   what they give out, `RcvBuffer.Emptied` and `RcvBuffer.Shortened` the places and counts that
--   they leave; in their loop too every turn passes a place.
--
-- Not modelled: socket and file I/O, threads and locks, logging, the OpenSSL provider and MD5, and
-- the Swift wrapper. Reading the receive buffer by messages without delivery times, the input rate
-- and averages of the buffers, the client and server handshake, the columns of a receiver of the
-- packet filter, the caches and the keys of a receiver are left out as well.
pub mod Base
pub mod SeqNo
pub mod FreshLoss
pub mod AckWindow
pub mod SndUList
pub mod RcvLossList
pub mod SndLossList
pub mod LossReport
pub mod HandShake
pub mod SndBuffer
pub mod Rendezvous
pub mod TxKeys
pub mod PlayTime
pub mod RcvBuffer
pub mod Fec
pub mod UnitQueue
pub mod SocketHash
