-- ===== src/Lib.antt =====
-- A model of sicapwap, an implementation of CAPWAP: an access controller (AC) that manages wireless
-- termination points (WTP). It covers the protocol library that both programs share, the queues and
-- timers under them, the message elements, and the messages of the join, the configuration and the
-- data check.
--
-- Exec.antt has the outcomes of a C function: a result, an error of CWErrorHandling.h, an access
-- outside a buffer, and a loop that does not end. A run is given the number of allocations that
-- succeed; the ones after those fail. NULL arguments, which most functions refuse with
-- CW_ERROR_WRONG_ARG, are not modelled where the code's own calls never pass them. The macro CWErr is
-- there too, with what _CWErrorHandleLast (CWErrorHandling.c) makes of the last error: the call
-- passes, fails, or ends the thread.
--
-- Message.antt is CWProtocolMessage of CWProtocol.c with its Store and Retrieve functions;
-- Message/Reads.antt and Message/Writes.antt put together what parsers and assemblers do to one.
-- Field.antt is the pair of bit field macros of CWProtocol.h, which Header.antt uses for the
-- transport header (CWProtocol.c), its wireless part (CWBinding.c) and the control header.
-- Fragment.antt is CWAssembleMessage and CWAssembleDataMessage: they put a header in front of a
-- message, or cut it into fragments for the path's MTU. Reassembly.antt is CWProtocolParseFragment,
-- which keeps fragments in a list until the packet is complete, and Receive.antt the loop of
-- CWReceiveMessage (WTP.c) around it. The fuel of the joining loop is one round for each of the 8192
-- offsets that a header can hold, and two.
--
-- Element.antt has the elements that both programs share, and the macros around the parser of an
-- element. Vendor.antt has the lists of vendor informations. WtpProtocol.antt is WTPProtocol.c: what
-- a termination point assembles and what it parses; AcProtocol.antt is ACProtocol.c. The results of
-- the getters in WTPProtocol_User.c and ACProtocol_User.c are arguments. ElementLoop.antt is the loop
-- over the elements of a control message, once or twice, as every parser of such a message has it;
-- its fuel is one round for each byte, and one.
--
-- Join.antt is the Join Request and JoinResponse.antt its response (WTPJoinState.c, ACJoinState.c),
-- where gACInfoPtr is never NULL; Configure.antt is the Configure Request (WTPConfigureState.c,
-- ACConfigureState.c), and ChangeState.antt the Change State Event and its response
-- (WTPDataCheckState.c, ACDataCheckState.c, ACRunState.c). Acknowledged.antt is
-- CWWTPSendAcknowledgedPacket (WTP.c): what its waits end with is a list, and a request is sent again
-- until it is answered or the limit is reached. WtpSession.antt and AcSession.antt are the two sides
-- of the data check, with the part of the AC's main loop (ACMainLoop.c) that calls its handler;
-- WtpJoin.antt and JoinSession.antt are those of the join state, where the results of the calls of
-- sockets, threads and DTLS are arguments.
--
-- Cells.antt has a store of cells behind pointers. LinkedList.antt is CWList.c on it, and
-- SafeList.antt CWSafeList.c; SafeList/Contents.antt says what that list looks like from outside.
-- The fuel of a loop over links is one round for each element, and one. TimerQueue.antt is timerlib.c;
-- TimerQueue/Ticker.antt has the threads that use it as steps, each under the library's mutex.
-- Pending.antt is WTPRetransmission.c with the timer handler of WTPRunStateCheck.c, on top of the
-- timers and of a store for the handler's arguments. AcRetransmission.antt is ACRetransmission.c with
-- the soft timer handler of ACMainLoop.c.
--
-- Counters.antt has the counters of AC.c and WTP.c for sequence numbers and fragment ids, and
-- SinoData.antt the element buffer of sino_comm.c.
--
-- Numbers are unbounded where the code uses int for sizes and ids that stay small; fields of a
-- packet have their widths, the length of the elements of a message wraps at 16 bits, and the count
-- of a safe list at 64 bits. Timer ids do not wrap in the model. The host is little-endian.
--
-- Not modelled: the Configure Response, discovery and the messages of the run state; the network,
-- DTLS, locks, files and the wireless driver, which are calls of the system.
pub mod Prelude
pub mod Join
pub mod JoinResponse
pub mod JoinSession
pub mod WtpJoin
pub mod ChangeState
pub mod Configure
pub mod ElementLoop
pub mod WtpProtocol
pub mod AcProtocol
pub mod Vendor
pub mod Exec
pub mod Message
pub mod Field
pub mod Header
pub mod Element
pub mod Fragment
pub mod Reassembly
pub mod Receive
pub mod Cells
pub mod LinkedList
pub mod SafeList
pub mod TimerQueue
pub mod Pending
pub mod AcRetransmission
pub mod Acknowledged
pub mod AcSession
pub mod WtpSession
pub mod Counters
pub mod SinoData
pub mod Tests
