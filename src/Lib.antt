-- ===== src/Lib.antt =====
-- Verification of darwin-gpib: the driver of driver/ that runs GPIB adapters under DriverKit, the broker
-- of gpibd/ that alone may open it, and the C library of libgpib/ that programs link.
--
-- A program calls the library, which packs the arguments into a structure and sends it to the broker
-- in a message. The broker finds the connection of the board, makes the call, and keeps a list of what
-- each of its clients has open, to close it when the client is gone. The call then arrives at the user
-- client of the driver, which checks the bytes of the structure and calls the board. The board keeps a
-- table of descriptors and turns each call into command bytes and data transfers, which it hands to a
-- transport. A transport is one adapter: it packs them into USB packets and takes the answers apart.
--
-- Prelude      Shared names, lists over the native numbers, signed integers, bit masks.
-- Gpib         driver/gpib/gpib_user.h: status bits (Sta), error codes (Iberr), command bytes (Cmd),
--              bus lines (Line), options (Config), the address helpers.
-- Transport    driver/core/GPIBTransport.h: IGPIBTransport as a record of operations over a world W,
--              with the class's default bodies (with_defaults) and its return codes (Rc).
-- Board        driver/core/GPIBBoard.h, GPIBDescriptor.h and GPIBBoard.cpp. A method is a function of
--              the state, the board beside the world, and returns its results and the next state
--              (Board.Monad). Table: allocateHandle to ask. Address: addressForWrite, addressForRead.
--              Transfer: write, read. Command: deviceClear, trigger, goToLocal, interfaceClear,
--              remoteEnable, localLockout, sendCommands, busLineStatus. Poll: serialPoll,
--              serialPollProbe, listenerPresent. Wait: waitForStatus. Recover: setOnline, recoverBus and
--              the diagnostic calls. Timeout: timeoutCodeToMicros. Platform: the clock and IOSleep.
--              Trace: a transport with a log of the calls that are made of it. Calls: the calls of the
--              bus in one type.
-- Bus          The interface messages of IEEE 488.1 as a state machine over talker, listeners and serial
--              poll. It is independent of the driver, and the command bytes are held against it.
-- Usb          What the transports call of DriverKit: pipes, control requests, a device with its clock.
-- NiUsb        driver/devices/ni_usb/NIUSBTransport.cpp over a pair of USB pipes: packet formats (Wire),
--              the read response (Receive), the exchanges and the transport itself (Exchange).
-- Agilent      driver/devices/agilent_82357/Agilent82357Transport.cpp: registers (Regs), packets (Wire),
--              exchanges (Exchange), the transport and its initialisation (Operations).
-- Kusb         driver/devices/kusb_488b/KUSB488BTransport.cpp. The members that operations change are the
--              record Session, beside the world of the device. Endpoints: resolveEndpoints. Control:
--              controlOut to abortTransfer. Status: pollStatus. Registers, BringUp: register access.
--              Firmware, Reading: the pipeline in use. Registered: the one through registers.
--              Operations: the transport, and below it what holds of it; Operations.Recording is a device
--              with a log of what it took. Delivery: the board's write over this transport.
-- Loader       driver/devices/kusb_488b/KUSB488BLoader.cpp, with a log of the requests that reach the device
--              (Log), the whole download (Laws, Download) and what it never does (Spares).
-- Lifecycle    openPipes, attach, detach and free of the three transports, over the pointers that they hold.
-- UserClient   driver/userclient/GPIBUserClient.cpp with driver/gpib/GPIBSelectors.h: the handlers
--              (Handlers, Lines) and the switch over the selectors (Dispatch).
-- DeviceString driver/utils/DriverUtils.cpp: the conversion of a device string to UTF-8.
-- Broker       gpibd/gpibd.c and gpibd/gpibd_protocol.h. The cached connections (g_conn) and the list of the
--              session at hand are the record Server. Session: session_add_desc, session_forget_desc.
--              Boards: copy_service_for_board to drop_board, and session_reap. Requests: handle_request.
--              Peers: handle_peer_event, queue_for_board. Effects: relations that a request keeps, from
--              its writes alone. Recording: IOKit with a record of the calls that reach the driver. The
--              other children hold what is proved of them.
-- Library      libgpib/src and libgpib/include/libgpib_internal.h. What is remembered of each board and the
--              status are the record Lib. Client: client.c. Traditional, Transfers, Files: ib_traditional.c.
--              Helpers: ib_488_2.c. Packing, Writes, Reads and Listing hold its structures against the
--              driver's handlers and the broker's list, Brokered puts the broker behind it.
-- Tests        A bench with one instrument, and the theorems applied to it.
--
-- Transports, pipes, devices and the platform are parameters: an operation takes the world and returns the
-- next one with any results, so a theorem holds for every adapter that returns. Where a theorem needs more
-- it is a hypothesis: that sleeping moves the clock on (Board.Wait.Laws, Clocks), that a bulk transfer
-- reports no more bytes than it was given (Kusb.Operations.Recording, Honest), that it brings no more than
-- its buffer holds (Kusb.Operations.Rounds, FitsBuffer), and that one that succeeds brings a byte (there,
-- Bringing). IOKit and the allocator are parameters of the broker, and the broker one of the library. The
-- hypotheses on them: a call writes and counts no more than the output buffer holds (Broker.Replies,
-- Bounded), memory is to be had (Broker.Told, Roomy), and the codes of IOKit for a port that is gone
-- are neither success nor the broker's own (Broker.Stale, Codes).
--
-- Numbers are the native naturals; unsigned fields keep their width where the source narrows
-- (% 2 ^ w), and signed ones are the integers of Prelude.Int. A read is a list of bytes with its count.
-- Some loops run on fuel. The polling loop of waitForStatus has a round for every unit of fuel;
-- wait_for_status_ends says how much is enough, and wait_loop_forever that none is without a limit. The
-- walk over a read response has the length of the response as fuel, and every block takes a byte; the walk
-- over a configuration descriptor has its total length. The loops that cut a buffer up have its length,
-- as each round takes a byte at least; those of the loader have the length of the image. The loop of readDataViaFirmware takes any fuel and returns an option:
-- see read_data_ends and read_loop_forever. The rounds of pollStatus are those of the source.
--
-- The rounds of ibwrtf have the length of the file, and each takes a byte; those of ibrdf end at END or ERR
-- only, so that it takes any fuel and returns an option.
--
-- Not modelled: the DriverKit lifecycle of the services (Start, Stop, ExternalMethod, their init and free),
-- logging, XPC itself and main of the broker, the clients in Python and Swift and the programs of tools/.
-- Reference counts are not kept: a pointer is there or it is not. The board is taken as allocated, and no
-- two calls of it overlap: DriverKit's dispatch queue runs them one at a time. Requests for one board are
-- serial in the broker too; those for different boards may overlap, and Broker.Isolation says that they
-- do not touch each other's connections. Memory that a freed session leaves behind is not modelled. One
-- thread uses the library, and its calloc succeeds: the EDVR of ibwrt, ibcmd and ibrd without memory is not
-- modelled.
pub mod Prelude
pub mod Gpib
pub mod Transport
pub mod Board
pub mod Bus
pub mod Usb
pub mod NiUsb
pub mod Agilent
pub mod Kusb
pub mod Loader
pub mod Lifecycle
pub mod DeviceString
pub mod UserClient
pub mod Broker
pub mod Library
pub mod Tests
