-- ===== src/Lib.antt =====
-- A model of the protocol layers of rdpserver, an RDP server in C, with the theorems that make
-- these layers correct.
--
-- The server reads TPKT frames from a socket (src/common/io.c, src/wire/tpkt.c). The first frame
-- is an X.224 connection request, which is answered by a confirm (src/wire/x224.c); the next one
-- is an MCS Connect Initial in BER with a PER envelope inside (src/wire/mcs.c, src/common/ber.c,
-- src/common/per.c). From then on every frame is an X.224 data header with an MCS data PDU, whose
-- payload goes to a channel; the payloads of a static virtual channel are put together from
-- fragments (src/channels/vchan.c). One of the static channels carries the dynamic ones, which the
-- server opens, and which are put together once more (src/channels/drdynvc.c). Bitmaps are sent in
-- a planar form (src/wire/bitmap_planar.c) or run-length coded (src/wire/bitmap_rle.c). Updates of
-- the screen and the input of the client go in packets of their own, without the layers above
-- (src/wire/fastpath.c). Bitmaps that were sent are remembered in a cache (src/wire/bmpcache.c),
-- and texts are converted between UTF-8 and UTF-16LE (src/common/utf16.c). When a client goes
-- away, its session is kept for a while by the session manager, which also asks for passwords
-- (src/sessionmgr/sessionmgr.c). The builders of messages write through one bounded buffer
-- (src/common/buf.c).
--
-- Which file is about which code:
--   Base: tests, lists, byte masks, the size of a tile, and the type `Read` of parsers.
--   Buf: src/common/buf.c. `Writer` is a call that returns 0 or -1 and changes the buffer.
--     Buf/Laws has the predicate `Writes` and its rules, which the encoders compose; Buf/Outcomes
--     what a caller sees afterwards;
--     Buf/RoundTrip has the frame and the round trips.
--   Ber: src/common/ber.c. Ber/Encode and Ber/Decode have the functions, Ber/Output the bytes that
--     each encoder writes, Ber/Safety, Ber/RoundTrip and Ber/AppTag the theorems.
--   Per: src/common/per.c, in the same way (Per/Encode, Per/Decode, Per/Fields).
--   Io: src/common/io.c, `rdp_read_full` and `rdp_write_full` (Io/Blocks).
--   Tpkt: src/wire/tpkt.c (Tpkt/Header, Tpkt/Frames).
--   X224: src/wire/x224.c (X224/Safety, X224/Cookie, X224/Confirm).
--   Mcs: src/wire/mcs.c. Mcs/Connect has the client data blocks, Mcs/Initial the envelope,
--     Mcs/Domain the domain and data PDUs, Mcs/Response the Connect Response; Mcs/Octets its
--     octets, Mcs/Staged the rules for its arrays and blocks; Mcs/Safety, Mcs/Envelope,
--     Mcs/SendData and Mcs/Built the theorems.
--   Vchan: src/channels/vchan.c, with Vchan/Spec as the abstract accumulator (Vchan/Refine,
--     Vchan/Keeps).
--   Dvc: src/channels/drdynvc.c. Dvc/State has the state and the reassembly, Dvc/Create,
--     Dvc/Display and Dvc/Handle the handler, Dvc/Build the builders; Dvc/Reassembly, Dvc/Safety and
--     Dvc/Negotiate the theorems.
--   Utf16: src/common/utf16.c (Utf16/Scalar, Utf16/Forms with the forms of Unicode, Utf16/Convert).
--   Planar: src/wire/bitmap_planar.c. Planar/Encode and Planar/Decode have the functions,
--     Planar/Runs, Planar/Chunks, Planar/Rows, Planar/Planes and Planar/Delta what the decoder makes
--     of each step of the encoder; Planar/RoundTrip and Planar/Safety the theorems.
--   Rle: src/wire/bitmap_rle.c. Rle/Write has the orders of the encoder, Rle/Encode its loops and
--     Rle/Decode the decoder; Rle/Shows, Rle/Orders, Rle/Headers and Rle/Runs what the decoder makes of
--     each order, Rle/Bits the masks, Rle/Invariant, Rle/Counts, Rle/Ends, Rle/Rounds, Rle/Lines and
--     Rle/Rows the invariant of the encoder through its loops, Rle/Flush its end; Rle/RoundTrip and
--     Rle/Safety the theorems.
--   Fastpath: src/wire/fastpath.c. Fastpath/Update, Fastpath/Bitmap and Fastpath/Pointer have the
--     builders, Fastpath/Input the parser; Fastpath/Framing and Fastpath/BitmapUpdate the theorems on
--     packets, Fastpath/Shown a client that reads a rectangle, Fastpath/Sent what it shows, and
--     Fastpath/Safety the theorem on the parser.
--   BmpCache: src/wire/bmpcache.c. BmpCache and BmpCache/Persist have the functions, BmpCache/Slots,
--     BmpCache/Lookup, BmpCache/Layout and BmpCache/Ingest what each operation does, BmpCache/Runs the caches that a
--     connection can reach.
--   Sess: src/sessionmgr/sessionmgr.c. Sess/Throttle has the table of failed authentications, with
--     Sess/Limit about one address in it; Sess/Slots has the suspended sessions, with
--     Sess/Descriptors, Sess/Granted and Sess/Return about their descriptors; Sess/Requests has the
--     reading of the other two requests, and Sess/Checked what holds of it; Sess/Client has the
--     requests of one client from its connection to its end, Sess/Runs and Sess/Ledger the rules for
--     its steps, Sess/Ownership what one request does to descriptors and logins, Sess/Settled what a
--     client leaves behind, Sess/Access what a client is allowed, and Sess/Admission that it holds.
--   Every function has the name of the C function without its prefix (`rdp_ber_`, `rdp_mcs_` and
--   so on); a loop or a branch that is a function of its own says so in its comment.
--
-- How the code is rendered:
--   A byte is a number below 256, a slice with its length is a list, and a pointer into a slice is
--   an index. `Read` has, next to success and -1, the outcome `fault`: a read outside the slice,
--   a store outside an array of the result, or a loop that outlasts its fuel. A theorem with
--   `Ensures` excludes `fault`.
--   Unsigned arithmetic wraps where the code's can: `sub_size` is the subtraction of two `size_t`
--   of 64 bits, and shifts are products and quotients with their `% 2 ^ w`. An `|` of operands
--   that share no bit is a sum, a mask is `bit_and`.
--   A structure that is passed by pointer is a record that goes in and out. What a function stores
--   through its pointers before it returns -1 is not part of the model, except in the buffer and
--   in the channel accumulator, where it is.
--   The descriptor of Io is a list of events, which are what read(2) and write(2) do next, signals
--   and errors included; malloc(3) is a parameter of Vchan, Dvc and Fastpath.
--   A channel id of Dvc is an `int` and stands as its 32 bits.
--   What the system answers to the session manager (times, living descriptors, verifiers) is a
--   record, and what the manager does to descriptors and clients is a list of effects. The requests
--   of a client are a list of frames, each with the descriptors that come with it and with what the
--   system, the password backend and spawn_session answer in it.
--
-- Bounds and fuel: the loop for the H.221 key and the loop over the client data blocks take at
-- most one round for each byte of the user data, which is their fuel; the conversions of Utf16
-- take at most one round for each byte of their source; the allocator of the bitmap cache takes at
-- most one round for each slot; a round of the planar decoder takes at least one byte of its
-- source, and one of the encoder's at least one of its row; a round of the run-length decoder
-- takes at least one byte of its source; a block of the Connect Response is padded with at most
-- three bytes; a tag has at most five groups. The fuel of each loop is
-- that bound. Running out of it is a `fault` or an outcome of its own, except for the groups of a
-- tag, where it ends the list.
--
-- Not modelled: how the session manager starts a session (the call is an effect with its result),
-- its drive mounts and its cached password hash, the daemon, the session processes and the greeter
-- (processes, sockets, X11 and Wayland), the security layer (cryptography of a library), the other
-- graphics codecs, the capability and share layers, what is sent in the channels, and the hash that
-- gives a bitmap its key. The code that is modelled uses none of them but the verifier of a resumed
-- session, a parameter.
pub mod Base
pub mod Ber
pub mod BmpCache
pub mod Buf
pub mod Dvc
pub mod Fastpath
pub mod Io
pub mod Mcs
pub mod Per
pub mod Planar
pub mod Rle
pub mod Sess
pub mod Tpkt
pub mod Utf16
pub mod Vchan
pub mod X224
