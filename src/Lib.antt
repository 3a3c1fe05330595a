-- ===== src/Lib.antt =====
-- Voxel Browser: the parts of the engine that a client and a server must agree on.
--
-- A server owns a voxel world of 32 x 32 x 32 chunks and sends it to clients as messages. A message
-- has a payload codec (inc/vb/protocol, src/protocol), is framed, and is compressed if that pays
-- (inc/vb/net/handshake.hpp); a session opens what arrives (src/net/session.cpp). A connection begins
-- with a handshake between a machine on the server and one on the client (src/net/handshake.cpp): greeting
-- and version checks, sign-in, assets, and the grant to join. Damage to blocks travels apart from the
-- chunks, and the client's tracker puts the two together (src/net).
--
-- Prelude holds the shared notation: Prelude/Tests the Boolean tests, Prelude/Lists lists measured by
--   native numbers, Prelude/Int signed integers and two's complement words.
-- Core/Ids is inc/vb/core/ids.hpp with floor_div and floor_mod of inc/vb/core/math.hpp; proofs are in
--   Core/Ids/Coordinates.
-- Core/VersionReq is src/core/version_req.cpp: Decimal the ints in decimal, Texts the error texts, Parse
--   the versions and requirements with their operations, Bounds what a requirement admits.
-- Protocol/ByteBuffer is inc/vb/protocol/byte_buffer.hpp: put_le for u8, u16, u32 and u64, put_varint,
--   put_string and their reads on a reader with a sticky error; Signed has i32 and the zig-zag varints.
-- Protocol/Result is the form of the decoders: a reader passed on, and the early returns.
-- Protocol/Handshake, Chat, Input, Inventory, AssetSync, World, Registry, EntityKinds and Snapshot are
--   the files of these names (Registry and EntityKinds are in world.hpp and world.cpp too): for a
--   struct T its record, and encode_t and decode_t for T::encode and T::decode. RoundTrip below each has the
--   proofs.
-- Protocol/Message is inc/vb/protocol/message.hpp: the lanes and the frame of a message.
-- Protocol/Compression is src/protocol/compression.cpp over a parameter for LZ4.
-- Protocol/Messages joins the messages under their types, as a session's dispatch does.
-- Net/Envelope is frame_message of inc/vb/net/handshake.hpp and the opening of a received frame in
--   src/net/session.cpp; Net/Delivery goes from a message to the message received.
-- Net/Loopback is src/net/loopback.cpp: the hub of the links and the transports on it; Links has what the
--   operations do to one connection, History what the server receives along any calls.
-- Net/BlockDamageTracker is src/net/block_damage_tracker.cpp over a parameter for time; Lanes has what
--   it makes of two lanes that are not ordered against each other, Pairing what its maps keep in common.
-- Net/Handshake is src/net/handshake.cpp with its header. ServerHandshake is in Server (its state, hosts
--   and timeouts), Verdict (sign-in), Assets (pump_assets) and Frames (on_frame), ClientHandshake in Client
--   and ClientFrames, the texts of both in Texts. Calls and ClientOrder have the calls of the machines
--   against the order of their states, Drops the disconnects, SignIn and Admission who is let in,
--   ClientGate and ClientRun which server is accepted, Chunks, Ahead and Stream the assets that are sent,
--   Link the two machines joined by framed messages, Arrivals, Replies and Join the way to a join. A host's hooks are fields of a
--   record that each call is given, since its answers change; a ticket, a function in the source, is a
--   number that the host is polled with.
-- World/PalettedChunkStore is src/world/paletted_chunk_store.cpp; below it Fields has the fields of a
--   word, Raw and Repack the packed indices, Palette the invariant and the palette, Access get, set,
--   fill and uniform_value, Compact compact.
-- World/ChunkCodec is the run-length codec of src/world/chunk_codec.cpp, with proofs in RoundTrip and
--   Fuel. A vector of bytes has at most 2^63 - 1 of them; none is the exception of a reservation or an
--   insertion past it; an allocation below it does not fail here.
-- World/ChunkPayload is the codec of a whole chunk in the same file: encode_chunk_payload and
--   decode_chunk_payload; WrappedRun has a run that wraps the check of its end, Fuel the loop's rounds.
-- The Examples modules apply the theorems at concrete inputs.
--
-- Bytes are numbers below 256 and a buffer is a list of them. An integer field is a number, cut to its
-- width where it is written; an enum is its number; a float or a double is its bit pattern, since the
-- code modelled here only moves it. Coordinates are unbounded integers outside the codecs: where an
-- int32 would overflow the source is undefined. The varint loops run on fuel: 10 groups of 7 bits, the
-- bound of the source's own loop, hold 64 bits. The
-- loops of the run-length codec and over the runs of a chunk run on fuel too: the bytes of the input,
-- each round taking at least one (when encoding, the voxels).
-- The build has VB_WITH_COMPRESSION.
--
-- Parameters: LZ4 with its documented laws (up to LZ4_MAX_INPUT_SIZE a block is not empty
-- and decompresses to its input), the
-- clock of the damage tracker, the hosts of the handshake, and the version of the build. Not modelled:
-- sessions beyond the opening of a frame, the
-- frames that a client takes itself while it joins, and the drop where a step asks for it, the
-- transport over GameNetworkingSockets, the replicator, lighting, meshing, world generation,
-- scripting, authentication, assets on disk, rendering, the editor and the command line tool, which
-- are input and output, floating point or glue over other libraries for the most part.
pub mod Prelude
pub mod Core
pub mod Protocol
pub mod Net
pub mod World
