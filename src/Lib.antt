-- ===== src/Lib.antt =====
-- felica: FeliCa Standard commands, an emulated card and reader drivers.
--
-- The crate talks to FeliCa cards through USB readers, and can stand in for a card. A command is
-- encoded to a packet (felica_standard/command), and the card's answer is read from one
-- (felica_standard/response). Between the two stand the reader's own framings: the packet is wrapped
-- in the envelope of the reader (driver/framing.rs), and sent; the emulated card
-- (felica_standard/emulator) keeps a tree of areas and services, parses such packets and applies
-- them to the blocks of the services. All paths below are in the crate's src directory.
--
-- Which file models which part:
--   Prelude              lists, bytes, integers, Boolean tests, and `Outcome`, the result of a call
--                        that answers, fails or panics
--   Felica/Constants     felica_standard/constants.rs, sizes, limits, command codes and
--                        response codes
--   Felica/Error         the `Protocol` variant of felica_standard/error.rs and the `Other` variant
--                        of driver/errors.rs
--   Felica/Types         felica_standard/types.rs: service codes, block list elements, selectors,
--                        the first status flag, the results of responses, versions
--   Felica/Payload       felica_standard/payload.rs, and `frame_with_length_prefix` of
--                        felica_standard/command/mod.rs; Payload/Layout has the bytes it writes
--   Command              `FelicaStandardCommand` of felica_standard/command/mod.rs
--   Command/Serialize    felica_standard/command/serialize.rs
--   Command/Parse        felica_standard/command/parse.rs: Fields has the readers of fields,
--                        Queries, Access and Settings a function for each command, Dispatch the
--                        choice by command code
--   Command/Wire         the packet layouts as one table, and the ranges of the fields
--   Command/RoundTrip    encoder and parser together
--   Response             `FelicaStandardResponse` of felica_standard/response/mod.rs
--   Response/Write       the parts of felica_standard/response/serialize.rs that append a result;
--                        Serialize has `to_payload`, `to_frame` and `to_secure_payload`, and
--                        below it Pairing the results that a status refuses
--   Response/Parse       felica_standard/response/parse.rs: Fields has what the parsers share,
--                        Queries, Lists and Settings a function for each response, Secure the
--                        responses of a session, Dispatch the choice by response code; Contents and
--                        Bounds have the lists inside a response
--   Response/Wire, Response/Valid   the packet layouts as one table, and the ranges of the fields
--   Response/RoundTrip   serializer and parser together
--   Felica/Emulator/Blocks   felica_standard/emulator/blocks.rs; Words has the four-byte fields,
--                        Updated the written block, Resolve, Purse and History the purse, Cyclic the
--                        ring
--   Felica/Emulator/Structure   felica_standard/emulator/structure.rs: the tree and its builders;
--                        Lookups has the directory, the lookups and the block counts, and Valid,
--                        Built, Directory and Counts their theorems
--   Felica/Emulator/Overlap     the services that share blocks, from the same file, and the calls of
--                        felica_standard/emulator/system.rs that add to the tree of a system
--   Driver/Framing       driver/framing.rs; Sums has the checksums, Written, Header and Ranges the
--                        bytes of a frame, RoundTrip, Sound and Ack the building and parsing
--   Driver/Tlv           driver/port400/pcsc/tlv.rs: the fields of the Port-400's responses; Loop the
--                        loop over them, Transparent and Session the parsers
--   Clf/Crc              clf/crc.rs
--   Tests                each theorem at a concrete input
--
-- How the code is read. A byte and a machine word are natural numbers; wrap-around is written out
-- (`% 256`, `% 65536`), and theorems that need a range say so. An array of eight bytes is a list
-- whose length `IsValid` states. A slice, `?` and early `return` become `Outcome`: `ok`, `err`, and
-- `panic` for an index or slice out of range, a failed assertion, and an overflow where the build
-- checks it. A debug assertion panics, as in a debug build. A message that the source formats keeps
-- its text, with the place of the number, and the number side by side. An `i64` is an integer, since
-- the purse values stay far inside its range. In driver/framing.rs a `Profile` says whether overflow
-- panics or wraps. All loops are structural: over a list, or over the count that the source counts, but for
-- the loop over the fields of a response in Driver/Tlv, which runs on fuel: each round takes a byte
-- at least, so one round more than there are bytes is enough, and a theorem says so. Cutting a
-- list into chunks (Response/Parse/Fields) runs on as many rounds as there are bytes.
--
-- The blocks that services of a card share by `Rc<RefCell<_>>` stand in a heap, a list of stores, and
-- a service has the index of its own; `usize` has 64 bits where block counts are added.
--
-- Not modelled: the emulated card's modes and
-- command execution (emulator/system.rs, mod.rs), the secure sessions
-- (felica_standard/secure, on the DES and AES crates), keys.rs, the command API
-- (felica_standard/api), the timeouts of type3.rs, which are floating point, the drivers of the
-- readers and the USB transports, which are input and output, and descriptions and debug text.
pub mod Prelude
pub mod Felica
pub mod Command
pub mod Response
pub mod Driver
pub mod Clf
pub mod Tests
