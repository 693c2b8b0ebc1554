-- ===== src/Lib.antt =====
-- PalPanel: the reader and indexer of Palworld saves, and of the panel's back end the API cache, the
-- executor of jobs, the game's settings, the guard of GM writes and RCON packets.
--
-- The panel shows what a Palworld server has saved. A save is a compressed container
-- (sav-cli/internal/sav/sav.go); inside is a GVAS stream, a header and a tree of typed properties
-- (sav-cli/internal/gvas/gvas.go, properties.go), some of which hold blobs of Palworld's own
-- layouts (sav-cli/internal/gvas/palworld_raw.go). The tree is normalised to an index of players,
-- guilds, bases, pals and containers (sav-cli/internal/indexer/normalize.go, types.go), which the
-- panel shows. Answers of the API are kept for a while (backend/internal/api/cache.go), and long
-- work runs as jobs (backend/internal/jobs/executor.go). The panel edits the game's settings
-- (backend/internal/palconfig/settings.go) and sends commands to the game; a store of idempotency
-- keys runs each once (backend/internal/api/paldefender_gm_idempotency.go), and some of them travel
-- in RCON packets.
--
-- Modules:
--   Prelude: numbers, lists, texts and int32/int64 arithmetic that the others share.
--   Gvas.Value: the `any` that the decoder builds. A Go map is an association list, and `put`
--     overwrites a key in place. Errors are values that name the message of the source.
--   Gvas.Reader: `Reader` and its methods (Read is `read`, I32 is `i32`, FString is `fstring`, ...).
--     A method is a function from a reader to a result and the reader after it. The integers wrap as
--     Go's do, and an FString's negative length may be the least int32.
--   Gvas.Header: readHeader. Gvas.Hints: typeHints and hintOr. Gvas.Scalars and Gvas.Properties:
--     the cases of Property, Struct, StructValue, ArrayProperty, ArrayValue, MapProperty, PropValue.
--   Gvas.Parts, Gvas.Group, Gvas.Slots: the blobs of groups, bases, containers and map objects.
--   Gvas.Decode: PropertiesUntilEnd, Property and the blob decoders that call them, and Read.
--   Sav: parseHeader, Inspect and DecodeToGVAS. zlib and Oodle are the record Codecs.
--   Indexer: the index, and how the tree is read (Indexer.Values: asMap is `as_map`, ...).
--     Indexer.Guilds, Characters, Containers, Bases, Entities and Objects are the steps of Normalize,
--     each a function from an index to an index; Indexer.Normalize composes them. A Go map is a
--     function of its keys.
--   Cache: ttlCache. GetOrLoad is `enter`, `arrive` and `settle`, between which other requests come
--     in; Cache.History is the relation of all such histories, with the writes they make.
--   Jobs: the executor as a step relation; a job's goroutine is a phase.
--   Palconfig: Parse, Serialize and Merge of the game's settings; a Go map is an association list.
--     Palconfig.Runes has the UTF-8 that a range over a string reads, and what it writes for bytes
--     that begin no rune. Palconfig.Items has the two scanners on a well-formed item.
--   Idempotency: gmIdempotencyStore.do as its two critical sections, `begin` before the action and
--     `finish` behind it; requests and endings interleave in any order in Idempotency.Trace.
--   Rcon: writeRCONPacket and readRCONPacket (backend/internal/paldefender/rcon.go), over the bytes
--     that a connection still has to deliver.
--   Under each, the modules named Good, Weighs, Stable, Encode, Exact, Total, Single and so on hold
--   the writers, lemmas and theorems. Tests applies the theorems to concrete data.
--
-- Bounds and fuel: PropertiesUntilEnd calls itself through Property, and a character blob starts
-- over on the bytes of a property. The model's recursion is on fuel, one round more than there are
-- bytes left, which is enough since every round reads a byte and a blob is not longer than the
-- bytes it was read from. `out_of_fuel` is the model's own error; blob decoders pass it on and do
-- not record it as a broken blob. Lengths and counts have the limits of the source.
-- In the indexer, two recursions go down a value on its size as fuel.
--
-- Parameters: Codecs (zlib, Oodle); Host, what Go's runtime prints or converts: the text of an
-- error, fmt.Sprint of a value, byte(x) of a float64; Go, in the indexer, Go's strings, conversions
-- and float64 arithmetic; Text, for the settings, Go's strings and quoting. Floats are kept as their
-- bits.
--
-- Not modelled: the handlers and clients around these parts, the database, the process and network
-- code. Of the indexer, what cleans and counts at the end (Finalize) and the reading of the players'
-- own saves. Of the cache, a load that panics. In the store, a waiter whose request is
-- cancelled, and the order in which Go ranges over a map; a store's entries stand in any order, and
-- the theorems hold for each.
pub mod Cache
pub mod Gvas
pub mod Idempotency
pub mod Indexer
pub mod Jobs
pub mod Palconfig
pub mod Prelude
pub mod Rcon
pub mod Sav
pub mod Tests
