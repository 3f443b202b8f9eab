-- ===== src/Lib.antt =====
-- ip2geo converts IP geolocation databases to a compact binary file, GEO2 (docs/FORMAT.md), and
-- looks addresses up in it. This library models its core and proves it right.
--
-- The parts of the program. internal/format lays out the file's header, directory, META section,
-- records, record ids and extension entries. internal/build merges the source's networks into
-- boundaries (merge.go), interns records and strings (record.go, strings.go) and encodes the sections
-- (encode.go). At open, geo2.go checks every rule of docs/FORMAT.md and reader.go builds two index
-- tables; then reader.go searches one boundary table per address family and ranges.go walks it. csvdb
-- and mmdb feed the builder from CSV files and MaxMind databases, and cmd/ip2geo is the command line.
--
-- How the files follow the source:
--   Base      lists and options over native numbers, results of fallible code (Base/Outcome: a
--             value, an error, or a run-time panic), lists given entry by entry (Base/Tabulate).
--   Bytes     encoding/binary's little-endian loads and stores, blocks of words and tables of words.
--   Format    internal/format/format.go: Header (ParseHeader, Header.AppendTo), Directory
--             (ParseDirEntry, DirEntry.AppendTo), Meta (ParseMeta, Meta.AppendTo), RecordId (IDWidth,
--             ReadID, AppendID), Layout (section ids, record offsets, RecordWidth), XLayout
--             (CheckFields, NewXLayout, NameOff), Checksum (Checksum).
--   Build     internal/build. merge.go: Blocks (blockList), Merge4 (merger4: add, step, finish,
--             ranges), Merge6 (merger6, inc16, dec16, lastV6). strings.go and record.go: Strings
--             (interner, checkStrings), Record (Record.key). xrec.go: XTable (newXTable, add,
--             appendEntry). build.go: Options (Normalize), Builder (New, Record, AddPrefix,
--             AddRange), FinishBuild (Finish). encode.go: Encode4 (appendV4Idx, appendV4Starts,
--             appendV4IDs), Encode6 (the IPv6 sections), EncodeStrings (appendStrIdx,
--             appendStrBlob), PackRecord (packRecord, appendRecords), Encode (the first half of
--             encode, the list of the sections) and Assemble (its second half, which lays them out).
--   Reader    reader.go and ranges.go: Search4 (buildIndex4, search4, start4), Range4 (index4,
--             range4), Bisect (the binary search loops), Count (what they look for), Words128
--             (less128, inc128, dec128), Aliases (v6Aliases, embeddedV4, yieldUnaliased, the cut of
--             range6), Search6 (search6, index6, start6, v6StepBack, v6ExcLo, v6L2Bits, v6Slot),
--             Lookup (the dispatch of Lookup, decode).
--   Geo2      geo2.go: CheckDirectory, CheckLengths, CheckStrings, CheckRecords, CheckIpv4, CheckIpv6
--             and CheckExtensions, the functions of those names, and Parse (parseGEO2).
--   Csv       csvdb: Number (parseUint32, parseUint128) and Scan (split) of scan.go, Layout
--             (layout.go, and checkLayout of csvdb.go), and of reader.go Ranges (aliasBlocks, unread,
--             the ranges of add) and Rows (newReader, row, bounds, addr, fill, addRange).
--   Examples  tests, and the theorems at concrete inputs.
--
-- Integers are native natural numbers; a conversion that can wrap is written out as a remainder, and
-- a machine width that a theorem needs is among its hypotheses. Left out are the conversions of the
-- number of records to uint32, in Record, and of indexes of the IPv4 table to int32, in buildIndex4,
-- which wrap from 2 ^ 32 records and from 2 ^ 31 entries on. A slice is a list, and an index or a
-- slice expression out of range, which panics in Go, is `none` or `panic`. Loops are structural
-- recursions over their data or over the number of rounds left, which the loop's bounds give; the
-- binary searches recurse on fuel, the width of their window, which they at least halve each round.
-- The sort of the standard library is any function that returns the ascending arrangement, here an
-- insertion sort; the starts that are sorted are distinct. A callback is a step on a state of its
-- own. Floating-point numbers are a parameter, with their conversions.
--
-- Bytes that a writer places in a buffer are lists: `section` holds what its `fill` appends, and a
-- section longer than its place is refused by its length, as in the code, which reallocates. The
-- largest int of the platform is a parameter of the assembly. Of a time only its seconds and
-- nanoseconds since 1970 are kept, and the time of day is a parameter.
--
-- Not modelled: reading, mapping and writing files, texts of error messages, concurrency, the
-- command line, the benchmarks, what third-party packages do, the IPv6 index tables' construction, the
-- GEO1 loader, and the MaxMind source. netip.ParseAddr and strconv.ParseFloat, which the rows of a CSV
-- source are read with, are parameters.

pub mod Base
pub mod Bytes
pub mod Format
pub mod Build
pub mod Reader
pub mod Geo2
pub mod Csv
pub mod Examples
