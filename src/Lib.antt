-- ===== src/Lib.antt =====
-- Street Fighter Alpha 2 without the S-DD1: the Python tools at the repository's root.
--
-- The cartridge stores its graphics as compressed streams. The tools read where each stream stands
-- and where it belongs (sdd1map.py), lay out an image that holds every stream decompressed
-- (rombuild.py), write the tables by which the game finds a decompressed stream under the address
-- of the compressed one (sdd1tables.py), and patch the sound driver (spcfast.py). A stream passes
-- through them in this order: `build_map` gives its source and length, `allocate` of rombuild.py a
-- bank and an offset, and `allocate` of sdd1tables.py a slot of the key table, whose scan must
-- stop at that slot.
--
-- Base holds what the parts share: Boolean tests, lists with Python's slices and slice assignments,
-- `bytes.find`, `sorted`, `bytes.fromhex`, 16-bit words, exceptions as the results of calls, and
-- `dict`. A cartridge is the list of its bytes.
--
-- * Sdd1Map is sdd1map.py: find_markers, build_map, audit and rebuild. The decoder is a parameter;
--   the theorems say which streams it must decode. Sdd1Map.Markers, .Increasing, .BuildMap, .Audit
--   and .Rebuild hold the proofs for the function of their name.
-- * RomBuild is rombuild.py: Region, data_bank_regions, spans_of, subtract, merge and allocate. The
--   loop of allocate is `assign`, with a list of spots for the addresses it gives away and a list of
--   regions with cursors for `free` and `cursor`. RomBuild.Subtract, .Merge, .Fit and .Allocate hold
--   the proofs, and RomBuild.Room the case in which allocate cannot fail. RomBuild.Entries is
--   load_entries, RomBuild.Reclaimed reclaimed_regions, and RomBuild.Image place and build, whose
--   writes are one list of placements. RomBuild.Written says what an image reads after a round
--   of place, .Rounds after place, .Sequence after several; .Mapped, .Streams, .Front and .Spots
--   where the placements of build go; .Built takes a build that returns apart, .Planned says what it
--   writes, .Ends how build ends, and .Retrieved puts the tables and the image together. The decoder
--   is a parameter that takes a length of zero for 64 KB, as the reference does: the theorems on
--   build ask for known lengths above zero.
--   RomBuild.ImageTests has the windowed map of emu/windowed_lorom.cpp.
-- * Tables is sdd1tables.py: source_key, _first_free, _scan, allocate and verify. The table of taken
--   slots is a function from slots. Tables.Probe is the walk over slots, Tables.Placed the invariant
--   of a placement, Tables.Greedy the first pass, Tables.Repair the rounds after it, Tables.Verified
--   the check, Tables.Duplicates two streams under one key. Tables.Build is build, the bytes of the
--   tables, Tables.Lookup the game's search in them, Tables.Entered the loop that writes them and
--   Tables.Found the two together.
-- * SpcFast is spcfast.py: the table of runs, the probe of a retail cartridge, the hook site, the
--   checksum and apply. SpcFast.Checksum and SpcFast.Apply hold the proofs.
-- * RepeatLoad is repeatload.py: the hook, the routine and apply, on the stamped runs of
--   SpcFast.Stamped.
-- * Gate is gate.py: duplicates, undecodable, uncovered, worst_scan and check, which puts them
--   together. It asks Tables for the slots. Gate.Entries, .Covered and .Check hold the proofs.
-- * Sdd1Ref is sdd1ref.py: encode_request and decode_response. Sdd1Ref.Request has a reader of
--   requests of its own; `max_length` is a parameter.
-- * Streams is jpstreams.py, usastreams.py and requests_jp.py, with gate.py's table and requests:
--   the measured tables in modules named Part0 and on. Streams.Sound reads a table once, and
--   Streams.Gated says what is left of the gate for the tables.
-- * GameFixes is gamefixes.py: locate, survey, changed_bytes and apply. GameFixes.Sites holds FIXES
--   and EMPTY_CALLS, GameFixes.Located the search for a run, GameFixes.Retired the calls that
--   become returns, GameFixes.Applied the steps of apply.
-- * Shinakuma is shinakuma.py, with its apply in Shinakuma.Gated, and Prefight prefight.py, with its
--   table in Prefight.Filled and its apply in Prefight.Redirected.
-- * MapCheck is mapcheck.py: load and report, with the findings of report in MapCheck.Verdict, which
--   also compares them with the gate's.
-- * Sdd1Find is sdd1find.py: extend in Sdd1Find.Extended, the bitmaps in Sdd1Find.Bitmaps, and
--   find_streams in Sdd1Find.Found. A bitmap of less than three bits has no byte, so that the source
--   raises IndexError; the model returns an error there.
--
-- The tests, with the theorems at concrete inputs, are the modules named Tests.
--
-- Loops. A walk over slots has 65,536 rounds, as in the source. The repair has the source's 64
-- rounds. A search for all occurrences has as many rounds as the cartridge has bytes, and each round
-- moves ahead by a byte at least. place has as many rounds as its data has bytes, and RomBuild.Rounds
-- shows that they are enough. All other loops are recursions on the list that they read.
--
-- Numbers are natural numbers. Where the source subtracts, the guards before it make the result one,
-- or the comparison is written without the difference.
--
-- Not modelled: the command lines and their messages, entries_from_map of rombuild.py, compare and
-- the container runs of sdd1ref.py, chains of sdd1find.py, table_for of mapcheck.py, the call sites,
-- the patch runner, the packing of releases, the checks of the environment, the measuring tools, the
-- assembly and the C++ of the emulator.
pub mod Base
pub mod Tables
pub mod SpcFast
pub mod RomBuild
pub mod Sdd1Map
pub mod RepeatLoad
pub mod Gate
pub mod Sdd1Ref
pub mod Streams
pub mod GameFixes
pub mod Shinakuma
pub mod Prefight
pub mod MapCheck
pub mod Sdd1Find
