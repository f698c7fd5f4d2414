-- ===== src/Lib.antt =====
-- casei: search of UTF-8 text under Unicode simple folding, and exact search of bytes.
--
-- The program compiles a set of patterns into one plan (plan.go, newSearchPlan): tokens for the
-- units of the patterns, a trie with failure links and outputs, and a dense table of transitions
-- where it is small. A search advances the plan over the text. Before it does, byte filters made
-- from the patterns screen the text for the next candidate (plan.go and root_other.go), and a
-- literal of one pattern has routes of its own. Matcher.Each (matcher.go) enumerates the matches;
-- IndexFold keeps the plans of single needles in a cache that all callers share.
--
-- The files and the code:
--   Base        lists and texts indexed by native numbers, digits and bytes of words, and `scan`,
--               the loop that stops at the first index that passes a test.
--   Utf8        what the code uses of unicode/utf8: DecodeRuneInString, EncodeRune, and `range`.
--   Ascii       plan.go: isASCIILetter, asciiRarity. Ascii.Words: makeASCIIShortLiteral,
--               asciiShortLiteralAt, the literal words, asciiFixedPrefix8, asciiFixedAt,
--               asciiOnlyPatternAt, asciiPatternAt (`literal_at` is the loop over
--               every byte in asciiFixedAt). Ascii.Only: makeASCIIOnlyProbe,
--               findASCIIOnlyAnchorWithHigh. Ascii.Pairs: asciiPairRarity, chooseASCIIPairAnchor.
--               Ascii.Anchor: makeASCIIAnchor and the probes that it makes (also
--               makeASCIIInteriorAnchor of zz_ascii_interior.go); Ascii.Anchor.Find: findASCIIAnchor,
--               findASCIIPairAnchor, findASCIIByteAnchor, findASCIIRun.
--   Filter      Filter.Slots: the nibble tables. Filter.Triple and Filter.Pair: tripleFilter,
--               rootFilter, makeTripleShuftiFilter, makePairShuftiFilter and the loops that skip by
--               them. Filter.Vbmi: the VBMI projections. Filter.Anchor: asciiPairAnchors.
--               Filter.Arrange: the order of the triples, as the AVX-512 kernels take it.
--               Filter.Skip: the other loops of root_other.go.
--   Unicode     Unicode.Forms: patternRawForms, tripleFromForms, asciiFoldSpelling.
--               Unicode.Confirm, Pack and Match: unicode_confirm.go.
--   Plan        Plan.Tokens: patternToken, runeToken, maxFoldRuneWidth. Plan.Trie: the trie of
--               newSearchPlan.
--               Plan.Links: finish and advance; below it, Words are the states by the tokens that
--               lead to them, Climb and Linking the failure links, Queue and Finish the loop over
--               the queue, Rows and Dense the table. Plan.Search: findExactBytes; below it, Refine
--               sets it against the patterns.
--               Plan.Roots: the loops of finishFoldFilters over the bytes, and asciiTokenKind.
--               Plan.RootFilter: makeRootFilter.
--               Plan.AtStart: matchAtStart (each_root.go). Plan.Partition: the tests that admit a
--               text to the partitioned search.
--   Cache       plan.go: cachedSinglePlan, as atomic actions of calls that interleave.
--   Matcher     matcher.go: the general loop of Each. Matcher.Probe: eachASCIIProbe.
--               Matcher.Interior: recoverASCIIInteriorStart beside matcherMatchEnd.
--
-- How the code is read:
--   `for i := range s` over a string visits the starts of its units (`unit_starts`), not its bytes.
--   An array with a count is the list of its used prefix, and a capacity is a test of its length.
--   A Go map is an association list in the order of insertion. The dense table is a list of rows.
--   The pattern -1 and the start -1 are `none`. An integer of a fixed width wraps where it is
--   written so (`u8`, `u32`, `% 2 ^ 64`); an int is not bounded. `byte_at` reads 0 past the end of
--   a text: the code reads only where a test has bounded the index, and the model has these tests.
--   unicode.SimpleFold is the parameter `simple_fold`; an orbit has at most four members, and the
--   loop over it has eight rounds. The other loops have fuel: the bytes that are left, the
--   candidates that are left, or the count of nodes, and each round uses one up.
--   The portable build is modelled (root_other.go). The amd64 kernels are assembly and are not.
--
-- Not modelled: the folded executors of plan.go (findUnfiltered, findFiltered, the partitioned
-- search) and the dispatch of findWithWidth, makeUnicodeAnchor, makeTripleFilter, raw_byte.go, the
-- word certificates of each_root.go, and the routes of Each for raw bytes and for the root bucket.
pub mod Base
pub mod Utf8
pub mod Ascii
pub mod Filter
pub mod Plan
pub mod Unicode
pub mod Cache
pub mod Matcher
mod Tests
