-- ===== src/Lib.antt =====
-- Verification of go-draco, a Go implementation of the Draco geometry compression format.
--
-- The program and its parts. An encoder turns a mesh or a point cloud into a header, connectivity
-- and attribute values; a decoder turns them back. Both stand on internal/core (bytes and
-- varints), internal/bitstream (the header), internal/entropy (rANS and bit coders),
-- internal/transform (corrections of predicted values) and internal/topology (the corner table).
-- The codecs in the root folder call these. This library models these lower layers, from which
-- every stream is made, and the metadata package.
--
-- Which file models what:
--   Common             lists, options and tests over native numbers, integers of 32 bits
--                      (Common.Int), bit operations (Common.Bits), results with errors and the
--                      methods of an object as state passing (Common.State).
--   Core.Words         the little-endian words of encoding/binary, as lists of bytes.
--   Core.Reader        internal/core/reader.go: Reader, a position in a byte slice. read_bytes is
--                      ReadBytes and so on; Core.Reader.Laws says what each reads.
--   Core.Writer        internal/core/writer.go: Writer, the bytes written so far.
--   Core.BitReader, Core.BitWriter
--                      BitReader and BitWriter of the same files. Core.BitPacking puts both over
--                      the number that the bytes spell: Writing, Reading and RoundTrip.
--                      Core.Fields has the laws of quotients and remainders by powers of two.
--   Core.Codec         what it means that a writer writes bytes, that a reader reads a value from
--                      them, and that one undoes the other; the rules that join such calls.
--   Core.Varint        internal/core/varint.go: EncodeVarUint32, DecodeVarUint32 and the others.
--   Bitstream          internal/bitstream/header.go: Header, EncodeHeader, DecodeHeader and
--                      ValidateVersion. Bitstream.Outcomes has all that DecodeHeader does.
--   Entropy.RansDecoder, Entropy.RansEncoder
--                      internal/entropy/rans.go and rans_encoder.go: the coder's state, its
--                      tables and its cache of tables. Entropy.Rans holds the theorems:
--                      Renormalise (the byte loops), Step (one symbol), RoundTrip (a run), Tail
--                      (the final state), Lookup, Shares and Cache (BuildLookup), Session (all of
--                      them on one decoder).
--   Entropy.Probabilities
--                      buildRansProbabilityTable of rans_encoder.go: Pass (the normalisation
--                      loops), Frequencies and Table (its result).
--   Entropy.ProbabilityTable
--                      encodeRansProbabilityTable of rans_encoder.go and the loop of
--                      createSymbolDecoder in symbols.go that reads it.
--   Entropy.Symbols, Entropy.SymbolEncoding
--                      internal/entropy/symbols.go and symbol_encoding.go: DecodeSymbols and
--                      EncodeSymbols with both schemes. Entropy.SymbolCoding has the proofs:
--                      Scratch (the decoders that are kept), Size, Table (a table with its
--                      symbols), Counts (frequencies), Raw, Groups and Tagged (the schemes),
--                      RoundTrip.
--   Entropy.RansBit    internal/entropy/rans_bit.go: RansBitEncoder, ransBitWriter,
--                      RansBitDecoder, with the values of up to 32 bits in
--                      Entropy.RansBit.Values. Digits and Packing relate words to lists of bits,
--                      Step and RoundTrip are on the coder, Tail on its final state, Stream on
--                      EndEncoding against StartDecoding.
--   Entropy.DirectBit  internal/entropy/direct_bit.go: DirectBitEncoder and DirectBitDecoder.
--   Entropy.BitCoder   the interfaces bitEncoder and bitDecoder of internal/entropy/folded_bit.go
--                      with the law of a coder that keeps its bits; Entropy.RansBit.Coder fills
--                      them.
--   Entropy.FoldedBit  FoldedBit32Encoder and FoldedBit32Decoder of the same file. Columns and Decoding are
--                      on the bits of each of the 32 coders, RoundTrip joins them.
--   Transform.Wrap     internal/transform/wrap.go: Wrap with its corrections modulo the range.
--   Transform.Octahedron
--                      internal/transform/octahedron.go: the integer methods of Octahedron.
--                      Patterns, Inversion and Twice lead from the unsigned words of
--                      InvertDiamond to integers.
--   Transform.Normal   internal/transform/normal.go: NormalOctahedron and
--                      NormalOctahedronCanonicalized. Rotation has the turns and the sums modulo
--                      the side of the square, Laws a correction against its inverse, Canonical
--                      the points that represent normals.
--   Metadata           metadata/metadata.go: Element with its entries and children, and in
--                      Metadata.Geometry the metadata of a geometry. Metadata.Entries says what
--                      an element holds after an entry is set. Metadata.Codec is
--                      EncodeGeometryMetadata and DecodeGeometryMetadata; EntryTrip, ElementTrip
--                      and RoundTrip lead to the theorem that the second undoes the first.
--   Topology.CornerTable
--                      internal/topology/corner_table.go: CornerTable, its navigation and
--                      BuildCornerTable, whose map of edges is a list of pairs; AddFace and the
--                      rest in Topology.CornerTable.Growth.
--
-- How the code is translated. A method is a function of its object's state that returns a result
-- and the new state; a call that fails keeps the changes that it made before. Unsigned words are
-- native numbers with the wrap-around written out; int32 is an integer with wrap32 after each
-- operation. The float64 expression in RansBitEncoder.EndEncoding is an arbitrary function, and
-- those of buildRansProbabilityTable and computeShannonEntropy are the record FloatOps, of which
-- IsRounding says what IEEE arithmetic gives: a share that is off by less than one. An int is
-- taken as unbounded: the sizes and indices stay below 2^63. A float32 is its bit pattern.
--
-- Bounds and fuel. The varint encoders loop on five and ten rounds, enough for the groups of 32
-- and 64 bits. The loop of RansEncoder.WriteSymbol has five rounds: a 32-bit state divided by 256
-- is 0 after four, and a run that did not end would be none. The normalisation loop of
-- buildRansProbabilityTable has as many rounds as the excess, the loop over the tags of
-- decodeTaggedSymbols as many as there are values, decodeElement has 257 levels for depths of 0
-- to 256, and the read of a field of bits takes five bytes. Every other loop is by recursion on
-- its count, its list or its offset. Precisions go up to 20 bits, the largest that
-- ComputeRansPrecisionBits gives.
--
-- Not modelled. Scratch buffers that are reused between calls are values here, so their aliasing
-- is not seen. An index out of range, where Go panics, reads 0 or gives none, as each file says.
-- A context is never cancelled. The capacities of slices and the texts of errors are left out. Of
-- the program's parts, the float part of the octahedron, the kd-tree and edgebreaker codecs,
-- prediction, quantization, the geometry types, mesh algorithms, structural metadata and the
-- entry points are not modelled.
pub mod Common
pub mod Bitstream
pub mod Core
pub mod Entropy
pub mod Metadata
pub mod Topology
pub mod Transform
