-- ===== src/Lib.antt =====
-- TinyBase: buffers, encodings, strings and queues.
--
-- Memory is a byte at every address (Mem), and a pointer is its address. A function that writes
-- returns the new memory, and one that changes a structure through a pointer returns the new
-- structure. An access never faults in the model: which addresses an operation may write is part of
-- the theorems. Machine words are native numbers with their wrap-around written out; usz has 64
-- bits.
--
-- - Base: shared names, search loops, words, and the bit operations as arithmetic.
-- - Mem: the address space with memset and memcpy; Mem/Write: bytes stored in a row; Mem/Word:
--   words of several bytes, the lowest first.
-- - Memory: src/tinybase-memory.c and .h. Memory/Compare: CompareBuffers and EqualBuffers.
--   Memory/Search: ByteInBuffer, BufferInBuffer and DataInBuffer; the two searches that the code
--   calls through function pointers are the record Kernels, with the laws IsCorrect. Memory/Edit:
--   ClearBuffer, AdvanceBuffer, CopyData, the append functions, ReplaceByteInBuffer and
--   PushIntoArena, against the list of bytes that a buffer holds. Memory/Simd: the SSE2, SSE3 and
--   AVX2 searches and InitBuffersArch; the vector instructions are the record Vector, with what
--   they document of them. Its children prove of each search what it gives (Mask, Byte, Blocks,
--   Needle, Bits, Places, Sse3, Avx2, Unused, Missed), and Install of the choice.
-- - Types: the byte swaps of src/tinybase-types.h. Types/FirstBit: GetFirstBitSet in its two
--   versions, FlipBit and ClearBit.
-- - Encoding: the encodings of src/tinybase-strings.h. Encoding/Utf8, Encoding/Utf16: the
--   conversions of src/tinybase-encoding.c. Encoding/Char: sizes, GetNextChar, DecodeChar and
--   EncodeChar, against the tables of the Unicode standard in Encoding/Char/Spec.
-- - Strings: the string structure. Strings/Walk: what the loops over a text share.
--   Strings/Transcode: Transcode with its three loops. Strings/Length: StringLen in its three
--   forms. Strings/Class: the classes of characters and of strings. Strings/Number: StringToUInt,
--   StringToInt and StringToHex. Strings/Print: AppendUIntToString and AppendIntToString over
--   NumberOfDigits, against the decimal text of a number in Strings/Print/Decimal. Strings/Query:
--   StringInString, CompareStrings and EqualStrings. Strings/Append: the append functions for
--   characters, data, arrays and strings. Strings/Chars: CharInString, CountCharInString,
--   ReplaceCharInString, AdvanceString, EatNextChar.
-- - Platform: src/tinybase-platform-linux.c. Platform/Path: MoveUpPath and the functions that
--   append to a path. Platform/File: GetMemory and the functions on files; the system calls are the
--   record System, and what they document of a regular file is ReadsFiles in Platform/File/Laws, a
--   hypothesis of the theorems, which a system with one file in Tests/Files meets. Platform/Dir:
--   the functions on directories, over the record DirCalls; Remove has RemoveDir and
--   ChangeFileLocation. Listing: ListFiles over a system that lists the entries of a directory,
--   which is the hypothesis ListsDirs, met by a system with one directory in Tests/Dirs. Rooted,
--   Leading and Absolute: the path that AppendArrayToPath makes of an absolute one. Slashes and
--   Make: MakeDir.
-- - Atomic: the two operations of src/tinybase-atomic.c that the queues use, on a heap of words.
--   Atomic/Words: all operations with both compilers, on the bytes of memory.
-- - Queues: src/tinybase-queues.c and .h. Queues/Fifo: the abstract queues. Queues/Ring: the MPMC
--   ring buffer. Queues/FreeList: the MPSC free list. Queues/Ring/Threads: the ring buffer in
--   threads, one shared access per step.
-- - Tests: runs at concrete inputs.
--
-- Fuel: ReplaceByteInBuffer, CountCharInString and ReplaceCharInString of a character of one byte
-- take one round more than the buffer has bytes, Transcode, StringLen with LEN_CODEPOINT, the
-- classes and the number functions one round more than the text has characters, NumberOfDigits 20
-- rounds, and ListFiles one round more than the directory has entries left: this is enough. The
-- loops of the vector searches take the number of bytes of the haystack, which is more than it has
-- blocks. RemoveDir takes the depth of its recursion, MakeDir one round for every slash and one
-- more. The searches for a null byte, the other counts and the replacement of longer characters
-- take their fuel as an argument.
--
-- What C leaves undefined has a result in the model all the same: a copy of overlapping regions
-- reads them before it writes, and a signed sum or product wraps. A call of read may give fewer
-- bytes than were asked for, or fail.
--
-- A parameter or an array of a function whose address it takes stands in memory at an address of
-- its own, which the functions take as an argument (local, new_char, array, new_buf).
--
-- Not modelled: floating point (StringToFloat, AppendFloatToString and the wrappers of the C
-- mathematics library), and of the platform layer asynchronous files, threads, locks, clocks and
-- libraries, which are little more than system calls. The Windows layer is calls of the Windows
-- API.
pub mod Base
pub mod Mem
pub mod Memory
pub mod Types
pub mod Encoding
pub mod Strings
pub mod Platform
pub mod Tests
pub mod Atomic
pub mod Queues
