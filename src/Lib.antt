-- ===== src/Lib.antt =====
-- The downloader's core, modelled from the Go sources.
--
-- The task manager (pkg/download) keeps the tasks and decides which of them run. Each running task
-- has a fetcher; the HTTP fetcher (internal/protocol/http) splits the resource into chunks, one for
-- each connection, and hands work from slow connections to idle ones. pkg/base keeps the bitset of
-- completed pieces that a progress view reads. internal/blob offers bytes that extensions produce
-- behind local URLs, which the HTTP fetcher downloads like any other. When a task is done, its
-- archives pass through the extraction queue.
--
-- Files and sources:
--   Common: Booleans, integers, lists and counting that all parts share; Int is Go's int64 without
--     its bounds, Bits the bytes of a bitset, Text what the sources call of strings and strconv.
--   PieceMap: pkg/base/piece_map.go. The record has the fields of the struct; each method is a
--     function of the same name. Bitset, Shift, Invariant, Laws, Removal and Restore hold the proofs.
--   Http.SlowStart: slowStartController of internal/protocol/http/fetcher.go.
--   Http.Connection: chunk and connection there, and the failure classes of helper.go.
--   Http.Split: the split of expandConnections, and helpOtherConnection.
--   Http.Transfer: the write loop of downloadChunkOnce, with what reaches the file, as a step relation
--     with the splits and the steals: the two critical sections of a write and the write between them are
--     three steps. Phases, Steps and Exact hold the proofs.
--   Http.Range: formatRangeHeader, isStrongETag and extractIfRangeValidator of helper.go, and
--     validateRangeResponse.
--   Http.Attempt: one attempt of downloadChunkOnce. Attempt has the request and the decisions on the
--     response, Sequential the state and the ways between ranges and one sequential response, Reads
--     one read, Once the whole attempt; Planning, Cases, Offsets, Alignment and
--     Steady hold the proofs. What the
--     network answers is an input, the World of the attempt.
--   Http.Retry: runConnection, the loop around the attempts. Refused, Stops, Ready and Turns hold
--     the proofs.
--   Http.Completion: onDownloadComplete, checkCompletion and resumeConnections.
--   Download.Task: the status of a task in pkg/download/downloader.go and its generation counter.
--   Download.Scheduler: the task list, the waiting queue and the calls that start, pause, continue,
--     delete or end tasks. Counting, Limit and Room lead to Calls, which has the step relation;
--     Queue and Started look at the waiting queue and at Continue.
--   Download.ExtractionQueue: pkg/download/extract_queue.go.
--   Blob.Source and Blob.Registry: internal/blob/registry.go. Balance, Sessions, Sections, Continuation
--     and Later hold the proofs, and Lifetime the step relation.
--   Blob.Range: parseRange, writeHeaders and the limit of ServeHTTP there; Exchange lets the HTTP
--     fetcher check the answer to its own request.
--   Hls.Crypto: internal/protocol/hls/crypto.go.
--   Hls.Attributes and Hls.Playlist: internal/protocol/hls/playlist.go. Defs has the lines and errors,
--     Master the master playlist and its choice, Media and its Keys the media playlist; Values, Fold,
--     Segments, Lines, Gaps and Order hold the proofs.
--   Hls.Run: internal/protocol/hls/journal.go, and the run of internal/protocol/hls/fetcher.go from the
--     journal to the merged file. Journal, Pending and Merge hold the proofs.
--
-- State and steps: a pointer is a number, and a store maps it to what it points to. In Http.Transfer and
-- Blob.Registry a step is one critical section, and what happens between two locks is a sequence of steps
-- of a relation, in any interleaving; in Download.ExtractionQueue, Download.Task and Http.SlowStart a
-- method that holds its lock throughout is one step. Download.Scheduler takes whole calls one after the
-- other, with the goroutines of notifyRunning at once or later, Http.Attempt and Http.Retry follow one goroutine, and in Hls.Run the download of a segment is
-- one step, the segments being in any order. A channel that is closed is a
-- counter of its closings. An error is a value of the model.
--
-- Numbers: sizes and offsets are integers without a bound, since every one of them is at most the
-- size of a file; the sequence numbers and the offsets that a playlist makes up wrap as int64; the
-- generation counter of a task keeps its wrap at 2^64 and the bytes of a bitset
-- their eight bits. No loop of the program runs on fuel: each follows a list or a count that is known when
-- it starts, and the loop of runConnection the list of what its attempts meet, but for the digits of a printed number, of which an int64 has at most 19. The loop of expandConnections that splits runs once for each connection of the batch.
--
-- Text: a text is the list of its bytes. White space and letters are those of ASCII; a playlist or a
-- header with other white space is outside the model.
--
-- Parameters: the resolution of an address against that of its playlist and the parsing of a time in a
-- header, which are Go's libraries; whether a fetcher can be restored, whether it pauses without an error, the block cipher
-- of HLS, the content of a segment of HLS, and the numbers of new sources. The lists of tasks that a call works on are what the filter of the call has found.
--
-- Not modelled: calls of the downloader that overlap with the doStart of a Continue; requests, files, timers, storage, events and logging, which are I/O; the protocols
-- BitTorrent and ed2k and the extension engine, which wrap libraries; the requests of HLS; the REST and MCP layers, the commands, the bindings and the user interface.
mod Common
pub mod PieceMap
pub mod Http
pub mod Download
pub mod Blob
pub mod Hls
