-- ===== src/Lib.antt =====
-- Cherokee, a file server over HTTP: a model of its C++ sources, and proofs about it.
--
-- The program. main.cpp starts `WebServer` (fileserver/): one thread waits on epoll and puts an event
-- object for each ready descriptor on the queue of a `ThreadPool` (threadpool/), whose workers call
-- the event's `process` (event/). `HandleRecv` reads a request into an entry of a shared map, keyed
-- by descriptor, and registers the path to answer in a second map; `HandleSend` builds the response
-- for that path and sends it in pieces. The descriptor is registered for one event at a time, and the
-- handlers register it again.
-- message/ declares the entries of the two maps, utils/ wraps the calls of epoll.
--
-- The model.
-- - Text: the operations of std::string, std::istringstream and isspace that the sources use, over
--   lists of bytes; Text/Find has the laws of the search.
-- - Fault: how a handler may end otherwise than by returning (exceptions that leave it, undefined
--   behaviour, loops that never end).
-- - Message: message/message.h. `Message` is flattened into `Request` and `Response`; the members
--   that `Response()` does not initialise are an argument, `Garbage`. Message/Header has
--   `setRequestLine` and `addHeaderOpt`, with std::stoll and std::string::substr.
-- - Utils: the masks of `addWaitFd` and `modifyWaitFd` of utils/utils.cpp. World: what the handlers
--   do outside, as a list of effects, and the two maps. Utils/Results: what those wrappers return;
--   Utils/HashTable: the wrappers of hsearch_r, over an interface for it; Utils/LogPrefix: `outHead`;
--   Utils/Ipc: the wrappers of shared memory and semaphores, and the making and destroying of a table;
--   Utils/Cache: `cache_manager` of main.cpp.
-- - Recv: `HandleRecv::process` of event/myevent.cpp, one function for each part of the receive loop:
--   Recv/Parse (request line and header), Recv/FileHead (header of an uploaded file), Recv/Content
--   (its contents), and the loop itself in Recv. Proofs: Recv/ParseLaws, Recv/GetRequest,
--   Recv/ContentLaws, Recv/Upload, Recv/UploadStream, with Recv/HeadLoop and
--   Recv/SaveRound for single rounds of the loops; Recv/Termination, Recv/Returns,
--   Recv/Rearm, Recv/PutRequest; Recv/Rule is the invariant rule of the loop, which Recv/Kept applies
--   to the request of Recv/Valid and to the response; Recv/RequestText is the text that a client
--   writes, Recv/RoundTrip and Recv/Parts read it back; Recv/PartHead is the head of the part that holds a file, and
--   Recv/WholeUpload an upload from there.
-- - Send: `HandleSend::process`, whose first part, which builds the response, is Send/Build, with
--   Send/Routing (the path), Send/Page (status line, header, list page) and Send/Decimal
--   (std::to_string). Proofs: Send/Pieces, Send/Transmit, Send/Closing, Send/RoutingLaws,
--   Send/PageLaws, Send/Completion, Send/HeaderSize, Send/Deliver, Send/Download, Send/Bounds,
--   Send/Resting, Send/Kept, Send/Resume, Send/Stuck, Send/Redirect.
-- - ThreadPool: `appendEvent` and `run` of threadpool/threadpool.cpp as steps of threads that
--   interleave in any order, with failing calls. Proofs: ThreadPool/Tally, ThreadPool/Invariant,
--   ThreadPool/Kept, ThreadPool/Exact, ThreadPool/Safety, ThreadPool/Progress; ThreadPool/Jobs is an
--   abstract system of jobs, which ThreadPool/Refines compares with the pool. ThreadPool/Create: the
--   constructor, and `createThreadPool`.
-- - WebServer: `waitEpoll` and `setSigHandler` of fileserver/fileserver.cpp, and `AcceptConn::process`;
--   WebServer/Setup: `createListenFd`, the destructor, and `main`; WebServer/Epoll: the other set-up
--   steps, over WebServer/Calls, calls that throw at the first that fails; WebServer/Signals: the
--   signal handler. Proofs: WebServer/LoopLaws, WebServer/SetupLaws, WebServer/EpollLaws.
-- - System: calls of the two handlers one after the other over the maps that they share (the
--   base class of event/myevent.h). System/Exchange: a request and its answer, and System/Serve
--   from the text of the request; System/Session: many requests one after the other;
--   System/Upload: an upload and the redirection that answers it; System/Delete: the deletion of
--   a file, and System/Missing: a download of one that is not there, both in two responses;
--   System/Put: a PUT request, with System/SentFiles, on the files while a response is sent;
--   System/Invariant: the entries between calls; System/Files: the files, as the effects change
--   them, and System/StoreFetch: an upload and a download of the same file. World/Arming is on the
--   order of a handler's effects, which Recv/Arming and Send/Arming follow and System/Calm puts
--   together.
-- - Tests: runs at concrete inputs, and each theorem at a concrete input.
--
-- The outside is given as arguments: the bytes of each `recv` and how they end, the counts that `send`
-- and `sendfile` return and how they end, the descriptors of `open`, the sizes of `fstat`, the names of
-- `readdir`, the lines of html/filelist.html, which files can be opened.
--
-- Loops. The loops over received bytes run on as many rounds as there are bytes, and one more; each
-- round takes a byte at least. The loops over `recv` and `send` are recursions on their results,
-- for calls of the handlers that come to an end; Send/Stuck is on one that does not. The loop over the
-- name of a file is a recursion on the bytes of its line, past whose end it is undefined. The decimal
-- printer has the 20 rounds that a number of 64 bits needs.
--
-- Not modelled: the bytes of the shared memory, which nothing reads; how a signal comes in between two
-- instructions; what fcntl and epoll_ctl return to the handlers, which ignore it; the texts written to
-- the log; sizes of texts of 2 ^ 64 bytes and more; and calls of the handlers that overlap. The worker
-- threads share the two maps with no lock, and a handler goes on writing to them after it has registered
-- its descriptor again, so that another worker may then be at the same entry: the model has one call
-- after the other, and the theorems on the handlers speak of such calls only.
pub mod Base
pub mod Fault
pub mod Text
pub mod Message
pub mod Utils
pub mod World
pub mod Recv
pub mod Send
pub mod ThreadPool
pub mod WebServer
pub mod System
mod Tests
