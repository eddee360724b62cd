-- ===== src/Lib.antt =====
-- Verification of VMNetX, which runs virtual machines on demand and streams them over the
-- network.
--
-- The program has a client, a server and a controller for each virtual machine. The client and
-- the server talk over a socket that carries length-prefixed messages; the server authenticates a
-- client by a token, attaches it to the controller of an instance and passes its requests on. A
-- virtual machine is a package whose disk and memory images are read over HTTP, in ranges, and
-- whose chunks are followed by the controller.
--
-- The files and the code they model (paths from the repository's root):
--   Prelude: lists, slices, numbers and tests over the native numbers.
--   Util: vmnetx/util.py. Ranges is `RangeConsolidator`, a record of the pending run and the
--     calls made; Backoff is `BackoffTimer`, a record of the schedule, the position in it and the
--     timer.
--   Source: vmnetx/source.py. `_HttpSource` with its buffer, `read` by its cases, `seek`, `tell`,
--     `close`, and `SourceRange.write_to_file`. The HTTP library is the parameter `Http`, a
--     function from a range to the response; what is relied on is `Serves`: while the resource is
--     unchanged, a range request is answered with the bytes of the range that exist.
--     Source.Reads, Source.Contract, Source.Behind and Source.Range hold the proofs.
--   Package: vmnetx/package.py. `_PackageMember` and `Package`, over Source; the ZIP library's
--     directory and the XML parser are parameters. Package.Stored and Package.Members are about
--     one member, Package.Contents about all.
--   Controller: vmnetx/controller/. Chunks is `ChunkStateArray` of __init__.py; the signals are a
--     list. MainLoop, Remote (Connect, Handlers, Events) and Viewer are remote.py:
--     `_TemporaryMainLoop`, `RemoteController` and `_ViewerConnection`, over the client endpoint
--     of Protocol.Client and the timer of Util.Backoff; Remote.Invariant and Remote.Connections
--     hold the proofs. Local is the starting and stopping of a machine by `LocalController` of
--     local/__init__.py, from the end of `initialize`: the startup threads are cut at each access of
--     the controller, and a retry is a frame of its own. Virtevent is local/virtevent.py; Virtevent.Requests and
--     Virtevent.Refinement compare it with a table of what libvirt has asked for.
--   Domain: vmnetx/domain.py. The choice of an emulator by `_get_emulator`; the capabilities are
--     a tree of what the XPath queries see of them. Domain.Choice describes the choice by a list.
--   Protocol: vmnetx/protocol.py. Socket is `_AsyncSocket`, with the outcomes of the system calls
--     as arguments of its methods; Framing is the receiving half of `_Endpoint`, Forwarding what
--     it does after `start_forwarding`; Message, Server and Client are the dispatch of messages
--     and the send methods of `_Endpoint`, `ServerEndpoint` and `ClientEndpoint`; Pinger is
--     `_Pinger`; Session joins a client, a server and two message queues by a step relation, and
--     Transport a sending socket and a receiving endpoint.
--   Server: vmnetx/server/__init__.py. Instance is `_Instance` with `_WorkerThreadFuture`;
--     threads, the queue of `glib.idle_add` and what is done to other objects are part of its
--     state, and Instance.Events lists what can happen to it, Instance.Lifecycle holds its
--     invariant and Instance.Ending what follows from it. Registry is `VMNetXServer`:
--     Registry.Tokens is about the lookup of a token, Registry.Collection about `_gc`,
--     Registry.Shutdown, Registry.Events and Registry.Signals about `shutdown`. Connection is
--     `_ServerConnection`, which stands between a ServerEndpoint and a controller. Which
--     connections close while they are being destroyed is a parameter. Http is
--     vmnetx/server/http.py, over the operations of Registry; whether a package can be opened is
--     a parameter.
--   Memory: vmnetx/memory.py. `LibvirtQemuMemoryHeader` as a record; a file is the list of its
--     bytes, and `write` gives the new bytes. Memory.RoundTrip relates `parse` and `write`.
--   Monitor: vmnetx/controller/local/monitor.py. `_StreamMonitorBase._read` (Monitor.Lines) and
--     `LoadProgressMonitor` (Monitor.Progress).
--   Examples: concrete inputs, one for each theorem that takes arguments.
--
-- Numbers are natural numbers; Python's are not bounded, and the prefix of a message is written
-- with its wrap at 2 ^ 32. Bytes are natural numbers. The loop that copies a range runs on fuel,
-- and more fuel than the range has bytes is enough, since each read makes progress; all other
-- loops recur on a list or a count.
--
-- Not modelled: the packing of message bodies (msgpack is a parameter), the GTK interface, the
-- XML templates and the writing of packages (lxml and zipfile do that work), what LocalController
-- does with libvirt, D-Bus and vmnetfs processes before a machine can start, logging, the Windows
-- bindings, and the C program vmnetfs.
mod Prelude
pub mod Util
pub mod Source
pub mod Controller
pub mod Domain
pub mod Package
pub mod Memory
pub mod Monitor
pub mod Protocol
pub mod Server
mod Examples
