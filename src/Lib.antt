-- ===== src/Lib.antt =====
-- Deplug's packet pipeline (the C++ core, plugkit/src): capture and import number the frames and put
-- them into a queue, dissector threads take them out and analyse them, the frame store puts them back
-- into order, the stream dissector pool reads them and reports how far the streams are dissected, and
-- the filter threads read the views and list the frames that pass a display filter. The session ties
-- the parts together and tells the main loop what has changed.
--
-- The parts, each in the file of its name, with the theorems about it in its child modules and the
-- tests and applications at concrete inputs in its child Tests:
--   Pipeline      plugkit/src/session.cpp: the way of the frames from the capture and the importers,
--                 over the queue and the dissector threads, to the store
--   Queue         plugkit/src/queue.hpp: `enqueue`, `dequeue`, `close`, `size`
--   Sequence      the `std::map` on frame indices and the loop over consecutive indices that
--                 frame_store.cpp and filter_thread_pool.cpp share
--   FrameStore    plugkit/src/frame_store.cpp: `insert`, both `dequeue`, `get`, `update`, `close`
--   FilterPool    plugkit/src/filter_thread_pool.cpp: `threadCallback`, `get`, `size`; its child
--                 Threads is filter_thread.cpp with filter.cpp, and the start of the threads
--   StreamPool    plugkit/src/stream_dissector_thread_pool.cpp: `updateIndex`; its child Dispatch is
--                 the thread that divides the layers of the frames among the others
--   StreamDissector  plugkit/src/stream_dissector_thread.cpp: the workers of the streams, `analyze`,
--                 `loop`
--   Dissector     plugkit/src/dissector_thread.cpp: `enter` and the loop over one layer; its child
--                 Loop is the loop over the frames and the levels of layers
--   TagFilter     plugkit/src/tag_filter.cpp
--   Layer         plugkit/src/layer.cpp, attr.cpp and payload.cpp, as a heap of layers in which a
--                 pointer is an index
--   FrameView     plugkit/src/frame_view.cpp, on that heap
--   Context       plugkit/src/context.cpp: the linkage of layers, with attributes on a heap of their
--                 own, and the allocation of objects
--   Allocator     plugkit/src/allocator.hpp: the free lists of the blocks on an explicit heap;
--                 its child Vector is `BlockVector`
--   Variant       plugkit/src/variant.cpp without the conversions to and from V8
--   Token         plugkit/src/token.cpp; its child Table is the generated plugkit/src/token_hash.h
--   Session       plugkit/src/session.cpp and swap_queue.hpp: frame numbers, update flags, event
--                 queues, display filters
--   FileImporter  plugkit/src/file_importer_task.cpp, and `createRawFrame` of file_exporter_task.cpp
--   FileExporter  plugkit/src/file_exporter_task.cpp: `apiCallback`
--   TaskRunner    plugkit/src/task.cpp
-- Common has the library's names, lists over the native numbers, and laws of bits and bit fields.
--
-- A method that holds a mutex from its start to its end is one step on the state. A method that
-- waits on a condition variable is split: `waits_…` is the condition under which it goes on waiting,
-- and the method itself is what follows the wait. Threads are sequences of such steps in any order.
-- Pointers to frames and views are values of a parameter type, callbacks are counted. What the
-- dissectors, the importers and the scripts of filters do is a parameter wherever it is called.
--
-- Sequence numbers, tokens and sizes are `uint32_t`, and their additions wrap. The loop over
-- consecutive numbers runs with one round more than the map has elements, the loop of `Layer::frame`
-- and the recursion of `findLeafLayers` with as many rounds as there are layers, the loop over the
-- dissectors of a layer with one round more than there are dissectors, the loop over those of a
-- stream with one round more than the stream has workers, the loop of `apiCallback` with one round
-- more than there are frames. Each is proved to be enough. The levels of layers in the loops of both
-- kinds of dissector threads are as many as a parameter says, which is enough if no layer nests
-- deeper.
--
-- Not modelled: V8, libuv, libpcap and their wrappers, worker_thread.cpp and script_dissector.cpp,
-- which run V8, sandbox.cpp, logging, and string_pool.cpp.
pub mod Common
pub mod Queue
pub mod Sequence
pub mod FrameStore
pub mod FilterPool
pub mod StreamDissector
pub mod StreamPool
pub mod TagFilter
pub mod Allocator
pub mod Variant
pub mod Layer
pub mod Context
pub mod FrameView
pub mod Token
pub mod Session
pub mod Dissector
pub mod FileImporter
pub mod FileExporter
pub mod TaskRunner
pub mod Pipeline
