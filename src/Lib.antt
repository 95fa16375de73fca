-- ===== src/Lib.antt =====
-- Verification of the licence-plate recognition pipeline.
--
-- The program reads frames of several gates, finds plates and vehicles in them, lets the reads of a
-- passing car vote, judges its direction, and publishes the result to a message broker; on the side
-- it records gates to segment files, streams them live on request, and keeps the GigE cameras of
-- one network interface from overloading it. The parts and the files that model them:
--
--   Queue          include/lpr/util/BlockingQueue.h, which connects the threads. A method is a
--                  function on the state under the mutex; a run of the threads is a list of calls,
--                  and a call that waits is `none` until the predicate of its wait holds.
--   PlateProcessor src/process/PlateProcessor.cpp: process, resolveKey, evictStale and
--                  weightedConsensus. The maps are association lists (Prelude.Dicts) in the order
--                  of their iteration.
--   Tracking       src/track/PlateTrackingRecognizer.cpp: the plates of a frame bound to tracks.
--   Direction      src/process/DirectionEstimator.cpp: update, split into the reset (refreshed),
--                  the new sample (sampled), the judgement (verdict) and the streak (settle).
--   CameraManager  src/manager/CameraManager.cpp: the cameras by their settings, and the routing.
--   CameraWorker   src/manager/CameraWorker.cpp: onFrame with the motion gate, and the sessions of
--                  supervise. Images are a parameter, an absdiff that throws a result of it.
--   Detection      src/manager/DetectionWorker.cpp: passIdFor and what process does with each read,
--                  on the pass of one gate; Detection.Worker is the map of the passes.
--   Plates         the rules about plate texts, of src/net/PlateSender.cpp and PlateProcessor.cpp.
--   Sender         src/net/PlateSender.cpp: the loop of run, cooldownPasses, buildMessage.
--   MediaSender    src/net/MediaSender.cpp: the upload of a recording in chunks.
--   Notifier       src/net/CameraStatusNotifier.cpp.
--   Transport      include/lpr/net/IMessageTransport.h as a record with the law that its clients,
--                  Sender and Notifier, use; InMemoryTransport.h implements it.
--   Recording      src/services/RecordingService.cpp; Recording.Prune is pruneOldRecordings.
--   LiveView       src/services/LiveViewService.cpp.
--   Router         src/services/CommandRouter.cpp and include/lpr/JsonFind.h, which turn messages
--                  into calls of Recording and LiveView.
--   GigE           src/basler/GigEBandwidthCoordinator.cpp; GigE.Rate is GigeRateAdapt.h with its
--                  use in src/basler/CapturePipeline.cpp.
--   Commands       src/basler/Commands.cpp: makeCommand, the area of interest and the queue of
--                  include/lpr/basler/CommandQueue.h.
--   Exposure       include/lpr/basler/ExposureController.h, and of src/basler/ExposureStrategies.cpp
--                  the metering and the automatic loop.
--   Supervisor     src/basler/ConnectionSupervisor.cpp: the maps and their operations; the drop of a
--                  camera and its reconnection as steps of two threads; Supervisor.Bandwidth and
--                  Supervisor.Roi are applyBandwidth and applyRoi.
--   Sync           src/basler/SyncConfigurators.cpp: the nodes of each role, written and read back.
--   Settings       src/config/: the settings of the cameras, their polygons and regions with the
--                  caches of these, and in Settings.Crop the hardware crop.
--   Capture        src/basler/CapturePipeline.cpp: the faults of the cameras and the pairing.
--   DualCapture    src/capture/DualCaptureSource.cpp: the pairing of two streams and its failover.
--   Heartbeat      the loop of src/net/HeartbeatMonitor.cpp.
--   Ctc            ctcGreedyDecode of src/detect/CtcDecoder.cpp, without the confidence.
--   Floats         the doubles of the program, as an interface of operations and order laws; two
--                  instances over the natural numbers compute in the tests.
--   Prelude        what the components share: Boolean tests, lists, texts, maps, integers.
--
-- Time is an argument of each call, in milliseconds (in Supervisor in seconds), and so are the
-- identifiers that the program draws. A configured number that the code compares with 0 is a
-- natural number, whose 0 stands for every value that is not positive. Loops are structural
-- recursion; the only fuel is that of to_string, one digit per unit of the number at most, of the
-- consumer in Queue.Shutdown, one round per queued item and one more, and of
-- Supervisor.Backoff.reconnect_loop, one round per attempt. Counters of events are unbounded: no
-- run brings the 64-bit ones of the code to overflow.
--
-- Not modelled: the code that drives an SDK (cameras, inference engines, encoders, the broker), the
-- copies of other projects (ByteTrack, Jaro-Winkler, Base64, the JSON library), logging, the wiring
-- of the application, the settings of the whole program, the vehicle tracker and the drawing and
-- masking of images.
pub mod CameraManager
pub mod CameraWorker
pub mod Capture
pub mod Commands
pub mod Ctc
pub mod Detection
pub mod Direction
pub mod DualCapture
pub mod Exposure
pub mod Floats
pub mod GigE
pub mod Heartbeat
pub mod LiveView
pub mod MediaSender
pub mod Notifier
pub mod PlateProcessor
pub mod Plates
pub mod Prelude
pub mod Queue
pub mod Recording
pub mod Router
pub mod Sender
pub mod Settings
pub mod Supervisor
pub mod Sync
pub mod Tracking
pub mod Transport
