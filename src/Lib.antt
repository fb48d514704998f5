-- ===== src/Lib.antt =====
-- Bambu Gateway: a server between Bambu Lab printers and their clients. It slices uploaded projects
-- on a remote slicer, sends the result to a printer, follows printers over MQTT, relays their cameras
-- and notifies phones. This library models the Python server of the directory app.
--
-- Parts, and the files that model them:
--   SliceJobs (app/slice_jobs.py). SliceJobs.antt has the record `SliceJob` and `SliceJob.new`;
--     SliceJobs/Persist has `to_dict`, `from_dict` and `SliceJobStore`, whose state is the file, the
--     cached dictionary and the blob files; SliceJobs/Run is `_run_job`: Run/Effects has `_set_status`,
--     `_notify` and `_fail` over a `World` (the job, the records stored, the notifications), Run/Loop
--     the loop over the slicer's events, Run/Print `_is_printer_idle` and `_auto_print`; Run/Steps,
--     Run/Writes, Run/Looping, Run/Outcome, Run/Events and Run/Delivery prove what a run does. What the
--     awaits return, with the times at which they do and the writes of the store that raise, is the
--     argument `Inputs`, so that each order of events is one argument; the content of
--     the output file is not kept. SliceJobs/Manager has
--     `submit`, `cancel` and `recover_on_startup`, which work on the store of SliceJobs/Persist.
--   Filament (app/filament_selection.py): the check of a selection, the AMS mapping and the check of the
--     selected trays, which a run of SliceJobs makes before it prints.
--   Notify (app/notification_hub.py, app/notification_events.py): Notify/Detect is `detect_events` between
--     two statuses, Notify/Hub what `_handle` drops.
--   DeviceStore (app/device_store.py): the registered devices and live activities and their file.
--   Camera (app/camera_proxy.py): Camera/Frames is the packet and `FrameParser`, Camera/Queue the
--     publication of frames to the subscribers' queues.
--   Mqtt (app/mqtt_client.py): Mqtt/Commands builds the payloads, Mqtt/Report and Mqtt/Apply are
--     `apply_print_payload` as a list of changes of which the first that raises is the last, Mqtt/AmsType
--     and Mqtt/Ams read the AMS. Mqtt/Client is `BambuMQTTClient`: its attributes, the sections of its
--     lock and the messages; Mqtt/Client/Threads has the threads that share it as a step relation.
--   Tracking (app/print_tracking.py): Tracking/Reports reads and merges reports, Tracking/Broker is
--     `PrintEventBroker` (Broker/Build its snapshots, Broker/Update its operations), and Tracking/Feed the
--     runs of `subscribe` with their queues and the leases of the MQTT client's connection that they hold.
--   Cloud (app/cloud): Cloud/Printer is `CloudPrinterClient`, which reads reports by the functions of Mqtt,
--     Cloud/Submit the frames of a submission, Cloud/PrintParams its parameters.
--   PrinterService (app/printer_service.py): the commands with the relay of the cloud; PrinterService/Sync is
--     `sync_printers`, by which the clients follow a new list of printers.
--   ConfigStore (app/config_store.py, app/config.py): the printers and their file.
--   HmsCodes (app/hms_codes.py): the descriptions of errors, which Mqtt/Apply gives a stopped printer.
--   Stages (app/preparation_stages.py): the tables of stages and `determine_state`.
--   UploadTracker (app/upload_tracker.py): the uploads that a client follows.
--   Printer (app/models.py): the printer status that Notify, SliceJobs and Mqtt read.
--   Prelude: tests, lists, Python's dict and int, JSON values and text.
--
-- Conventions. A mutable object is a value that an operation takes and returns. A lock or an event
-- loop makes each method one step. `none` is an exception where a comment says so. Times are numbers
-- of milliseconds, ids and blobs are arguments. Only the loop of `feed` needs fuel: the length of its
-- buffer and two more, enough since a round that goes on has taken a header and the theorem on
-- `feed` and `Drains` says that the loop has come to its end.
--
-- Not modelled: an exception of a store's write outside a run of `_run_job`, the tasks that run the
-- loops (workers, the camera's upstream), the dispatch of notifications, the parsing of the slicer's
-- log, the slicer client, the cloud plugin, the HTTP routes of app/main.py, the web interface, and
-- third-party code, whose results are arguments.
pub mod Prelude
pub mod Printer
pub mod UploadTracker
pub mod Camera
pub mod Stages
pub mod Notify
pub mod Filament
pub mod SliceJobs
pub mod DeviceStore
pub mod HmsCodes
pub mod Mqtt
pub mod Tracking
pub mod ConfigStore
pub mod Cloud
pub mod PrinterService
