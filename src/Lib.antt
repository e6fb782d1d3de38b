-- ===== src/Lib.antt =====
-- Verification library of the Fledge HNZ south plugin. The plugin talks to one remote station over
-- one or two TCP paths with the HNZ-V24 protocol, turns the station's messages into readings for
-- Fledge, and sends the commands of Fledge to the station.
--
-- Parts, and how they interact:
--   * State (include/hnzpath.h, include/hnzconnection.h, include/hnz.h, include/hnzconf.h): the
--     fields of the classes HNZPath, HNZConnection, HNZ and HNZConf as records. `World` holds the
--     two paths, the connection and the station. What leaves the plugin is kept in lists, the
--     latest first: calls of HNZClient (`client_calls`), readings (`ingested`) and audits
--     (`audits`).
--   * Path (src/hnzpath.cpp): one path alone. Path/Send has m_sendFrame, m_sendInfo,
--     m_sendInfoImmediately, sendBackInfo and the resets, Path/Ack has m_isNRValid, m_NRAccepted,
--     m_receivedRR and m_sendRR, Path/Commands has the payloads of commands and settings and the
--     list of commands that wait for an acknowledgement, and Path/Extract has m_extract_messages.
--     Path/Window, Path/Fifo, Path/Queueing, Path/Extraction and Path/Pending hold the theorems on
--     them.
--   * Link (src/hnzconnection.cpp, src/hnzpath.cpp): the two paths under the connection.
--     Link/Activity has requestConnectionState and tryActivateOtherPath, Link/Protocol the table
--     of transitions and protocolStateTransition, Link/Frames m_analyze_frame and the management
--     of a path, Link/Address what the address of the station rules out, Link/Timers the rounds of
--     m_manageMessages, Link/Gi the general interrogations. Link/Effects, Link/Coherence and
--     Link/Invariant lead to the invariant of the two paths, and Link/Local, Link/Report,
--     Link/Quiet, Link/Calm, Link/Steps and Link/Rounds treat everything else under it.
--     Link/Steady, Link/Shrinks and Link/Queues carry what the queues of a path may hold through
--     the same steps. Link/Create has the constructors of HNZConnection and HNZPath, Link/Fresh
--     what they leave behind, and Link/Closing what the stop of the connection leaves behind.
--     Link/Interrogation, Link/Schedule, Link/Asking and Link/Unanswered treat the general
--     interrogations,
--     Link/Audits and Link/Audited what the audits tell, Link/Made the paths that are set, and
--     Link/Quits the exceptions of map::at.
--   * Station (src/hnz.cpp): Station/Telemetry has the fields of the messages, Station/Handle
--     m_handle_message, Station/Reading the readings, Station/Monitor the reported status,
--     Station/Epoch getEpochMsTimestamp, Station/Mismatch m_getMismatchingTSCGAddresses, and
--     Station/Operation the operations that Fledge asks for. Station/Texts has the texts of the
--     audits (include/hnzutility.h). Station/Status, Station/Codec and Station/Calm hold theorems.
--   * System: the events of the plugin, and one step for each; System/Invariant has the theorems
--     on every sequence of events. System/Threads has the threads: HNZ::receive with connect and
--     getData, m_manageHNZProtocolConnection and m_manageMessages. System/Runs,
--     System/Refinement and System/Loops relate them to sequences of events, and System/Reception
--     treats a bad line.
--   * Conf (src/hnzconf.cpp): Conf/Retrieve has m_check_... and m_retrieve, Conf/Protocol
--     importConfigJson with the transport and application layers, and Conf/Exchange
--     importExchangedDataJson. Conf/Json has the interfaces to rapidjson and to stoul and stoi.
--     Conf/Bounds, Conf/Settings, Conf/Range and Conf/Limits treat the ranges of the settings,
--     Conf/Through, Conf/Labels and Conf/Covers the messages of the station.
--   * Plugin (src/hnz.cpp, src/plugin.cpp): start, stop, setJsonConfig and reconfigure of the
--     class HNZ around a `World`. Plugin/Entry has the entry points and their calls in any order.
--     Plugin/Invariant and Plugin/Life have the theorems on every sequence of calls,
--     Plugin/Audits, Plugin/Reporting, Plugin/Renewal and Plugin/Promises those on the audits and
--     the configuration of a plugin that runs, Plugin/Rounds and Plugin/Exceptions those on its
--     rounds and on what it does not throw, and Plugin/Faults those on the start.
--   * Prelude: tests into Bool, lists, options, bytes, integers and results.
--
-- A path asks the connection for a connection state in its transitions
-- (`request_connection_state`), the connection reports its status to the station
-- (`update_hnz_connection`), the station asks the active path for interrogations and commands, and
-- the messages that a path extracts go to the station (`receive_frame`). The plugin reads the
-- configuration, creates the connection from it (`create_connection`), and then hands every event
-- of its threads to the step of System.
--
-- Modelling:
--   * An event of System is one step: a frame with the handling of all its messages, for which
--     the source takes one mutex after the other, or an operation, which takes none of its own.
--     What other threads do between two critical sections of one event is not modelled. `now` is
--     the clock, which an operation reads once; a `Clock` also holds what gmtime_r and localtime_r give for that
--     time.
--   * Times and counters are unbounded numbers, also the settings in seconds that the source
--     multiplies by 1000 as int; conversions to bytes and to 32 and 64 bits are
--     written out (`% 256`, `% 2 ^ 32`, `% 2 ^ 64`).
--   * m_extract_messages runs on fuel of one more than the size of the payload, which is enough as
--     every message takes a byte at least. The loop of m_NRAccepted runs on the length of the
--     waiting queue: every round that sends takes a message from it, and a round that may not send
--     changes nothing, so that the source would stay in the loop.
--   * A setting that the source stores from unsigned int into int is taken to be below 2^31.
--   * A connection that a new configuration replaces was never started, as a running plugin is
--     stopped first; its destructor then changes nothing that is left.
--   * `fault null_pointer` stands for a call through a null active path or connection and `fault
--     buffer_overrun` for a read behind a frame. The exceptions of std::map::at are options where
--     the source catches them and `fault out_of_range` where it does not.
--   * The codes of the HNZ library are fields of `Codes`, and rapidjson, stoul and stoi are
--     parameters.
--
-- Threads: while a thread is blocked, the others go on. The model of a thread therefore holds, for
-- each place where it waits, the events of the others in between (`during`), and what the client
-- of the HNZ library answers then. The runs of a thread are as long as these lists.
--
-- Not modelled: mutexes, the creation and the joins of threads, and logs; the sockets and the CRC
-- (class HNZClient of the HNZ library), which are parameters; the default configuration that
-- plugin_info publishes.
mod Prelude
pub mod State
pub mod Conf
pub mod Path
pub mod Station
pub mod Link
pub mod System
pub mod Plugin
