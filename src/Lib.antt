-- ===== src/Lib.antt =====
-- Verification of rocklet, the software that runs on a vacuum robot, which stands in for the
-- vendor's cloud client and offers the robot as a node of a Kubernetes cluster.
--
-- The parts of the program and their files. A Go name in a comment is the one in the file named
-- there.
--
--   Protocol             pkg/rockrobo/local_connection.go: the struct Method, the names of the
--                        methods.
--   Cloud/Message        pkg/rockrobo/cloud.go: CloudMessage; Read is `read`, Write `write`,
--                        Checksum `compute_checksum`, aesParamsFromKey `aes_params_from_key`.
--   Cloud/Receiver       pkg/rockrobo/cloud.go: runCloudReceiver, cloudRegisterID and the waiting
--                        end of CloudOTCInfo, as one transition system (`step`, `run`).
--   Cloud/KeepAlive      pkg/rockrobo/cloud.go: runCloudKeepAlive; `connect` is a pass of
--                        ConnectionLoop, `session_pass` a pass of SessionLoop.
--   Cloud/Otc            pkg/rockrobo/cloud.go: CloudOTCInfo (`otc_request`, `otc_answer`), with
--                        GetInternalInfo of pkg/rockrobo/rockrobo.go.
--   Local/Queues         pkg/rockrobo/rockrobo.go: retrieve (`register`, `unregister`), and the
--                        choice of a channel in pkg/rockrobo/local_connection.go (`route`,
--                        `on_message`).
--   Local/Connection     pkg/rockrobo/local_connection.go: the goroutines of
--                        localConnection.handle.
--   Local/AppCommand     pkg/rockrobo/rockrobo.go: AppCommand, from its start to its return.
--   Local/Commands       pkg/rockrobo/local_connection.go: LocalSetStatus and the LocalApp
--                        functions; pkg/rockrobo/rpc/rpc.go: the RPC methods (`serve`).
--   NavMap/RobotDb       pkg/navmap/robotdb.go: ConvertMap, parsePath, drawMap.
--   NavMap/Cleanings     pkg/navmap/robotdb.go: ListCleanings.
--   NavMap/Slam          pkg/navmap/navmap.go: parseSlamLine, watchSlamLog, LatestPositionsMap.
--   NavMap/Maps          pkg/navmap/navmap.go: lookupMaps and NewMap.
--   NavMap/Loop          pkg/navmap/navmap.go: LoopMaps.
--   NavMap/Handlers      pkg/navmap/navmap.go: handlePNG and handleJPEG with the buffers of a map.
--   NavMap/Server        pkg/navmap/navmap.go: Run, the passes of LoopMaps between the requests.
--   NavMap/Reader        binary.Read on a reader in memory, as robotdb.go uses it.
--   Kubernetes/Pods      pkg/kubernetes/pods_controller.go: processNextItem, sendNotify,
--                        handleErr.
--   Kubernetes/Pods/Controller
--                        pkg/kubernetes/pods_controller.go: runPodController, Controller.Run and
--                        updatePodStatus around one pod.
--   Kubernetes/Vacuum    pkg/kubernetes/vacuum_status.go: tryUpdateVaccumStatus.
--   Kubernetes/Node      pkg/kubernetes/node_status.go: setNodeReadyCondition, updateNodeStatus,
--                        registerWithAPIServer, tryRegisterWithAPIServer.
--   Kubernetes/Node/Status
--                        pkg/kubernetes/node_status.go: initialNode, setNodeStatus,
--                        tryUpdateNodeStatus and updateNodeStatus on an API server.
--   Kubernetes/Sync      pkg/kubernetes/node_status.go: syncNodeStatus, with
--                        registerWithAPIServer on an API server (`register_passes`).
--   Kubernetes/Run       pkg/kubernetes/kubernetes.go: the loop of Run; pkg/rockrobo/rockrobo.go:
--                        the reader of the cleanings in Run.
--   Kubernetes/FakePods  pkg/kubernetes/node_status.go: ensureFakePods.
--   Kubernetes/Cleanings pkg/kubernetes/cleanings.go: ensureCleaning, for the goroutines that Run
--                        of pkg/kubernetes/kubernetes.go starts.
--   Robot/Status         pkg/rockrobo/rockrobo.go: the status loop of Run (`report_status`,
--                        updateStatus is `update_status`); pkg/rockrobo/local_connection.go:
--                        LocalGetStatus.
--   Robot/Stop           pkg/rockrobo/rockrobo.go: New, Listen, Run, CloudStart,
--                        runSignalHandling, and pkg/rockrobo/rpc.go: runRPCServer, as one
--                        transition system over r.stopCh and r.waitGroup.
--   Robot/DeviceInit     pkg/rockrobo/local_connection.go: runLocalDeviceInit, LocalDeviceID,
--                        LocalWifiConfigStatus; pkg/rockrobo/rockrobo.go: GetToken.
--   Robot/Accept         pkg/rockrobo/local_connection.go: runLocalConnectionHandler;
--                        pkg/rockrobo/rpc.go: the loop that accepts connections.
--   Ui                   cmd/ui.go: the keys and the ticker of the remote control.
--   Gencert              cmd/gencert.go: the command gencert, its files and the names in the
--                        certificate.
--
-- The cloud packets that Cloud/Message encodes are what Cloud/Receiver reads and Cloud/KeepAlive
-- sends. The table incomingQueues of Local/Queues is shared by retrieve, by every local
-- connection and by the keep-alive loop, which has the key "cloud" in it while a session lasts.
-- Local/Commands fills the queue that a connection of Local/Connection serves when it is the app
-- proxy's, and its RPC calls are what Ui sends. Robot/DeviceInit sets the device id and the token
-- that Cloud/Otc puts into its message, whose answer comes through Cloud/Receiver. Robot/Status
-- reads the map and the positions of NavMap/Slam and hands its status to Kubernetes/Vacuum.
-- NavMap/Cleanings converts the maps of its records by NavMap/RobotDb. NavMap/Server puts the
-- passes of NavMap/Loop, which read the files by NavMap/Maps, together with NavMap/Handlers. Run
-- sends what it lists to Kubernetes/Run, whose goroutines do what Kubernetes/Cleanings says and
-- whose ticks are those of Kubernetes/Sync, which registers the node, keeps the pod of
-- Kubernetes/FakePods and updates the status of Kubernetes/Node/Status.
--
-- How the code is represented. A string and a byte slice are lists of numbers; the unsigned
-- integers are numbers with their wrap-around written out. A Go function that can fail or panic
-- returns an `Outcome`. Goroutines are transition systems whose events are single steps of one
-- goroutine, so a list of events is an interleaving; an unbuffered channel is a rendezvous. Logging
-- and metrics are left out.
--
-- Parameters are the code outside the repository: MD5 and AES-CBC (`Crypto`, with the documented
-- laws `IsCrypto`), json.Unmarshal, strconv and the float arithmetic, image.NewRGBA and png.Encode
-- (`Images`), the decoder of images, the work queue of client-go (`WorkQueue`, with the law `IsWorkQueue`), the answers of the
-- API server (`Client`, with the laws `IsClient`), encoding/pem and crypto/x509 (`Library`, with
-- the laws `IsLibrary`), the rows of SQLite, gzip, the float64 of the
-- terminal (`IsFloats`), and in the keep-alive loop those of the network, the clock and the random
-- source.
--
-- Bounds and fuel. ConvertMap's loop takes as fuel one more than the bytes that follow the file's
-- header, which is enough since each block has a header of 8 bytes. The decimal printing of an id
-- takes the number itself as fuel.
--
-- Not modelled: the parts that only do input and output (the HTTP servers, the gauges of the
-- terminal), metrics, ConvertMapToJPEG, the generated Kubernetes client, and goroutine scheduling
-- beyond the interleaving of steps. The requests of NavMap/Server are served one after the other;
-- a call of syncNodeStatus is one step of Kubernetes/Run; the blocking and the shutdown of the
-- work queue are left to the events of Kubernetes/Pods/Controller. A map in the
-- database whose gzip stream is damaged after its header, RPC calls that are served at the same
-- time, and the value of an axis between its change and its clamp are left out.
pub mod Base
pub mod Protocol
pub mod Cloud
pub mod Local
pub mod NavMap
pub mod Kubernetes
pub mod Robot
pub mod Ui
pub mod Gencert
